-- ===== src/Framework/Orchestrator/Commands.antt =====
-- framework/orchestrator.cpp: what a test case asks the orchestrator to do with a link.
use native.Mathlib.Nat.{zero-add}
use fall23_p.Prelude.{
  ◌∙◌, ap, ◌≤◌, ℕ, ◌>>=◌, zero, suc, ◌+◌, ◌^◌, ◌<◌, ◌≡◌, ◌==◌, ◌⊎◌, Bool, true, List, [], ◌∷◌, ◌++◌,
  Option, some, none, if◌then◌else◌, load, length, arith, ℕ_discrete, refl,
}
use fall23_p.Framework.ErrorCode.{ErrorCode, success, bad_testcase, is_success}
use fall23_p.Framework.Buffer.{Buffer, read16, write16}
use fall23_p.Framework.Message.{MessageType}
use fall23_p.Framework.Message.Length.{payload_bytes}
use fall23_p.Framework.Fragment.Header
use fall23_p.Framework.Orchestrator.Exchange.{
  Peer, request, fragment_request_response, prepare_header, exchange, exchange-sent,
}
use fall23_p.Framework.Orchestrator.Headers.{Keeps}
use fall23_p.Framework.Orchestrator.Agreement.{
  fragment_peer, request-check_header, fragment_request_response-success,
}

-- The loops over the neighbours of a node, from the neighbour `nid`.
unfoldable pub find_from : List ℕ → ℕ → ℕ → Option ℕ
find_from [] idx nid = none
find_from (neighbor ∷ neighbors) idx nid =
    let rest = find_from neighbors idx (nid + 1) in if neighbor == idx then some nid else rest

-- The payload of a CHANGE_LINK_STATE request.
unfoldable pub link_payload : ℕ → Bool → Buffer → Buffer
link_payload nid is_enabled b i =
    if i == 10 then (if is_enabled then 1 else 0) else write16 b 8 nid i

abbrev both : Option ℕ → Option ℕ → Option (ℕ × ℕ)
both (some i) (some j) = some (i, j)
both _ _ = none

-- `b` is the message buffer, and `b'` the buffer as the first exchange leaves it. The result is the
-- error code and the messages sent, each with its fragment.
pub change_link_state :
    List (List ℕ)
    → (ℕ → Peer)
    → Buffer
    → Buffer
    → ℕ
    → ℕ
    → Bool
    → Option (ErrorCode × List (ℕ × Buffer))
change_link_state topology peers b b' idx_a idx_b is_enabled = do
  row_a ← load topology idx_a
  row_b ← load topology idx_b
  elim (both (find_from row_a idx_b 0) (find_from row_b idx_a 0)) [
    | none ↦ some (bad_testcase, [])
    | some (b_nid_in_a, a_nid_in_b) ↦
        exchange (peers idx_a) b idx_a MessageType.change_link_state
          (link_payload b_nid_in_a is_enabled)
        >>= λ (code, out).
            if is_success code
            then (exchange (peers idx_b) b' idx_b MessageType.change_link_state
                  (link_payload a_nid_in_b is_enabled)
                >>= λ (code', out'). some (code', out ++ out'))
            else some (code, out)
  ]

-- The loop finds a neighbour that is there.
pub find_from-load :
    (row : List ℕ) (idx nid k : ℕ)
    → load row k ≡ some idx
    → (i : ℕ) × (find_from row idx nid ≡ some (nid + i))
      × (load row i ≡ some idx)
      × (i < length row)
unfolding find_from
find_from-load [] idx nid k h = cc
find_from-load (x ∷ row) idx nid zero h = (0, ground (arith, h), h, omega arith)
find_from-load (x ∷ row) idx nid (suc k) h = elim (ℕ_discrete x idx) [
  | yes same ↦ (0, ground arith, ap some same, omega arith)
  | no other ↦
      let (i, found, there, below) = find_from-load row idx (nid + 1) k h in
      (suc i, ground (arith, found), there, omega arith)
]

link_payload-Keeps :
    (b : Buffer) (nid : ℕ) (is_enabled : Bool) → Keeps b (link_payload nid is_enabled b)
unfolding link_payload write16
link_payload-Keeps b nid is_enabled i = ground arith

link_payload-fields :
    (b : Buffer) (nid : ℕ) (is_enabled : Bool)
    → nid < 2 ^ 16
    → (read16 (link_payload nid is_enabled b) 8 ≡ nid)
      × (link_payload nid is_enabled b 10 ≡ (if is_enabled then 1 else 0))
unfolding link_payload write16 read16
link_payload-fields b nid is_enabled range = (ground arith, ground arith)

-- Two messages with the same payload of four bytes.
same_payload :
    (m c : Buffer)
    → ((i : ℕ) → (i < 2) ⊎ ((12 ≤ i) ⊎ (m i ≡ c i)))
    → (read16 m 8 ≡ read16 c 8) × (m 10 ≡ c 10)
unfolding read16
same_payload m c same = (ground (arith, same 8, same 9), ground (arith, same 10))

-- A request that tells the fragment `fid` of the link to `other`, its neighbour in `row`.
pub record AsksLink (row : List ℕ) (fid other : ℕ) (is_enabled : Bool) (m : Buffer) : Type 0 where
  pub passes : Header.check_header fid true true m MessageType.change_link_state ≡ some success
  pub neighbor : load row (read16 m 8) ≡ some other
  pub state : m 10 ≡ (if is_enabled then 1 else 0)

link_request-AsksLink :
    (b : Buffer) (row : List ℕ) (fid other nid : ℕ) (is_enabled : Bool)
    → fid < 2 ^ 16
    → nid < 2 ^ 16
    → load row nid ≡ some other
    → (m : Buffer) × (request b fid MessageType.change_link_state (link_payload nid is_enabled)
        ≡ some m)
      × AsksLink row fid other is_enabled m
unfolding payload_bytes
link_request-AsksLink b row fid other nid is_enabled range small there =
    let prepared = prepare_header b fid MessageType.change_link_state in
    let (m, sent, passes, same) =
      request-check_header b fid MessageType.change_link_state (link_payload nid is_enabled) range
        (link_payload-Keeps prepared nid is_enabled) tt (omega arith) in
    let (neighbor, state) = link_payload-fields prepared nid is_enabled small in
    let (same_neighbor, same_state) = same_payload m (link_payload nid is_enabled prepared) same in
    (
      m,
      sent,
      record {
        passes = passes;
        neighbor = ap (load row) (same_neighbor ∙ neighbor) ∙ there;
        state = same_state ∙ state;
      },
    )

exchange-success :
    (b b' : Buffer) (fid nid : ℕ) (is_enabled : Bool) (reply : Buffer → Buffer)
    → fid < 2 ^ 16
    → Keeps
        (Header.prepare_header b' fid MessageType.change_link_state success)
        (reply (Header.prepare_header b' fid MessageType.change_link_state success))
    → fragment_request_response
        (fragment_peer fid MessageType.change_link_state b' reply)
        b
        fid
        MessageType.change_link_state
        (link_payload nid is_enabled)
      ≡ some success
unfolding payload_bytes
exchange-success b b' fid nid is_enabled reply range keeps =
    fragment_request_response-success b b' fid MessageType.change_link_state
      (link_payload nid is_enabled) reply range (link_payload-Keeps _ nid is_enabled) tt
      (omega arith) keeps tt (omega arith)

both-success :
    (topology : List (List ℕ)) (peers : ℕ → Peer) (b b' : Buffer) (idx_a idx_b : ℕ)
    (is_enabled : Bool) (row_a row_b : List ℕ) (p q : ℕ) (out out' : List (ℕ × Buffer))
    → load topology idx_a ≡ some row_a
    → load topology idx_b ≡ some row_b
    → find_from row_a idx_b 0 ≡ some p
    → find_from row_b idx_a 0 ≡ some q
    → exchange (peers idx_a) b idx_a MessageType.change_link_state (link_payload p is_enabled)
      ≡ some (success, out)
    → exchange (peers idx_b) b' idx_b MessageType.change_link_state (link_payload q is_enabled)
      ≡ some (success, out')
    → change_link_state topology peers b b' idx_a idx_b is_enabled ≡ some (success, out ++ out')
unfolding change_link_state
both-success topology peers b b' idx_a idx_b is_enabled row_a row_b p q out out' at_a at_b found_a
      found_b first second =
    rw (at_a, ◌>>=◌)
      (rw (at_b, ◌>>=◌) (rw (found_a, found_b) (rw (first, ◌>>=◌) (rw (second, ◌>>=◌) refl))))

-- Between two nodes that are neighbours of each other, whose fragments answer, a link change succeeds. It
-- sends one message to each of the two, and each message passes the header check of its fragment, names
-- the other node among the fragment's neighbours, and has the state asked for. The nodes' numbers and
-- neighbour counts fit 16 bits, and the responses leave the headers alone.
pub change_link_state-AsksLink :
    (topology : List (List ℕ)) (peers : ℕ → Peer) (b b' : Buffer) (idx_a idx_b : ℕ)
    (is_enabled : Bool) (row_a row_b : List ℕ) (i j : ℕ) (buffers : ℕ → Buffer)
    (reply : Buffer → Buffer)
    → load topology idx_a ≡ some row_a
    → load topology idx_b ≡ some row_b
    → load row_a i ≡ some idx_b
    → load row_b j ≡ some idx_a
    → idx_a < 2 ^ 16
    → idx_b < 2 ^ 16
    → length row_a ≤ 2 ^ 16
    → length row_b ≤ 2 ^ 16
    → ((c : Buffer) → Keeps c (reply c))
    → ((fid : ℕ) → peers fid ≡ fragment_peer fid MessageType.change_link_state (buffers fid) reply)
    → (m : Buffer) × (m' : Buffer) × (change_link_state topology peers b b' idx_a idx_b is_enabled
        ≡ some (success, (idx_a, m) ∷ (idx_b, m') ∷ []))
      × AsksLink row_a idx_a idx_b is_enabled m
      × AsksLink row_b idx_b idx_a is_enabled m'
change_link_state-AsksLink topology peers b b' idx_a idx_b is_enabled row_a row_b i j buffers reply
      at_a at_b a_to_b b_to_a range_a range_b few_a few_b keeps answers =
    let (p, found_a, there_a, below_a) = find_from-load row_a idx_b 0 i a_to_b in
    let (q, found_b, there_b, below_b) = find_from-load row_b idx_a 0 j b_to_a in
    let (m, sent, asks) =
      link_request-AsksLink b row_a idx_a idx_b (0 + p) is_enabled range_a (omega arith)
        (rw zero-add there_a) in
    let (m', sent', asks') =
      link_request-AsksLink b' row_b idx_b idx_a (0 + q) is_enabled range_b (omega arith)
        (rw zero-add there_b) in
    let first =
      exchange-success b (buffers idx_a) idx_a (0 + p) is_enabled reply range_a (keeps _) in
    let second =
      exchange-success b' (buffers idx_b) idx_b (0 + q) is_enabled reply range_b (keeps _) in
    (
      m,
      m',
      both-success topology peers b b' idx_a idx_b is_enabled row_a row_b (0 + p) (0 + q)
          ((idx_a, m) ∷ []) ((idx_b, m') ∷ []) at_a at_b found_a found_b
          (exchange-sent (peers idx_a) b idx_a MessageType.change_link_state
            (link_payload (0 + p) is_enabled) m success sent (rw (answers idx_a) first))
          (exchange-sent (peers idx_b) b' idx_b MessageType.change_link_state
            (link_payload (0 + q) is_enabled) m' success sent' (rw (answers idx_b) second)),
      asks,
      asks',
    )
