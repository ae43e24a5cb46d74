-- ===== src/Framework/Orchestrator/Agreement.antt =====
-- framework/orchestrator.cpp and framework/fragment.cpp: what each side makes of the other one's messages.
use fall23_p.Prelude.{
  Option, refl, inr, ℕ, ◌≤◌, ◌<◌, ◌≡◌, ◌+◌, ◌^◌, true, false, some, Bool, arith, ◌⊎◌, ◌>>=◌,
}
use fall23_p.Framework.ErrorCode.{ctrl_connection_broken, success, ErrorCode}
use fall23_p.Framework.Buffer.{Buffer}
use fall23_p.Framework.Message.{MessageType, validate, finalize}
use fall23_p.Framework.Message.Length.{HasLayout, payload_bytes}
use fall23_p.Framework.Fragment.Header
use fall23_p.Framework.Fragment.Header.{check_header-success, same_type_iff}
use fall23_p.Framework.Orchestrator.Exchange
use fall23_p.Framework.Orchestrator.Headers.{
  IsHeader, Keeps, request-IsHeader, response-IsHeader, sealed-IsHeader,
}

-- A request of the orchestrator passes the header check of the fragment that it is for, whose payload
-- is then the one that was filled in. The fragment's number fits 16 bits, the payload leaves the
-- header alone, its type has a payload in a request, and the length of the message fits 16 bits.
pub request-check_header :
    (b : Buffer) (fid : ℕ) (t : MessageType) (fill : Buffer → Buffer)
    → fid < 2 ^ 16
    → Keeps (Exchange.prepare_header b fid t) (fill (Exchange.prepare_header b fid t))
    → HasLayout true t (fill (Exchange.prepare_header b fid t))
    → 12 + payload_bytes true t (fill (Exchange.prepare_header b fid t)) < 2 ^ 16
    → (m : Buffer) × (Exchange.request b fid t fill ≡ some m)
      × (Header.check_header fid true true m t ≡ some success)
      × ((i : ℕ)
          → (i < 2)
            ⊎ ((8 + payload_bytes true t (fill (Exchange.prepare_header b fid t)) ≤ i)
                ⊎ (m i ≡ fill (Exchange.prepare_header b fid t) i)))
unfolding Exchange.request
request-check_header b fid t fill h keeps layout size =
    let prepared = Exchange.prepare_header b fid t in
    let (m, e, valid, header, same) =
      sealed-IsHeader true fid t prepared (fill prepared) (request-IsHeader b fid t h) keeps layout
        size in
    (
      m,
      e,
      (check_header-success fid true true m t).1 (
        valid,
        header.direction,
        inr header.fragment,
        (t, header.type, inr refl),
        header.no_error,
      ),
      same,
    )

valid-check_header :
    (m : Buffer) (check_id : Bool) (fid : ℕ) (t : MessageType)
    → validate m ≡ some true
    → IsHeader false fid t m
    → Exchange.check_header m check_id fid t ≡ some success
unfolding Exchange.check_header
valid-check_header m check_id fid t valid h =
    ground (arith, same_type_iff t t, h.direction, h.type, h.fragment, h.no_error)

-- A response of a fragment passes the header check of the orchestrator, whether or not it checks whose
-- it is, and carries the payload that was filled in. The fragment's number fits 16 bits, the payload
-- leaves the header alone, its type has a payload in a response, and the length of the message fits 16
-- bits.
pub response-check_header :
    (b : Buffer) (check_id : Bool) (fid : ℕ) (t : MessageType) (fill : Buffer → Buffer)
    → fid < 2 ^ 16
    → Keeps (Header.prepare_header b fid t success) (fill (Header.prepare_header b fid t success))
    → HasLayout false t (fill (Header.prepare_header b fid t success))
    → 12 + payload_bytes false t (fill (Header.prepare_header b fid t success)) < 2 ^ 16
    → (m : Buffer) × (finalize (fill (Header.prepare_header b fid t success)) ≡ some m)
      × (Exchange.check_header m check_id fid t ≡ some success)
      × ((i : ℕ)
          → (i < 2)
            ⊎ ((8 + payload_bytes false t (fill (Header.prepare_header b fid t success)) ≤ i)
                ⊎ (m i ≡ fill (Header.prepare_header b fid t success) i)))
response-check_header b check_id fid t fill h keeps layout size =
    let prepared = Header.prepare_header b fid t success in
    let (m, e, valid, header, same) =
      sealed-IsHeader false fid t prepared (fill prepared) (response-IsHeader b fid t h) keeps
        layout size in
    (m, e, valid-check_header m check_id fid t valid header, same)

-- What a fragment answers, from its check of the request and the response that it seals.
abbrev reply_to : Option ErrorCode → Option Buffer → Buffer → ErrorCode × Buffer
reply_to (some success) (some response) m = (success, response)
reply_to _ _ m = (ctrl_connection_broken, m)

-- A fragment on working sockets: it checks the request and seals its response, or its process ends
-- and the connection breaks. `b` is its message buffer, and `reply` fills the payload.
unfoldable pub fragment_peer : ℕ → MessageType → Buffer → (Buffer → Buffer) → Exchange.Peer
fragment_peer fid t b reply = record {
  accepts = λ m. success;
  answers = λ m.
      reply_to (Header.check_header fid true true m t)
        (finalize (reply (Header.prepare_header b fid t success))) m;
}

fragment_peer-answers :
    (fid : ℕ) (t : MessageType) (b : Buffer) (reply : Buffer → Buffer) (m c : Buffer)
    → Header.check_header fid true true m t ≡ some success
    → finalize (reply (Header.prepare_header b fid t success)) ≡ some c
    → (fragment_peer fid t b reply).answers m ≡ (success, c)
unfolding fragment_peer
fragment_peer-answers fid t b reply m c checked sealed = rw (checked, sealed) refl

answered-success :
    (peer : Exchange.Peer) (b : Buffer) (fid : ℕ) (t : MessageType) (fill : Buffer → Buffer)
    (m c : Buffer)
    → Exchange.request b fid t fill ≡ some m
    → peer.accepts m ≡ success
    → peer.answers m ≡ (success, c)
    → Exchange.check_header c true fid t ≡ some success
    → Exchange.fragment_request_response peer b fid t fill ≡ some success
unfolding Exchange.fragment_request_response
answered-success peer b fid t fill m c sent accepted answered checked =
    rw (sent, ◌>>=◌) (rw (accepted, answered, checked) refl)

-- A request to a fragment that answers it succeeds. The fragment's number fits 16 bits, the payloads of
-- the request and of the response leave the headers alone, the type has both payloads, and the lengths
-- of both messages fit 16 bits.
pub fragment_request_response-success :
    (b b' : Buffer) (fid : ℕ) (t : MessageType) (fill reply : Buffer → Buffer)
    → fid < 2 ^ 16
    → Keeps (Exchange.prepare_header b fid t) (fill (Exchange.prepare_header b fid t))
    → HasLayout true t (fill (Exchange.prepare_header b fid t))
    → 12 + payload_bytes true t (fill (Exchange.prepare_header b fid t)) < 2 ^ 16
    → Keeps
        (Header.prepare_header b' fid t success)
        (reply (Header.prepare_header b' fid t success))
    → HasLayout false t (reply (Header.prepare_header b' fid t success))
    → 12 + payload_bytes false t (reply (Header.prepare_header b' fid t success)) < 2 ^ 16
    → Exchange.fragment_request_response (fragment_peer fid t b' reply) b fid t fill ≡ some success
fragment_request_response-success b b' fid t fill reply h keeps layout size keeps' layout' size' =
    let (m, sent, accepted, _) = request-check_header b fid t fill h keeps layout size in
    let (m', sealed, checked, _) =
      response-check_header b' true fid t reply h keeps' layout' size' in
    answered-success (fragment_peer fid t b' reply) b fid t fill m m' sent
      (unfold fragment_peer in refl) (fragment_peer-answers fid t b' reply m m' accepted sealed)
      checked
