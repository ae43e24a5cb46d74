-- ===== src/Framework/Orchestrator/Broadcast.antt =====
-- framework/orchestrator.cpp: a request to every fragment. What the sockets answer, and how much of
-- the time is left after each, are arguments; a failed assertion is the result `none`.
use fall23_p.Prelude.{
  ℕ, ◌>>=◌, zero, suc, ◌+◌, ◌%◌, ◌^◌, ◌<◌, ◌≡◌, ◌↔◌, ◌==◌, ◌&&◌, not, List, [], ◌∷◌, Option, some,
  if◌then◌else◌, All, ◌⊎◌, ◌≤◌, length, true, Bool-cases, inl, inr, arith, refl, false, ap,
}
use fall23_p.Framework.ErrorCode.{
  ErrorCode, success, send_reqs_timeout, is_success, is_success-success, fails-not_success,
}
use fall23_p.Framework.Buffer.{Buffer}
use fall23_p.Framework.Message.{MessageType, set_fragment_id, finalize}
use fall23_p.Framework.Message.Length.{HasLayout, payload_bytes}
use fall23_p.Framework.Fragment.Header
use fall23_p.Framework.Fragment.Header.{check_header-success}
use fall23_p.Framework.Orchestrator.Machine.{first_error}
use fall23_p.Framework.Orchestrator.Exchange.{prepare_header}
use fall23_p.Framework.Orchestrator.Headers.{
  IsHeader, Keeps, request-IsHeader, sealed-IsHeader, set_fragment_id-IsHeader,
}

-- The loop, from fragment `idx` with `k` fragments left: the messages sent, the first error, and the
-- fragments that are still pending when the time is over.
pub send_from :
    (ℕ → Buffer → Buffer)
    → (ℕ → Buffer → ErrorCode)
    → (ℕ → ℕ)
    → ℕ
    → ℕ
    → ℕ
    → ErrorCode
    → Buffer
    → Option (List (ℕ × Buffer) × ErrorCode × ℕ)
send_from fill sends timers idx zero timer code b = some ([], code, 0)
send_from fill sends timers idx (suc k) timer code b =
    if timer == 0
    then some ([], code, suc k)
    else (finalize (fill idx (set_fragment_id b idx)) >>= λ m.
        send_from fill sends timers (idx + 1) k (timers idx) (first_error code (sends idx m)) m
        >>= λ (out, code', pending). some ((idx, m) ∷ out, code', pending))

-- `n` is the number of fragments; their count of pending requests is a uint16_t.
pub foreach_fragment_send_generic :
    (ℕ → Buffer → Buffer)
    → (ℕ → Buffer → ErrorCode)
    → (ℕ → ℕ)
    → ℕ
    → MessageType
    → ℕ
    → Buffer
    → Option (List (ℕ × Buffer) × ErrorCode)
foreach_fragment_send_generic fill sends timers n type timeout b =
    send_from fill sends timers 0 n timeout success (prepare_header b 0 type)
    >>= λ (out, code, pending).
        some
          (out, if is_success code && not (pending % 2 ^ 16 == 0) then send_reqs_timeout else code)

pub first_error-success :
    (a b : ErrorCode) → (first_error a b ≡ success) ↔ ((a ≡ success) × (b ≡ success))
first_error-success a b = elim (Bool-cases (is_success a)) [
  | inl ok ↦ rw ok ((λ e. (is_success-success a ok, e)), (λ e. e.1))
  | inr fails ↦ rw fails ((λ e. absurd (fails-not_success fails e)), (λ e. e.0))
]

-- No fragment is pending after a success.
settled :
    (code : ErrorCode) (pending sent n : ℕ)
    → sent + pending ≡ n
    → n < 2 ^ 16
    → (is_success code && not (pending % 2 ^ 16 == 0)) ≡ false
    → code ≡ success
    → sent ≡ n
settled code pending sent n count range other e =
    let none_left : (not (pending % 2 ^ 16 == 0)) ≡ false = rw e at other in ground arith

-- What fills the payload: it leaves the header alone and fits the type of the message.
abbrev pub Fills : MessageType → (ℕ → Buffer → Buffer) → Type 0
Fills t fill =
    (i : ℕ) (b : Buffer)
    → Keeps b (fill i b)
      × HasLayout true t (fill i b)
      × (12 + payload_bytes true t (fill i b) < 2 ^ 16)

-- A message with the header and the payload of a filled buffer, up to the length that is sealed in.
abbrev pub Carries : MessageType → Buffer → Buffer → Type 0
Carries t filled m = (j : ℕ) → (j < 2) ⊎ ((8 + payload_bytes true t filled ≤ j) ⊎ (m j ≡ filled j))

-- A message that the fragment it goes to accepts, with the payload that is filled in for it; and one
-- that its socket takes.
abbrev pub IsAccepted : MessageType → (ℕ → Buffer → Buffer) → ℕ × Buffer → Type 0
IsAccepted t fill (i, m) =
    (Header.check_header i true true m t ≡ some success)
    × ((b : Buffer) × HasLayout true t (fill i b) × Carries t (fill i b) m)

-- The number of the fragment that a message goes to.
abbrev pub IsBelow : ℕ → ℕ × Buffer → Type 0
IsBelow n (i, m) = i < n

-- The fragments that messages were sent to, in order.
unfoldable pub recipients : List (ℕ × Buffer) → List ℕ
recipients [] = []
recipients ((i, m) ∷ out) = i ∷ recipients out

-- `k` numbers in a row, from `idx`.
unfoldable pub numbers_from : ℕ → ℕ → List ℕ
numbers_from idx zero = []
numbers_from idx (suc k) = idx ∷ numbers_from (idx + 1) k

abbrev pub IsDone : (ℕ → Buffer → ErrorCode) → ℕ × Buffer → Type 0
IsDone sends (i, m) = sends i m ≡ success

module _ (t : MessageType) (fill : ℕ → Buffer → Buffer) (fills : Fills t fill)
    (sends : ℕ → Buffer → ErrorCode) (timers : ℕ → ℕ) where
  send_from-out :
      (last k idx timer : ℕ) (code : ErrorCode) (fid : ℕ) (b : Buffer)
      → IsHeader true fid t b
      → idx + k ≡ last
      → last < 2 ^ 16
      → (out : List (ℕ × Buffer)) × (code' : ErrorCode) × (pending : ℕ) × (send_from fill sends
            timers idx k timer code b
          ≡ some (out, code', pending))
        × (length out + pending ≡ k)
        × All (IsAccepted t fill) out
        × All (IsBelow last) out
        × (recipients out ≡ numbers_from idx (length out))
        × ((code' ≡ success) ↔ ((code ≡ success) × All (IsDone sends) out))
  unfolding send_from recipients numbers_from
  send_from-out last zero idx timer code fid b h range small =
      ([], code, 0, refl, refl, tt, tt, refl, ((λ e. (e, tt)), (λ e. e.0)))
  send_from-out last (suc k) idx timer code fid b h range small = elim (Bool-cases (timer == 0)) [
    | inl late ↦
        ([], code, suc k, rw late refl, omega arith, tt, tt, refl, ((λ e. (e, tt)), (λ e. e.0)))
    | inr early ↦
        let (keeps, layout, size) = fills idx (set_fragment_id b idx) in
        let (m, sealed, valid, header, same) =
          sealed-IsHeader true idx t (set_fragment_id b idx) (fill idx (set_fragment_id b idx))
            (set_fragment_id-IsHeader true fid idx t b (omega arith) h) keeps layout size in
        let (out, code', pending, e, count, accepted, below, order, done) =
          send_from-out last k (idx + 1) (timers idx) (first_error code (sends idx m)) idx m header
            (omega arith) small in
        (
          (idx, m) ∷ out,
          code',
          pending,
          rw (early, sealed, e) refl,
          omega arith,
          (
            (
              (check_header-success idx true true m t).1 (
                valid,
                header.direction,
                inr header.fragment,
                (t, header.type, inr refl),
                header.no_error,
              ),
              (set_fragment_id b idx, layout, same),
            ),
            accepted,
          ),
          (omega arith, below),
          ap (◌∷◌ idx) order,
          (
            (λ e.
                let (first, rest) = done.0 e in
                let (before, now) = (first_error-success code (sends idx m)).0 first in
                (before, (now, rest))),
            (λ e. done.1 ((first_error-success code (sends idx m)).1 (e.0, e.1.0), e.1.1)),
          ),
        )
  ]

  -- A request to `n` fragments always ends with an error code. The messages sent go to the fragments 0,
  -- 1, 2 and so on, one to each. Every one passes the header check of the fragment that it goes to and
  -- carries the payload that is filled in for that fragment. The code is success exactly if there are
  -- `n` messages, so that one went to each fragment before the time was over, and every socket took its
  -- message. The payload leaves the header alone and fits the type, and there are fewer than 65536
  -- fragments.
  pub foreach_fragment_send_generic-success :
      (n timeout : ℕ) (b : Buffer)
      → n < 2 ^ 16
      → (out : List (ℕ × Buffer)) × (code : ErrorCode) × (foreach_fragment_send_generic fill sends
            timers n t timeout b
          ≡ some (out, code))
        × All (IsAccepted t fill) out
        × All (IsBelow n) out
        × (recipients out ≡ numbers_from 0 (length out))
        × ((code ≡ success) ↔ ((length out ≡ n) × All (IsDone sends) out))
  unfolding foreach_fragment_send_generic
  foreach_fragment_send_generic-success n timeout b range =
      let (out, code, pending, e, count, accepted, below, order, done) =
        send_from-out n n 0 timeout success 0 (prepare_header b 0 t)
          (request-IsHeader b 0 t (omega arith)) (omega arith) range in
      elim (Bool-cases (is_success code && not (pending % 2 ^ 16 == 0))) [
        | inl late ↦ (
          out,
          send_reqs_timeout,
          rw e (rw late refl),
          accepted,
          below,
          order,
          ((λ x. absurd (cc)), (λ x. absurd (ground (arith, late)))),
        )
        | inr other ↦ (
          out,
          code,
          rw e (rw other refl),
          accepted,
          below,
          order,
          (
            (λ x. (settled code pending (length out) n count range other x, (done.0 x).1)),
            (λ x. done.1 (refl, x.1)),
          ),
        )
      ]
