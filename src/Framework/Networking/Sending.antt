-- ===== src/Framework/Networking/Sending.antt =====
-- framework/networking.cpp, send_generic: what has been sent when the loop ends.
use mathlib.Core.Path.{subst}
use fall23_p.Framework.ErrorCode.{fails-not_success, ErrorCode, success, is_success}
use mathlib.Core.List.{append-nil, append_assoc}
use fall23_p.Prelude.{
  if◌then◌else◌, All, ◌&&◌, leb, ℕ, ◌≡◌, ◌≢◌, ◌≤◌, true, false, Bool, List, [], ◌∷◌, ◌++◌, Option,
  some, take, drop, length, Bool-cases, inl, inr, arith, suc, none, ap, zero, refl, sym, ltb, ◌||◌,
  ◌∙◌,
}
use fall23_p.Framework.Networking.{
  blocks-exclusive, Config, block, use_timeout, validate, leading_length,
}
use fall23_p.Framework.Networking.Send.{SendAnswer, took, again, failure, send_loop, send_generic}

take-drop : (k : ℕ) (bytes : List ℕ) → take k bytes ++ drop k bytes ≡ bytes
take-drop zero bytes = refl
take-drop (suc k) [] = refl
take-drop (suc k) (b ∷ bytes) = ap (◌∷◌ b) (take-drop k bytes)

length-drop_le : (k : ℕ) (bytes : List ℕ) → length (drop k bytes) ≤ length bytes
length-drop_le zero bytes = omega arith
length-drop_le (suc k) [] = omega arith
length-drop_le (suc k) (b ∷ bytes) = omega (arith, length-drop_le k bytes)

length-drop_some :
    (k : ℕ) (b : ℕ) (bytes : List ℕ) → 1 ≤ k → length (drop k (b ∷ bytes)) ≤ length bytes
length-drop_some zero b bytes h = absurd (omega arith)
length-drop_some (suc k) b bytes h = length-drop_le k bytes

-- What the socket has taken when the loop ends.
pub data Transmits (message sent : List ℕ) : ErrorCode → Type 0 where
  whole : sent ≡ message → Transmits message sent success
  in_part :
      {code : ErrorCode} (rest : List ℕ)
      → code ≢ success
      → sent ++ rest ≡ message
      → Transmits message sent code

abbrev EndsTransmits : List ℕ → Option (ErrorCode × List ℕ) → Type 0
EndsTransmits message none = Unit
EndsTransmits message (some (code, sent)) = Transmits message sent code

module _ (c : Config) (e : ErrorCode) (not_ok : e ≢ success) (message : List ℕ) where
  loop-Transmits :
      (sent rest : List ℕ) (delta : ℕ) (steps : List (SendAnswer × ℕ))
      → sent ++ rest ≡ message
      → EndsTransmits message (send_loop c e sent rest delta steps)
  unfolding send_loop
  loop-Transmits sent [] delta [] h = whole (sym (append-nil sent) ∙ h)
  loop-Transmits sent (b ∷ rest) delta [] h =
      elim (Bool-cases (use_timeout c && leb c.timeout_ms delta)) [
        | inl late ↦ rw late (in_part (b ∷ rest) (λ p. cc) h)
        | inr early ↦ rw early tt
      ]
  loop-Transmits sent [] delta ((answer, now) ∷ steps) h = whole (sym (append-nil sent) ∙ h)
  loop-Transmits sent (b ∷ rest) delta ((again, now) ∷ steps) h =
      elim (Bool-cases (use_timeout c && leb c.timeout_ms delta)) [
        | inl late ↦ rw late (in_part (b ∷ rest) (λ p. cc) h)
        | inr early ↦
            rw early (loop-Transmits sent (b ∷ rest) (if use_timeout c then now else delta) steps h)
      ]
  loop-Transmits sent (b ∷ rest) delta ((took k, now) ∷ steps) h =
      elim (Bool-cases (use_timeout c && leb c.timeout_ms delta)) [
        | inl late ↦ rw late (in_part (b ∷ rest) (λ p. cc) h)
        | inr early ↦ rw early (
            loop-Transmits (sent ++ take k (b ∷ rest)) (drop k (b ∷ rest))
              (if use_timeout c then now else delta) steps
              (append_assoc sent (take k (b ∷ rest)) (drop k (b ∷ rest))
                ∙ (ap (λ bytes. sent ++ bytes) (take-drop k (b ∷ rest)) ∙ h)))
      ]
  loop-Transmits sent (b ∷ rest) delta ((answer, now) ∷ steps) h =
      elim (Bool-cases (use_timeout c && leb c.timeout_ms delta)) [
        | inl late ↦ rw late (in_part (b ∷ rest) (λ p. cc) h)
        | inr early ↦ rw early (in_part (b ∷ rest) not_ok h)
      ]

-- What send_generic is given to send.
abbrev pub message_of : List ℕ → List ℕ
message_of buffer = take (leading_length buffer) buffer

EndsTransmits-some :
    (message : List ℕ) {o : Option (ErrorCode × List ℕ)} {code : ErrorCode} {sent : List ℕ}
    → o ≡ some (code, sent)
    → EndsTransmits message o
    → Transmits message sent code
EndsTransmits-some message ends t = subst (EndsTransmits message) ends t

-- Where send_generic returns, in any mode, whatever send answers, the bytes that the socket took are
-- the message in order: the whole message on success, a proper or improper prefix of it after an
-- error. The connection's error code is not success.
pub send_generic-Transmits :
    (c : Config) (nonblocking : Option Bool) (e : ErrorCode) (min_len max_len : ℕ) (buffer : List ℕ)
    (steps : List (SendAnswer × ℕ)) (code : ErrorCode) (sent : List ℕ)
    → e ≢ success
    → send_generic c nonblocking e min_len max_len buffer steps ≡ some (code, sent)
    → Transmits (message_of buffer) sent code
unfolding send_generic
send_generic-Transmits c nonblocking e min_len max_len buffer steps code sent not_ok ends =
    EndsTransmits-some (message_of buffer) ends
      (elim (Bool-cases (is_success (validate nonblocking c true))) [
        | inl ok ↦
            elim (Bool-cases
              (ltb (leading_length buffer) min_len || ltb max_len (leading_length buffer))) [
                | inl bad ↦ rw (ok, bad) (in_part (message_of buffer) (λ p. cc) refl)
                | inr good ↦
                    rw (ok, good)
                      (loop-Transmits c e not_ok (message_of buffer) [] (message_of buffer) 0 steps
                        refl)
              ]
        | inr fails ↦ rw fails (in_part (message_of buffer) (fails-not_success fails) refl)
      ])

-- The answers of a peer that takes something each time.
abbrev pub TakesSome : SendAnswer × ℕ → Type 0
TakesSome (took k, now) = 1 ≤ k
TakesSome (again, now) = ⊥
TakesSome (failure, now) = ⊥

loop-sends :
    (c : Config) (e : ErrorCode) (sent rest : List ℕ) (delta : ℕ) (steps : List (SendAnswer × ℕ))
    → use_timeout c ≡ false
    → All TakesSome steps
    → length rest ≤ length steps
    → send_loop c e sent rest delta steps ≡ some (success, sent ++ rest)
unfolding send_loop
loop-sends c e sent [] delta [] untimed takes enough =
    ap some (ap (λ bytes. (success, bytes)) (sym (append-nil sent)))
loop-sends c e sent [] delta (x ∷ steps) untimed takes enough =
    ap some (ap (λ bytes. (success, bytes)) (sym (append-nil sent)))
loop-sends c e sent (b ∷ rest) delta [] untimed takes enough = absurd (omega arith)
loop-sends c e sent (b ∷ rest) delta ((took k, now) ∷ steps) untimed takes enough =
    let fewer : length (drop k (b ∷ rest)) ≤ length steps =
      omega (arith, length-drop_some k b rest takes.0) in
    rw untimed (
      loop-sends c e (sent ++ take k (b ∷ rest)) (drop k (b ∷ rest)) delta steps untimed takes.1
        fewer
      ∙ ap some (
          ap (λ bytes. (success, bytes))
            (append_assoc sent (take k (b ∷ rest)) (drop k (b ∷ rest))
              ∙ (ap (λ bytes. sent ++ bytes) (take-drop k (b ∷ rest))))))
loop-sends c e sent (b ∷ rest) delta ((again, now) ∷ steps) untimed takes enough = absurd takes.0
loop-sends c e sent (b ∷ rest) delta ((failure, now) ∷ steps) untimed takes enough = absurd takes.0

-- In the blocking mode a message within the limits is sent whole and send_generic succeeds, where
-- the peer takes at least one byte each time and is asked as often as the message has bytes.
pub send_generic-sends :
    (c : Config) (b : Bool) (e : ErrorCode) (min_len max_len : ℕ) (buffer : List ℕ)
    (steps : List (SendAnswer × ℕ))
    → block c ≡ true
    → min_len ≤ leading_length buffer
    → leading_length buffer ≤ max_len
    → All TakesSome steps
    → length (message_of buffer) ≤ length steps
    → send_generic c (some b) e min_len max_len buffer steps ≡ some (success, message_of buffer)
unfolding send_generic validate
send_generic-sends c b e min_len max_len buffer steps blocks low high takes enough =
    let (untimed, other) = blocks-exclusive c blocks in
    let valid : validate (some b) c true ≡ success = ground arith in
    let within : (ltb (leading_length buffer) min_len || ltb max_len (leading_length buffer))
        ≡ false =
      ground arith in
    rw (valid, within) (loop-sends c e [] (message_of buffer) 0 steps untimed takes enough)
