-- ===== src/Framework/Orchestrator/Responses/Answers.antt =====
-- framework/orchestrator.cpp: what one answer changes, for the lambdas that the orchestrator passes.
use fall23_p.Prelude.{
  ℕ, ◌≡◌, ◌≢◌, ◌⊎◌, inl, inr, Bool, Option, some, ◌>>=◌, refl, Bool-cases, ap, false, arith,
}
use fall23_p.Framework.ErrorCode.{
  ErrorCode, success, is_success, fails-not_success, is_success-success,
}
use fall23_p.Framework.Buffer.{Buffer}
use fall23_p.Framework.Message.{MessageType}
use fall23_p.Framework.Orchestrator.Exchange.{check_header}
use fall23_p.Framework.Orchestrator.Responses.{answer}

-- A receive that fails, or a message whose header can be checked without a failed assertion.
abbrev pub IsReadable : Bool → MessageType → ℕ → ErrorCode × Buffer → Type 0
IsReadable check_ids type i (code, m) =
    (is_success code ≡ false)
    ⊎ ((header : ErrorCode) × (check_header m check_ids i type ≡ some header))

module _ {S : Type 0} (check_ids : Bool) (type : MessageType)
    (lambda : ℕ → Buffer → S → Option (ErrorCode × S)) (i : ℕ) (m : Buffer) (s : S) where
  answer-unreceived :
      (code : ErrorCode)
      → is_success code ≡ false
      → answer check_ids type lambda i (code, m) s ≡ some (code, s)
  unfolding answer
  answer-unreceived code bad = rw bad refl

  answer-refused :
      (header : ErrorCode)
      → check_header m check_ids i type ≡ some header
      → is_success header ≡ false
      → answer check_ids type lambda i (success, m) s ≡ some (header, s)
  unfolding answer
  answer-refused header checked bad = rw (checked, ◌>>=◌) (rw bad refl)

  answer-accepted :
      check_header m check_ids i type ≡ some success
      → answer check_ids type lambda i (success, m) s ≡ lambda i m s
  unfolding answer
  answer-accepted checked = rw (checked, ◌>>=◌) refl

  -- What holds after a bad answer that leaves the state, and after what the lambda makes of a good
  -- one, holds after an answer.
  pub answer-keeps :
      (code : ErrorCode) (Q : ErrorCode → S → Type 0)
      → IsReadable check_ids type i (code, m)
      → ((c : ErrorCode) → c ≢ success → Q c s)
      → (code ≡ success
          → check_header m check_ids i type ≡ some success
          → (c : ErrorCode) × (s' : S) × (lambda i m s ≡ some (c, s')) × Q c s')
      → (c : ErrorCode) × (s' : S) × (answer check_ids type lambda i (code, m) s ≡ some (c, s'))
        × Q c s'
  answer-keeps code Q readable bad good = elim (Bool-cases (is_success code)) [
    | inr fails ↦ (code, s, answer-unreceived code fails, bad code (fails-not_success fails))
    | inl received ↦
        let e : code ≡ success = is_success-success code received in
        elim readable [
          | inl fails ↦ absurd (ground (arith, received, fails))
          | inr (header, checked) ↦ elim (Bool-cases (is_success header)) [
            | inr refused ↦ (
              header,
              s,
              rw e (answer-refused header checked refused),
              bad header (fails-not_success refused),
            )
            | inl accepted ↦
                let passes : check_header m check_ids i type ≡ some success =
                  rw checked (ap some (is_success-success header accepted)) in
                let (c, s', made, holds) = good e passes in
                (c, s', rw e (rw (answer-accepted passes) made), holds)
          ]
        ]
  ]
