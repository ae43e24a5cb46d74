-- ===== src/Framework/Fragment/Header.antt =====
-- framework/fragment.cpp: the header checks and the request and response of a fragment, on either
-- plane. What the socket does is an argument; a failed assertion is the result `none`.
use fall23_p.Prelude.{
  ℕ, ◌≡◌, refl, ◌⊎◌, inl, inr, Bool, true, false, not, ◌&&◌, Option, none, some, ◌==◌,
  if◌then◌else◌, ◌>>=◌, arith, ◌↔◌, Option-cases,
}
use fall23_p.Framework.ErrorCode.{
  ErrorCode, success, malformed_message, bad_message_code, bad_fragment_id, fragment_exception,
  is_success,
}
use fall23_p.Framework.Buffer.{Buffer}
use fall23_p.Framework.Message.{
  compute_total_length, MessageType, MessageType-discrete, validate, is_request, get_type,
  get_fragment_id, get_error_code, set_code, set_fragment_id, set_error_code, finalize,
}

-- Responses go from the fragment to the orchestrator.
unfoldable pub prepare_header : Buffer → ℕ → MessageType → ErrorCode → Buffer
prepare_header b fid type e = set_fragment_id (set_code (set_error_code b e) false type) fid

abbrev pub same_type : MessageType → MessageType → Bool
same_type s t = elim (MessageType-discrete s t) [ yes _ ↦ true | no _ ↦ false ]

-- The assertions in the accessors stand where the code calls them.
unfoldable pub check_header : ℕ → Bool → Bool → Buffer → MessageType → Option ErrorCode
check_header fid check_id check_type m type = do
  valid ← validate m
  if not valid
      then some malformed_message
      else if not (is_request m)
      then some bad_message_code
      else if check_id && not (get_fragment_id m == fid)
      then some bad_fragment_id
      else (get_type m >>= λ t.
          if check_type && not (same_type t type)
          then some bad_message_code
          else (get_error_code m >>= λ e.
              some (if is_success e then success else fragment_exception)))

-- DIE_ON_ERROR: the first error ends the function.
abbrev pub die_on_error : Option ErrorCode → Option ErrorCode → Option ErrorCode
die_on_error m k = m >>= λ e. if is_success e then k else some e

-- `received` is the answer of _recv_blocking and the buffer after it; `apply` the lambda.
unfoldable pub recv_request :
    ℕ
    → Bool
    → Bool
    → MessageType
    → ErrorCode × Buffer
    → (Buffer → Option ErrorCode)
    → Option ErrorCode
recv_request fid check_id check_type type received apply =
    die_on_error (some received.0)
      (die_on_error (check_header fid check_id check_type received.1 type) (apply received.1))

-- `fill` is the lambda that writes the payload, and `send` the answer of _send_blocking.
unfoldable pub send_response :
    ℕ
    → MessageType
    → ErrorCode
    → Buffer
    → (Buffer → ErrorCode × Buffer)
    → (Buffer → ErrorCode)
    → Option ErrorCode
send_response fid type e m fill send =
    let filled = fill (prepare_header m fid type e) in
    die_on_error (some filled.0) (finalize filled.1 >>= λ sealed. some (send sealed))

pub same_type_iff : (s t : MessageType) → (same_type s t ≡ true) ↔ (s ≡ t)
same_type_iff s t =
    elim (MessageType-discrete s t)
      as (λ d. ((elim d [ yes _ ↦ true | no _ ↦ false ]) ≡ true) ↔ (s ≡ t)) [
        | yes e ↦ ((λ _. e), (λ _. refl))
        | no ne ↦ ((λ h. cc), (λ e. absurd (ne e)))
      ]

validate-untyped : (m : Buffer) → get_type m ≡ none → validate m ≡ none
unfolding validate compute_total_length
validate-untyped m e = rw e

-- The check passes exactly for a valid request of the fragment and the type that are asked for, with
-- no error reported.
pub check_header-success :
    (fid : ℕ) (check_id check_type : Bool) (m : Buffer) (type : MessageType)
    → (check_header fid check_id check_type m type ≡ some success) ↔ (
        (validate m ≡ some true)
        × (is_request m ≡ true)
        × ((check_id ≡ false) ⊎ (get_fragment_id m ≡ fid))
        × ((t : MessageType) × (get_type m ≡ some t) × ((check_type ≡ false) ⊎ (t ≡ type)))
        × (get_error_code m ≡ some success))
unfolding check_header
check_header-success fid check_id check_type m type = elim (Option-cases (get_type m)) [
  | inl untyped ↦ (
    (λ h. absurd (ground (arith, validate-untyped m untyped))),
    (λ h. ground (arith, validate-untyped m untyped)),
  )
  | inr (t, typed) ↦ (
    (λ h. (
      ground arith,
      ground arith,
      ground arith,
      (t, typed, ground (arith, same_type_iff t type)),
      ground arith,
    )),
    (λ h. ground (arith, same_type_iff t type)),
  )
]
