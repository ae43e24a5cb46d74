-- ===== src/Framework/Fragment/Testcase/Responses.antt =====
-- framework/fragment.cpp and framework/orchestrator.cpp: a response that reports the error of a task.
use fall23_p.Prelude.{
  ◌+◌, ◌≤◌, ◌^◌, ◌<◌, ◌≡◌, ◌∙◌, if◌then◌else◌, true, false, some, refl, arith, ℕ,
}
use fall23_p.Framework.ErrorCode.{
  ErrorCode, success, is_success, fragment_exception, error_number, error_of_number,
}
use fall23_p.Framework.Buffer.{
  read16-agree, Buffer, read16, write16, read16-write16, read16-write16_apart,
}
use fall23_p.Framework.Message.{
  MessageType, finalize, validate, get_type, is_request, get_fragment_id, get_error_code, set_code,
  set_fragment_id, set_error_code, code_create,
}
use fall23_p.Framework.Message.Codes.{code_create-parts}
use fall23_p.Framework.Message.Length.{HasLayout, payload_bytes, finalize-validate}
use fall23_p.Framework.Orchestrator.Exchange
use fall23_p.Framework.Fragment.Header.{prepare_header, same_type_iff}

error_number-error :
    (e : ErrorCode) → (error_number e < 2 ^ 16) × (error_of_number (error_number e) ≡ some e)
unfolding error_of_number
error_number-error success = (omega arith, refl)
error_number-error _ = (omega arith, refl)

-- The header of a response that reports `e`.
module _ (b : Buffer) (fid : ℕ) (t : MessageType) (e : ErrorCode) where
  reported-code : read16 (prepare_header b fid t e) 2 ≡ code_create false t
  unfolding prepare_header set_code set_fragment_id set_error_code
  reported-code =
      let coded = write16 (write16 b 6 (error_number e)) 2 (code_create false t) in
      read16-write16_apart coded 4 2 fid (omega arith)
      ∙ read16-write16 (write16 b 6 (error_number e)) 2 (code_create false t)
          (code_create-parts false t).0

  reported-fragment : fid < 2 ^ 16 → read16 (prepare_header b fid t e) 4 ≡ fid
  unfolding prepare_header set_code set_fragment_id set_error_code
  reported-fragment range =
      read16-write16 (write16 (write16 b 6 (error_number e)) 2 (code_create false t)) 4 fid range

  reported-error : read16 (prepare_header b fid t e) 6 ≡ error_number e
  unfolding prepare_header set_code set_fragment_id set_error_code
  reported-error =
      let coded = write16 (write16 b 6 (error_number e)) 2 (code_create false t) in
      read16-write16_apart coded 4 6 fid (omega arith)
      ∙ (read16-write16_apart (write16 b 6 (error_number e)) 2 6 (code_create false t) (omega arith)
          ∙ read16-write16 b 6 (error_number e) (error_number-error e).0)

  reported-direction : is_request (prepare_header b fid t e) ≡ false
  unfolding is_request
  reported-direction = rw reported-code (code_create-parts false t).1

  reported-type : get_type (prepare_header b fid t e) ≡ some t
  unfolding get_type
  reported-type = rw reported-code (code_create-parts false t).2

header-check :
    (m : Buffer) (fid : ℕ) (t : MessageType) (e : ErrorCode)
    → validate m ≡ some true
    → is_request m ≡ false
    → get_type m ≡ some t
    → get_fragment_id m ≡ fid
    → get_error_code m ≡ some e
    → Exchange.check_header m true fid t
      ≡ some (if is_success e then success else fragment_exception)
unfolding Exchange.check_header
header-check m fid t e valid direction type fragment error = ground (arith, same_type_iff t t)

-- The header of a message with the same bytes 2 to 7.
same_header :
    (p m : Buffer) (fid : ℕ) (t : MessageType) (e : ErrorCode)
    → ((i : ℕ) → 2 ≤ i → i < 8 → m i ≡ p i)
    → validate m ≡ some true
    → is_request p ≡ false
    → get_type p ≡ some t
    → get_fragment_id p ≡ fid
    → get_error_code p ≡ some e
    → Exchange.check_header m true fid t
      ≡ some (if is_success e then success else fragment_exception)
unfolding is_request get_type get_fragment_id get_error_code
same_header p m fid t e same valid direction type fragment error =
    let at = λ (o : ℕ) (low : 2 ≤ o) (high : o < 7).
      read16-agree p m o (same o low (omega arith)) (same (o + 1) (omega arith) (omega arith)) in
    header-check m fid t e valid (rw (at 2 (omega arith) (omega arith)) direction)
      (rw (at 2 (omega arith) (omega arith)) type) (rw (at 4 (omega arith) (omega arith)) fragment)
      (rw (at 6 (omega arith) (omega arith)) error)

-- A response without a payload that reports `e`: the orchestrator takes any error as an exception.
pub response-reports :
    (b : Buffer) (fid : ℕ) (t : MessageType) (e : ErrorCode)
    → fid < 2 ^ 16
    → HasLayout false t (prepare_header b fid t e)
    → payload_bytes false t (prepare_header b fid t e) ≡ 0
    → (m : Buffer) × (finalize (prepare_header b fid t e) ≡ some m)
      × (Exchange.check_header m true fid t
          ≡ some (if is_success e then success else fragment_exception))
response-reports b fid t e range layout bare =
    let p = prepare_header b fid t e in
    let (m, sealed, valid, _, same) =
      finalize-validate p false t (reported-direction b fid t e) (reported-type b fid t e) layout
        (omega arith) in
    (
      m,
      sealed,
      same_header p m fid t e (λ i low high. ground (arith, same i)) valid
          (reported-direction b fid t e) (reported-type b fid t e)
          (unfold get_fragment_id in reported-fragment b fid t e range)
          (unfold get_error_code in rw (reported-error b fid t e) (error_number-error e).1),
    )
