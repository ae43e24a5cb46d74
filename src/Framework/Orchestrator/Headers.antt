-- ===== src/Framework/Orchestrator/Headers.antt =====
-- framework/message.h: the header that each side prepares, and what sealing a message leaves of it.
use fall23_p.Prelude.{
  ◌∙◌, refl, inr, ℕ, ◌≤◌, ◌<◌, ◌≡◌, ◌+◌, ◌^◌, true, false, some, Bool, arith, ◌⊎◌,
}
use fall23_p.Framework.ErrorCode.{success, error_of_number}
use fall23_p.Framework.Buffer.{Buffer, read16, write16, read16-write16, read16-write16_apart}
use fall23_p.Framework.Message.{
  MessageType, validate, is_request, get_type, get_fragment_id, get_error_code, set_code,
  set_fragment_id, set_error_code, code_create, finalize,
}
use fall23_p.Framework.Message.Codes.{code_create-parts}
use fall23_p.Framework.Message.Length.{HasLayout, payload_bytes, finalize-validate}
use fall23_p.Framework.Fragment.Header
use fall23_p.Framework.Fragment.Header.{check_header-success, same_type_iff}
use fall23_p.Framework.Orchestrator.Exchange

-- The fields of the header of a message that is `fid`'s, of the type `t`, and reports no error.
pub record IsHeader (r : Bool) (fid : ℕ) (t : MessageType) (b : Buffer) : Type 0 where
  pub direction : is_request b ≡ r
  pub type : get_type b ≡ some t
  pub fragment : get_fragment_id b ≡ fid
  pub no_error : get_error_code b ≡ some success

-- The header is in bytes 2 to 7.
pub IsHeader-agree :
    (r : Bool) (fid : ℕ) (t : MessageType) (b c : Buffer)
    → ((i : ℕ) → (i < 2) ⊎ ((8 ≤ i) ⊎ (c i ≡ b i)))
    → IsHeader r fid t b
    → IsHeader r fid t c
unfolding is_request get_type get_fragment_id get_error_code read16
IsHeader-agree r fid t b c same h = record {
  direction = ground (arith, same 2, same 3, h.direction);
  type = ground (arith, same 2, same 3, h.type);
  fragment = ground (arith, same 4, same 5, h.fragment);
  no_error = ground (arith, same 6, same 7, h.no_error);
}

pub fields-IsHeader :
    (r : Bool) (fid : ℕ) (t : MessageType) (b : Buffer)
    → read16 b 2 ≡ code_create r t
    → read16 b 4 ≡ fid
    → read16 b 6 ≡ 0
    → IsHeader r fid t b
unfolding is_request get_type get_fragment_id get_error_code error_of_number
fields-IsHeader r fid t b code fragment none_reported =
    let (range, direction, type) = code_create-parts r t in
    record {
      direction = rw code direction;
      type = rw code type;
      fragment = fragment;
      no_error = rw none_reported refl;
    }

pub request-IsHeader :
    (b : Buffer) (fid : ℕ) (t : MessageType)
    → fid < 2 ^ 16
    → IsHeader true fid t (Exchange.prepare_header b fid t)
unfolding Exchange.prepare_header set_code set_fragment_id set_error_code
request-IsHeader b fid t h =
    let coded = write16 (write16 b 4 fid) 2 (code_create true t) in
    fields-IsHeader true fid t (write16 coded 6 0)
      (read16-write16_apart coded 6 2 0 (omega arith)
        ∙ read16-write16 (write16 b 4 fid) 2 (code_create true t) (code_create-parts true t).0)
      (read16-write16_apart coded 6 4 0 (omega arith)
        ∙ (read16-write16_apart (write16 b 4 fid) 2 4 (code_create true t) (omega arith)
            ∙ read16-write16 b 4 fid h))
      (read16-write16 coded 6 0 (omega arith))

pub response-IsHeader :
    (b : Buffer) (fid : ℕ) (t : MessageType)
    → fid < 2 ^ 16
    → IsHeader false fid t (Header.prepare_header b fid t success)
unfolding Header.prepare_header set_code set_fragment_id set_error_code
response-IsHeader b fid t h =
    let coded = write16 (write16 b 6 0) 2 (code_create false t) in
    fields-IsHeader false fid t (write16 coded 4 fid)
      (read16-write16_apart coded 4 2 fid (omega arith)
        ∙ read16-write16 (write16 b 6 0) 2 (code_create false t) (code_create-parts false t).0)
      (read16-write16 coded 4 fid h)
      (read16-write16_apart coded 4 6 fid (omega arith)
        ∙ (read16-write16_apart (write16 b 6 0) 2 6 (code_create false t) (omega arith)
            ∙ read16-write16 b 6 0 (omega arith)))

-- A payload that leaves the header alone.
abbrev pub Keeps : Buffer → Buffer → Type 0
Keeps b c = (i : ℕ) → (8 ≤ i) ⊎ (c i ≡ b i)

-- A filled message with a good header is sealed, and the seal keeps header and payload.
pub sealed-IsHeader :
    (r : Bool) (fid : ℕ) (t : MessageType) (b filled : Buffer)
    → IsHeader r fid t b
    → Keeps b filled
    → HasLayout r t filled
    → 12 + payload_bytes r t filled < 2 ^ 16
    → (m : Buffer) × (finalize filled ≡ some m)
      × (validate m ≡ some true)
      × IsHeader r fid t m
      × ((i : ℕ) → (i < 2) ⊎ ((8 + payload_bytes r t filled ≤ i) ⊎ (m i ≡ filled i)))
sealed-IsHeader r fid t b filled h keeps layout size =
    let h' = IsHeader-agree r fid t b filled (λ i. inr (keeps i)) h in
    let (m, e, valid, _, same) = finalize-validate filled r t h'.direction h'.type layout size in
    (m, e, valid, IsHeader-agree r fid t filled m (λ i. ground (arith, same i)) h', same)

pub set_fragment_id-IsHeader :
    (r : Bool) (fid i : ℕ) (t : MessageType) (b : Buffer)
    → i < 2 ^ 16
    → IsHeader r fid t b
    → IsHeader r i t (set_fragment_id b i)
unfolding set_fragment_id is_request get_type get_fragment_id get_error_code
set_fragment_id-IsHeader r fid i t b range h = record {
  direction = rw (read16-write16_apart b 4 2 i (omega arith)) h.direction;
  type = rw (read16-write16_apart b 4 2 i (omega arith)) h.type;
  fragment = read16-write16 b 4 i range;
  no_error = rw (read16-write16_apart b 4 6 i (omega arith)) h.no_error;
}
