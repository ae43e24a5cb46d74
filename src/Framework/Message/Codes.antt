-- ===== src/Framework/Message/Codes.antt =====
-- framework/message.cpp: the direction and the type in the message code.
use fall23_p.Prelude.{◌<◌, ◌^◌, ◌≡◌, refl, Bool, true, false, some, arith}
use fall23_p.Framework.Message.{
  MessageType, code_create, code_is_request, code_to_type, get_type, is_request, set_code,
}
use fall23_p.Framework.Buffer.{Buffer, read16-write16}

pub code_create-parts :
    (r : Bool) (t : MessageType)
    → (code_create r t < 2 ^ 16)
      × (code_is_request (code_create r t) ≡ r)
      × (code_to_type (code_create r t) ≡ some t)
unfolding code_create code_is_request code_to_type
code_create-parts true MessageType.noop = (omega arith, refl, refl)
code_create-parts true _ = (omega arith, refl, refl)
code_create-parts false MessageType.noop = (omega arith, refl, refl)
code_create-parts false _ = (omega arith, refl, refl)

-- The direction and the type that are set are read back from the header.
pub get-set_code :
    (b : Buffer) (r : Bool) (t : MessageType)
    → (is_request (set_code b r t) ≡ r) × (get_type (set_code b r t) ≡ some t)
unfolding is_request get_type set_code
get-set_code b r t =
    let (range, direction, type) = code_create-parts r t in
    rw (read16-write16 b 2 (code_create r t) range) (direction, type)
