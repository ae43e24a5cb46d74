-- ===== src/Framework/Orchestrator/Exchange.antt =====
-- framework/orchestrator.cpp: the header checks of the orchestrator, and a request to one fragment.
-- What the socket does with a message is an argument; a failed assertion is the result `none`.
use fall23_p.Prelude.{
  ◌>>=◌, ◌==◌, ◌&&◌, not, if◌then◌else◌, some, ℕ, Option, Bool, true, List, [], ◌∷◌, ◌≡◌, refl,
}
use fall23_p.Framework.ErrorCode.{
  ErrorCode, success, malformed_message, bad_fragment_id, bad_message_code, is_success,
  fragment_exception,
}
use fall23_p.Framework.Buffer.{Buffer}
use fall23_p.Framework.Message.{
  MessageType, validate, set_error_code, set_code, finalize, set_fragment_id, get_fragment_id,
  is_request, get_type, get_error_code,
}
use fall23_p.Framework.Fragment.Header.{same_type, die_on_error}

unfoldable pub prepare_header : Buffer → ℕ → MessageType → Buffer
prepare_header b fid type = set_error_code (set_code (set_fragment_id b fid) true type) success

unfoldable pub check_header : Buffer → Bool → ℕ → MessageType → Option ErrorCode
check_header m check_id fid type = do
  valid ← validate m
  if not valid
      then some malformed_message
      else if check_id && not (get_fragment_id m == fid)
      then some bad_fragment_id
      else if is_request m
      then some bad_message_code
      else (get_type m >>= λ t.
          if not (same_type t type)
          then some bad_message_code
          else (get_error_code m >>= λ e.
              some (if is_success e then success else fragment_exception)))

-- What a fragment's socket does with a message: the code of send_with_timeout, and the code of
-- recv_with_timeout with the buffer that it leaves.
pub record Peer : Type 0 where
  pub accepts : Buffer → ErrorCode
  pub answers : Buffer → ErrorCode × Buffer

-- The message that is sent.
unfoldable pub request : Buffer → ℕ → MessageType → (Buffer → Buffer) → Option Buffer
request b fid type fill = finalize (fill (prepare_header b fid type))

unfoldable pub fragment_request_response :
    Peer → Buffer → ℕ → MessageType → (Buffer → Buffer) → Option ErrorCode
fragment_request_response peer b fid type fill = do
  m ← request b fid type fill
  let received = peer.answers m
  die_on_error (some (peer.accepts m))
      (die_on_error (some received.0) (check_header received.1 true fid type))

-- The same, with the fragment and the message that is sent to it.
unfoldable pub exchange :
    Peer → Buffer → ℕ → MessageType → (Buffer → Buffer) → Option (ErrorCode × List (ℕ × Buffer))
exchange peer b fid type fill = do
  m ← request b fid type fill
  code ← fragment_request_response peer b fid type fill
  some (code, (fid, m) ∷ [])

pub exchange-sent :
    (peer : Peer) (b : Buffer) (fid : ℕ) (type : MessageType) (fill : Buffer → Buffer) (m : Buffer)
    (code : ErrorCode)
    → request b fid type fill ≡ some m
    → fragment_request_response peer b fid type fill ≡ some code
    → exchange peer b fid type fill ≡ some (code, (fid, m) ∷ [])
unfolding exchange
exchange-sent peer b fid type fill m code sent done = rw (sent, ◌>>=◌) (rw (done, ◌>>=◌) refl)
