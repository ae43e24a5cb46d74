-- ===== src/Framework/Networking/Send.antt =====
-- framework/networking.cpp, send_generic. What each call of send answers, and the time after it, is
-- an argument; the result `none` means that the loop still waits for the socket.
use fall23_p.Prelude.{
  ℕ, Bool, true, false, not, ◌&&◌, ◌||◌, List, [], ◌∷◌, ◌++◌, Option, none, some, ltb, leb,
  if◌then◌else◌, take, drop,
}
use fall23_p.Framework.ErrorCode.{
  ErrorCode, success, malformed_message, send_reqs_timeout, is_success,
}
use fall23_p.Framework.Networking.{Config, use_timeout, validate, leading_length}

-- send takes `k` bytes at most, or asks to try again, or fails.
pub data SendAnswer : Type 0 where
  took : ℕ → SendAnswer
  again : SendAnswer
  failure : SendAnswer

abbrev pub is_empty : List ℕ → Bool
is_empty [] = true
is_empty _ = false

-- The loop: `rest` is what is not sent yet, `sent` what the socket took.
unfoldable pub send_loop :
    Config → ErrorCode → List ℕ → List ℕ → ℕ → List (SendAnswer × ℕ) → Option (ErrorCode × List ℕ)
send_loop c connection_error sent rest delta [] =
    if is_empty rest
    then some (success, sent)
    else if use_timeout c && leb c.timeout_ms delta
    then some (send_reqs_timeout, sent)
    else none
send_loop c connection_error sent rest delta ((answer, now) ∷ steps) =
    let delta' = if use_timeout c then now else delta in
    let retry = send_loop c connection_error sent rest delta' steps in
    if is_empty rest
    then some (success, sent)
    else if use_timeout c && leb c.timeout_ms delta
    then some (send_reqs_timeout, sent)
    else (elim answer [
      | took k ↦ send_loop c connection_error (sent ++ take k rest) (drop k rest) delta' steps
      | again ↦ retry
      | failure ↦ some (connection_error, sent)
    ])

-- `message` is the buffer up to the length that its first two bytes give.
unfoldable pub send_generic :
    Config
    → Option Bool
    → ErrorCode
    → ℕ
    → ℕ
    → List ℕ
    → List (SendAnswer × ℕ)
    → Option (ErrorCode × List ℕ)
send_generic c nonblocking connection_error min_len max_len buffer steps =
    let code = validate nonblocking c true in
    let length = leading_length buffer in
    if not (is_success code)
    then some (code, [])
    else if ltb length min_len || ltb max_len length
    then some (malformed_message, [])
    else send_loop c connection_error [] (take length buffer) 0 steps
