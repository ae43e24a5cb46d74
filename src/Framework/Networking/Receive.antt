-- ===== src/Framework/Networking/Receive.antt =====
-- framework/networking.cpp, recv_generic. The peer's bytes wait in `stream`; how many of them each
-- call of recv yields, and the time after it, is an argument; the result `none` means that the loop
-- still waits for the socket.
use fall23_p.Prelude.{
  ℕ, ◌-◌, Bool, true, false, not, ◌&&◌, ◌||◌, List, [], ◌∷◌, ◌++◌, Option, none, some, ltb, leb,
  ◌==◌, if◌then◌else◌, length, take, drop,
}
use fall23_p.Framework.ErrorCode.{
  ErrorCode, success, malformed_message, recv_zero_pending, recv_wait_timeout, is_success,
}
use fall23_p.Framework.Networking.{Config, use_timeout, block, try_once, validate, leading_length}

-- recv yields `k` bytes at most, or has none now, or fails. No bytes at all: the peer has closed.
pub data RecvAnswer : Type 0 where
  yields : ℕ → RecvAnswer
  again : RecvAnswer
  failure : RecvAnswer

-- The local variables of the loop: the flags (MSG_PEEK or 0), recv_started, expected_size,
-- msg_length; the bytes already in the buffer before its moving start; and the peer's bytes.
pub record Rx : Type 0 where
  pub peek : Bool
  pub recv_started : Bool
  pub expected_size : ℕ
  pub msg_length : ℕ
  pub buffer : List ℕ
  pub stream : List ℕ

pub data Outcome : Type 0 where
  goes_on : Rx → Outcome
  returns : ErrorCode → Rx → Outcome

-- What recv leaves in the socket.
abbrev pub left : Rx → List ℕ → List ℕ
left s bytes = if s.peek then s.stream else drop (length bytes) s.stream

-- The branch that decodes the length of the message.
unfoldable pub decode_length : Config → ℕ → ℕ → Rx → List ℕ → Outcome
decode_length c min_len max_len s bytes =
    if length bytes == s.expected_size
    then (if ltb (leading_length bytes) min_len || ltb max_len (leading_length bytes)
        then returns malformed_message s
        else goes_on (record s {
          peek = if block c then false else s.peek;
          expected_size = leading_length bytes;
          msg_length = leading_length bytes;
        }))
    else if try_once c
    then returns recv_zero_pending s
    else goes_on s

-- The branch that waits until the whole message is there.
unfoldable pub await_message : Config → ErrorCode → Rx → List ℕ → Outcome
await_message c connection_error s bytes =
    let taken = record s {
      stream = left s bytes;
      buffer = if s.peek then s.buffer else s.buffer ++ bytes;
    } in
    if length bytes == s.expected_size
    then (if not s.recv_started
        then goes_on (record taken { peek = false; recv_started = true })
        else returns success taken)
    else if try_once c
    then returns (if s.recv_started then connection_error else recv_zero_pending) taken
    else goes_on taken

-- The branch that consumes the bytes of the message.
unfoldable pub consume : Rx → List ℕ → Outcome
consume s bytes =
    let taken = record s {
      recv_started = true;
      expected_size = s.expected_size - length bytes;
      buffer = s.buffer ++ bytes;
      stream = left s bytes;
    } in
    if s.expected_size - length bytes == 0 then returns success taken else goes_on taken

abbrev is_empty : List ℕ → Bool
is_empty [] = true
is_empty _ = false

unfoldable pub recv_bytes : Config → ErrorCode → ℕ → ℕ → Rx → List ℕ → Outcome
recv_bytes c connection_error min_len max_len s bytes =
    if is_empty bytes
    then returns connection_error s
    else if s.msg_length == 0
    then decode_length c min_len max_len (record s { stream = left s bytes }) bytes
    else if try_once c || (use_timeout c && not s.recv_started)
    then await_message c connection_error s bytes
    else consume s bytes

-- One round of the loop.
unfoldable pub recv_step : Config → ErrorCode → ℕ → ℕ → Rx → RecvAnswer → Outcome
recv_step c connection_error min_len max_len s (yields k) =
    recv_bytes c connection_error min_len max_len s (take k (take s.expected_size s.stream))
recv_step c connection_error min_len max_len s again =
    if try_once c then returns recv_zero_pending s else goes_on s
recv_step c connection_error min_len max_len s failure = returns connection_error s

-- The code after the loop.
abbrev pub timed_out : Rx → ErrorCode
timed_out s = if s.recv_started then recv_wait_timeout else recv_zero_pending

unfoldable pub recv_loop :
    Config → ErrorCode → ℕ → ℕ → Rx → ℕ → List (RecvAnswer × ℕ) → Option (ErrorCode × Rx)
recv_loop c connection_error min_len max_len s delta [] =
    if use_timeout c && leb c.timeout_ms delta then some (timed_out s, s) else none
recv_loop c connection_error min_len max_len s delta ((answer, now) ∷ steps) =
    if use_timeout c && leb c.timeout_ms delta
    then some (timed_out s, s)
    else (elim (recv_step c connection_error min_len max_len s answer) [
      | returns code s' ↦ some (code, s')
      | goes_on s' ↦
          recv_loop c connection_error min_len max_len s' (if use_timeout c then now else delta)
            steps
    ])

abbrev pub start : List ℕ → Rx
start stream = record {
  peek = true;
  recv_started = false;
  expected_size = 2;
  msg_length = 0;
  buffer = [];
  stream = stream;
}

unfoldable pub recv_generic :
    Config
    → Option Bool
    → ErrorCode
    → ℕ
    → ℕ
    → List ℕ
    → List (RecvAnswer × ℕ)
    → Option (ErrorCode × Rx)
recv_generic c nonblocking connection_error min_len max_len stream steps =
    let code = validate nonblocking c false in
    if not (is_success code)
    then some (code, start stream)
    else recv_loop c connection_error min_len max_len (start stream) 0 steps
