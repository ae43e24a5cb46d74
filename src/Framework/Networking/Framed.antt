-- ===== src/Framework/Networking/Framed.antt =====
-- framework/networking.cpp, recv_generic: what holds between two rounds of the loop, and how it ends.
use fall23_p.Prelude.{
  ℕ, ◌+◌, ◌≤◌, ◌≡◌, ◌≢◌, true, false, List, [], ◌++◌, length, Option, some, none,
}
use fall23_p.Framework.ErrorCode.{ErrorCode, success, recv_zero_pending}
use fall23_p.Framework.Networking.{Config, use_timeout, block, try_once, leading_length}
use fall23_p.Framework.Networking.Receive.{Rx, Outcome, goes_on, returns}

-- Before the length is known; while the message is awaited; while it is taken.
pub data Phase (c : Config) (s : Rx) : Type 0 where
  waiting : s.peek ≡ true → s.recv_started ≡ false → s.buffer ≡ [] → block c ≡ false → Phase c s
  taking_at_once :
      s.peek ≡ false → s.recv_started ≡ true → s.buffer ≡ [] → try_once c ≡ true → Phase c s
  taking : s.peek ≡ false → block c ≡ true → Phase c s
  taking_in_time : s.peek ≡ false → s.recv_started ≡ true → use_timeout c ≡ true → Phase c s

-- What holds between two rounds, where the peer's bytes were `all` at the start.
pub data Holds (c : Config) (min_len max_len : ℕ) (all : List ℕ) (s : Rx) : Type 0 where
  undecoded :
      s.msg_length ≡ 0
      → s.stream ≡ all
      → s.buffer ≡ []
      → s.peek ≡ true
      → s.expected_size ≡ 2
      → s.recv_started ≡ false
      → Holds c min_len max_len all s
  decoded :
      s.msg_length ≡ leading_length all
      → s.buffer ++ s.stream ≡ all
      → min_len ≤ s.msg_length
      → s.msg_length ≤ max_len
      → s.expected_size + length s.buffer ≡ s.msg_length
      → Phase c s
      → Holds c min_len max_len all s

-- How the loop may end. On success the buffer holds the first bytes of the stream, as many as its
-- leading two bytes say, and the rest waits in the socket; where no message is pending, nothing was
-- taken; after any other error no byte is lost or reordered.
pub data Framed (min_len max_len : ℕ) (all : List ℕ) (s : Rx) : ErrorCode → Type 0 where
  message :
      s.buffer ++ s.stream ≡ all
      → length s.buffer ≡ leading_length all
      → min_len ≤ length s.buffer
      → length s.buffer ≤ max_len
      → Framed min_len max_len all s success
  untouched : s.stream ≡ all → Framed min_len max_len all s recv_zero_pending
  failed :
      {code : ErrorCode}
      → code ≢ success
      → code ≢ recv_zero_pending
      → s.buffer ++ s.stream ≡ all
      → Framed min_len max_len all s code

-- A round goes on with the invariant, or ends.
abbrev pub Good : Config → ℕ → ℕ → List ℕ → Outcome → Type 0
Good c min_len max_len all (goes_on s) = Holds c min_len max_len all s
Good c min_len max_len all (returns code s) = Framed min_len max_len all s code

-- Where the loop has ended, it has ended well.
abbrev pub EndsFramed : ℕ → ℕ → List ℕ → Option (ErrorCode × Rx) → Type 0
EndsFramed min_len max_len all none = Unit
EndsFramed min_len max_len all (some (code, s)) = Framed min_len max_len all s code

pub untaken :
    {c : Config} {min_len max_len : ℕ} {all : List ℕ} (s : Rx)
    → Holds c min_len max_len all s
    → s.buffer ++ s.stream ≡ all
untaken s (undecoded _ whole empty _ _ _) = rw (empty, whole)
untaken s (decoded _ whole _ _ _ _) = whole
