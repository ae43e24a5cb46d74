-- ===== src/Framework/Orchestrator/Responses.antt =====
-- framework/orchestrator.cpp: the wait for an answer of every fragment. What each call of poll and
-- each receive give, and the time that is left after a round, are arguments. The result `none` stands
-- for a failed assertion, or for rounds that are over before the loop is.
pub mod Rounds
pub mod Waiting
pub mod Answers
use fall23_p.Prelude.{
  ℕ, ◌+◌, ◌-◌, ◌==◌, ◌||◌, ◌&&◌, not, Bool, true, false, ltb, List, [], ◌∷◌, Option, none, some,
  if◌then◌else◌, ◌>>=◌, length,
}
use fall23_p.Framework.ErrorCode.{ErrorCode, success, recv_wait_timeout, is_success}
use fall23_p.Framework.Buffer.{Buffer}
use fall23_p.Framework.Message.{MessageType}
use fall23_p.Framework.Orchestrator.Machine.{first_error}
use fall23_p.Framework.Orchestrator.Exchange.{check_header}

-- A file descriptor: `none` is -1.
abbrev pub Fd : Type 0
Fd = Option ℕ

abbrev pub is_positive : Fd → Bool
is_positive none = false
is_positive (some fd) = ltb 0 fd

-- The value of poll: 0, below 0, or the number of descriptors with events. `readable i` says that the
-- events of descriptor `i` are POLLIN alone.
pub data Poll : Type 0 where
  nothing interrupted : Poll
  events : ℕ → (ℕ → Bool) → Poll

-- One round: what poll gives, what each receive gives and leaves in the buffer, and the time left
-- after the round (0 also when the deadline is past).
pub record Round : Type 0 where
  pub poll : Poll
  pub receives : ℕ → ErrorCode × Buffer
  pub timer : ℕ

-- The variables of the loop: the descriptors still polled, the count of pending answers, the first
-- error, what the lambda changes, and the fragments that have answered, the latest first.
pub record Progress (S : Type 0) : Type 0 where
  pub pfds : List Fd
  pub num_pending : ℕ
  pub code : ErrorCode
  pub state : S
  pub log : List (ℕ × ErrorCode)

module _ {S : Type 0} (check_ids : Bool) (type : MessageType)
    (lambda : ℕ → Buffer → S → Option (ErrorCode × S)) where
  -- One answer: the receive, the header check and the lambda, up to the first error.
  unfoldable pub answer : ℕ → ErrorCode × Buffer → S → Option (ErrorCode × S)
  answer idx (code, m) s =
      if not (is_success code)
      then some (code, s)
      else (check_header m check_ids idx type >>= λ header.
          if not (is_success header) then some (header, s) else lambda idx m s)

  -- The loop over the descriptors, from the descriptor `idx`, which heads `pfds`.
  pub serve_from :
      (ℕ → Bool) → (ℕ → ErrorCode × Buffer) → ℕ → Progress S → List Fd → Option (Progress S)
  serve_from readable receives idx p [] = some (record p { pfds = [] })
  serve_from readable receives idx p (fd ∷ fds) = elim (readable idx && is_positive fd) [
    | true ↦
        (answer idx (receives idx) p.state >>= λ (code, s).
        serve_from readable receives (idx + 1)
          (record p {
            num_pending = p.num_pending - 1;
            code = first_error p.code code;
            state = s;
            log = (idx, code) ∷ p.log;
          })
          fds
        >>= λ q. some (record q { pfds = none ∷ q.pfds }))
    | false ↦
        (serve_from readable receives (idx + 1) p fds >>= λ q.
        some (record q { pfds = fd ∷ q.pfds }))
  ]

  -- What follows the call of poll in a round: the end of the loop, or the rest of it.
  pub after_poll :
      (Progress S → Option (Progress S))
      → (ℕ → ErrorCode × Buffer)
      → Progress S
      → Poll
      → Option (Progress S)
  after_poll rest receives p nothing = some p
  after_poll rest receives p interrupted = rest p
  after_poll rest receives p (events rc readable) =
      if ltb p.num_pending rc
      then none
      else (serve_from readable receives 0 p p.pfds >>= λ q. rest q)

  -- The loop over the rounds.
  pub recv_rounds : ℕ → Progress S → List Round → Option (Progress S)
  recv_rounds timer p [] = if p.num_pending == 0 || timer == 0 then some p else none
  recv_rounds timer p (r ∷ rounds) =
      if p.num_pending == 0 || timer == 0
      then some p
      else after_poll (λ q. recv_rounds r.timer q rounds) r.receives p r.poll

  -- The fragments that have answered, the error code, and what the lambda made of the state.
  pub foreach_fragment_recv_generic :
      List Fd → ℕ → List Round → S → Option (List (ℕ × ErrorCode) × ErrorCode × S)
  foreach_fragment_recv_generic fds timeout rounds s =
      recv_rounds timeout
        (record { pfds = fds; num_pending = length fds; code = success; state = s; log = [] })
        rounds
      >>= λ p. some (
        p.log,
        if is_success p.code && not (p.num_pending == 0) then recv_wait_timeout else p.code,
        p.state,
      )

-- The error code of the first answer that failed.
pub oldest_error : List (ℕ × ErrorCode) → ErrorCode
oldest_error [] = success
oldest_error ((_, code) ∷ log) = first_error (oldest_error log) code

-- How often a fragment has answered.
unfoldable pub answers_of : ℕ → List (ℕ × ErrorCode) → ℕ
answers_of i [] = 0
answers_of i ((j, _) ∷ log) = (if j == i then 1 else 0) + answers_of i log
