-- ===== src/Framework/Orchestrator/Responses/Waiting.antt =====
-- framework/orchestrator.cpp: what the wait for an answer of every fragment comes to.
use fall23_p.Prelude.{
  ℕ, ◌+◌, ◌==◌, ◌≤◌, ◌<◌, ◌≡◌, ◌≢◌, ◌↔◌, ◌⊎◌, inl, inr, ◌||◌, ◌&&◌, not, Bool, true, false, ltb,
  leb, List, [], ◌∷◌, Option, some, if◌then◌else◌, length, arith, refl, Bool-cases, All, sym, ◌∙◌,
}
use fall23_p.Framework.ErrorCode.{
  ErrorCode, success, recv_wait_timeout, is_success, is_success-success, fails-not_success,
}
use fall23_p.Framework.Buffer.{Buffer}
use fall23_p.Framework.Message.{MessageType}
use fall23_p.Framework.Orchestrator.Broadcast.{first_error-success}
use fall23_p.Framework.Orchestrator.Responses.{
  Fd, is_positive, Poll, nothing, interrupted, events, Round, Progress, answer, recv_rounds,
  after_poll, foreach_fragment_recv_generic, oldest_error, answers_of,
}
use fall23_p.Framework.Orchestrator.Responses.Rounds.{
  open_count, polled, left_by, IsPoll, ArePolls, Expires, polled-le, Serves, serve_from-Serves,
}

-- The progress of the wait for the descriptors `fds`.
abbrev pub IsGood : ℕ × ErrorCode → Type 0
IsGood (i, code) = code ≡ success

record IsWaiting {S : Type 0} (fds : List Fd) (p : Progress S) : Type 0 where
  pending : p.num_pending ≡ open_count p.pfds
  size : length p.pfds ≡ length fds
  total : length p.log + p.num_pending ≡ length fds
  each : (i : ℕ) → answers_of i p.log + polled 0 p.pfds i ≡ polled 0 fds i
  code : p.code ≡ oldest_error p.log

Serves-IsWaiting :
    {S : Type 0} (fds : List Fd) (readable : ℕ → Bool) (p q : Progress S)
    → IsWaiting fds p
    → Serves 0 0 readable p.pfds p q
    → IsWaiting fds q
Serves-IsWaiting fds readable p q h s = record {
  pending = omega (arith, s.pending);
  size = omega (arith, s.size, h.size);
  total = omega (arith, s.total, h.total);
  each = λ i. omega (arith, s.each i, h.each i);
  code = s.code;
}

open_count-length :
    (fds : List Fd) → All (λ fd. is_positive fd ≡ true) fds → open_count fds ≡ length fds
open_count-length [] h = refl
open_count-length (fd ∷ fds) h = rw h.0 (omega (arith, open_count-length fds h.1))

-- Each of the descriptors is polled once, if all are positive.
polled-one :
    (fds : List Fd) (idx i : ℕ)
    → All (λ fd. is_positive fd ≡ true) fds
    → polled idx fds i ≡ (if leb idx i && ltb i (idx + length fds) then 1 else 0)
polled-one [] idx i h = ground arith
polled-one (fd ∷ fds) idx i h = rw h.0 (ground (arith, polled-one fds (idx + 1) i h.1))

-- An error code that the answers settle: no fragment answers twice; it is success exactly if there
-- are as many answers as fragments, all of them good, and then each fragment has answered; it is the
-- first bad answer's error code, if there is one, and a timeout if good answers are missing.
pub record Settles (n : ℕ) (log : List (ℕ × ErrorCode)) (code : ErrorCode) : Type 0 where
  pub once : (i : ℕ) → answers_of i log ≤ 1
  pub finished : (code ≡ success) ↔ ((length log ≡ n) × All IsGood log)
  pub everyone : code ≡ success → (i : ℕ) → i < n → answers_of i log ≡ 1
  pub failed : oldest_error log ≢ success → code ≡ oldest_error log
  pub late : All IsGood log → length log < n → code ≡ recv_wait_timeout

oldest_error-success : (log : List (ℕ × ErrorCode)) → (oldest_error log ≡ success) ↔ All IsGood log
unfolding oldest_error
oldest_error-success [] = ((λ e. tt), (λ h. refl))
oldest_error-success ((i, code) ∷ log) =
    let (here, there) = first_error-success (oldest_error log) code in
    let (good, none_bad) = oldest_error-success log in
    ((λ e. ((here e).1, good (here e).0)), (λ h. there (none_bad h.1, h.0)))

module _ {S : Type 0} (fds : List Fd) (p : Progress S)
    (positive : All (λ fd. is_positive fd ≡ true) fds) (h : IsWaiting fds p) where
  IsWaiting-once : (i : ℕ) → answers_of i p.log ≤ 1
  IsWaiting-once i = ground (arith, h.each i, polled-one fds 0 i positive)

  IsWaiting-everyone : p.num_pending ≡ 0 → (i : ℕ) → i < length fds → answers_of i p.log ≡ 1
  IsWaiting-everyone none_pending i below =
      ground (arith, h.each i, h.pending, polled-one fds 0 i positive, polled-le 0 p.pfds i)

  IsWaiting-IsGood : p.code ≡ success → All IsGood p.log
  IsWaiting-IsGood e = (oldest_error-success p.log).0 (sym h.code ∙ e)

  IsWaiting-code : All IsGood p.log → p.code ≡ success
  IsWaiting-code good = h.code ∙ (oldest_error-success p.log).1 good

  IsWaiting-Settles :
      Settles
        (length fds)
        p.log
        (if is_success p.code && not (p.num_pending == 0) then recv_wait_timeout else p.code)
  IsWaiting-Settles = elim (Bool-cases (is_success p.code)) [
    | inl good ↦ elim (Bool-cases (p.num_pending == 0)) [
      | inl over ↦
          rw (good, over)
            (record {
              once = IsWaiting-once;
              finished = (
                (λ e. (ground (arith, over, h.total), IsWaiting-IsGood e)),
                (λ x. is_success-success p.code good),
              );
              everyone = λ _. IsWaiting-everyone (ground (arith, over));
              failed = λ _. h.code;
              late = λ x few. absurd (ground (arith, over, h.total));
            })
      | inr waiting ↦
          rw (good, waiting)
            (record {
              once = IsWaiting-once;
              finished = ((λ e. absurd (cc)), (λ x. absurd (ground (arith, waiting, h.total))));
              everyone = λ e. absurd (cc);
              failed = λ bad. absurd (bad (sym h.code ∙ is_success-success p.code good));
              late = λ x few. refl;
            })
    ]
    | inr bad ↦ rw bad (record {
      once = IsWaiting-once;
      finished = ((λ e. absurd (fails-not_success bad e)), (λ x. IsWaiting-code x.1));
      everyone = λ e. absurd (fails-not_success bad e);
      failed = λ _. h.code;
      late = λ x few. absurd (fails-not_success bad (IsWaiting-code x));
    })
  ]

module _ {S : Type 0} (check_ids : Bool) (type : MessageType)
    (lambda : ℕ → Buffer → S → Option (ErrorCode × S)) (fds : List Fd)
    (P : List (ℕ × ErrorCode) → S → Type 0) (Received : ℕ → ErrorCode × Buffer → Type 0)
    (keeps : (i : ℕ) (r : ErrorCode × Buffer) (log : List (ℕ × ErrorCode)) (s : S)
      → i < length fds
      → Received i r
      → P log s
      → (c : ErrorCode) × (s' : S) × (answer check_ids type lambda i r s ≡ some (c, s'))
        × P ((i, c) ∷ log) s') where
  -- A round ends the loop or leads to the rest of it.
  after_poll-IsWaiting :
      (rest : Progress S → Option (Progress S)) (receives : ℕ → ErrorCode × Buffer) (p : Progress S)
      (poll : Poll)
      → ((i : ℕ) → Received i (receives i))
      → IsPoll poll p.pfds
      → IsWaiting fds p
      → P p.log p.state
      → ((q : Progress S)
          → q.pfds ≡ left_by poll p.pfds
          → IsWaiting fds q
          → P q.log q.state
          → (q' : Progress S) × (rest q ≡ some q') × P q'.log q'.state × IsWaiting fds q')
      → (q : Progress S) × (after_poll check_ids type lambda rest receives p poll ≡ some q)
        × P q.log q.state
        × IsWaiting fds q
  unfolding after_poll
  after_poll-IsWaiting rest receives p nothing received ok h holds next = (p, refl, holds, h)
  after_poll-IsWaiting rest receives p interrupted received ok h holds next = next p refl h holds
  after_poll-IsWaiting rest receives p (events rc readable) received ok h holds next =
      let few : ltb p.num_pending rc ≡ false = ground (arith, h.pending) in
      let (q, e, holds', s) =
        serve_from-Serves check_ids type lambda (length fds) P Received keeps readable receives
          received p.pfds 0 0 p (omega (arith, h.size)) (omega (arith, h.pending)) h.code holds in
      let (q', e', holds'', h') = next q s.left (Serves-IsWaiting fds readable p q h s) holds' in
      (q', rw (few, e) e', holds'', h')

  -- The loop ends when the time is over.
  recv_rounds-IsWaiting :
      (rounds : List Round) (timer : ℕ) (p : Progress S)
      → All (λ r. (i : ℕ) → Received i (r.receives i)) rounds
      → ArePolls rounds p.pfds
      → (timer ≡ 0) ⊎ Expires rounds
      → IsWaiting fds p
      → P p.log p.state
      → (q : Progress S) × (recv_rounds check_ids type lambda timer p rounds ≡ some q)
        × P q.log q.state
        × IsWaiting fds q
  unfolding recv_rounds
  recv_rounds-IsWaiting [] timer p received polls ends h holds = (p, ground arith, holds, h)
  recv_rounds-IsWaiting (r ∷ rounds) timer p received polls ends h holds =
      elim (Bool-cases (p.num_pending == 0 || timer == 0)) [
        | inl over ↦ (p, rw over refl, holds, h)
        | inr on ↦
            let ends' : (r.timer ≡ 0) ⊎ Expires rounds = elim ends [
              | inl over ↦ absurd (ground (arith, on))
              | inr later ↦ later
            ] in
            let (q, e, holds', h') =
              after_poll-IsWaiting (λ q. recv_rounds check_ids type lambda r.timer q rounds)
                r.receives p r.poll received.0 polls.0 h holds
                (λ q left h' holds'.
                  recv_rounds-IsWaiting rounds r.timer q received.1 (rw left polls.1) ends' h'
                    holds') in
            (q, rw on e, holds', h')
      ]

  -- The wait for the fragments ends with an error code when the time is over in one of the rounds,
  -- and its answers settle that code. What the lambda keeps of its state, from one answer to the
  -- next, holds at the end. Every descriptor is positive, and poll reports events on no more
  -- descriptors than it polls.
  pub foreach_fragment_recv_generic-Settles :
      (timeout : ℕ) (rounds : List Round) (s : S)
      → All (λ fd. is_positive fd ≡ true) fds
      → All (λ r. (i : ℕ) → Received i (r.receives i)) rounds
      → ArePolls rounds fds
      → (timeout ≡ 0) ⊎ Expires rounds
      → P [] s
      → (log : List (ℕ × ErrorCode)) × (code : ErrorCode) × (s' : S)
        × (foreach_fragment_recv_generic check_ids type lambda fds timeout rounds s
            ≡ some (log, code, s'))
        × P log s'
        × Settles (length fds) log code
  unfolding foreach_fragment_recv_generic answers_of oldest_error
  foreach_fragment_recv_generic-Settles timeout rounds s positive received polls ends holds =
      let (q, e, holds', h) =
        recv_rounds-IsWaiting rounds timeout
          (record { pfds = fds; num_pending = length fds; code = success; state = s; log = [] })
          received polls ends
          (record {
            pending = sym (open_count-length fds positive);
            size = refl;
            total = omega arith;
            each = λ i. omega arith;
            code = refl;
          })
          holds in
      (
        q.log,
        if is_success q.code && not (q.num_pending == 0) then recv_wait_timeout else q.code,
        q.state,
        rw e refl,
        holds',
        IsWaiting-Settles fds q positive h,
      )
