-- ===== src/Framework/Orchestrator/Phases/Shutdown.antt =====
-- framework/orchestrator.cpp: which processes are killed after the graceful shutdown.
use fall23_p.Prelude.{
  ℕ, zero, suc, ◌+◌, ◌==◌, ◌≤◌, ◌<◌, ◌≡◌, ◌≢◌, ◌⊎◌, inr, ◌&&◌, ◌||◌, Bool, true, false, List, [],
  ◌∷◌, none, some, if◌then◌else◌, ◌>>=◌, length, load, set, All, arith, refl, ap, sym, ◌∙◌,
  load-in_bounds, lt→ltb, ◌^◌,
}
use fall23_p.Framework.ErrorCode.{ErrorCode, success, is_success, is_success-success}
use fall23_p.Framework.Buffer.{Buffer}
use fall23_p.Framework.Message.{MessageType}
use fall23_p.Framework.Message.Length.{payload_bytes}
use fall23_p.Framework.Orchestrator.Broadcast.{Fills, foreach_fragment_send_generic-success}
use fall23_p.Framework.Orchestrator.Responses.{is_positive, answer, answers_of}
use fall23_p.Framework.Orchestrator.Responses.Rounds.{ArePolls, Expires}
use fall23_p.Framework.Orchestrator.Responses.Waiting.{
  IsGood, Settles, foreach_fragment_recv_generic-Settles,
}
use fall23_p.Framework.Orchestrator.Responses.Answers.{IsReadable, answer-keeps}
use fall23_p.Framework.Orchestrator.Fragments.{
  Fragments, FragmentMetadata, shutdown_lambda, destroy_fragments,
}
use fall23_p.Framework.Orchestrator.Phases.{
  Sockets, ctrl_fds, no_payload, foreach_fragment_send_ctrl, foreach_fragment_recv_ctrl,
  run_state_graceful_shutdown, run_state_forceful_shutdown,
}

-- Whether a fragment has given a good answer.
pub heard : ℕ → List (ℕ × ErrorCode) → Bool
heard i [] = false
heard i ((j, code) ∷ log) = ((j == i) && is_success code) || heard i log

-- The processes of the fragments, from the fragment `idx`, that have not given a good answer.
pub silent_pids : List (ℕ × ErrorCode) → ℕ → Fragments → List ℕ
silent_pids log idx [] = []
silent_pids log idx (f ∷ fs) =
    let rest = silent_pids log (idx + 1) fs in
    elim (f.pid) [ none ↦ rest | some pid ↦ if heard idx log then rest else pid ∷ rest ]

-- The fragments after the good answers.
acknowledged : List (ℕ × ErrorCode) → ℕ → Fragments → Fragments
acknowledged log idx [] = []
acknowledged log idx (f ∷ fs) =
    (if heard idx log then record f { pid = none } else f) ∷ acknowledged log (idx + 1) fs

acknowledged-agree :
    (log log' : List (ℕ × ErrorCode)) (idx : ℕ) (fs : Fragments)
    → ((i : ℕ) → idx ≤ i → heard i log ≡ heard i log')
    → acknowledged log idx fs ≡ acknowledged log' idx fs
unfolding acknowledged
acknowledged-agree log log' idx [] same = refl
acknowledged-agree log log' idx (f ∷ fs) same =
    rw
      (
        same idx (omega arith),
        acknowledged-agree log log' (idx + 1) fs (λ i below. same i (omega arith)),
      )
      refl

acknowledged-nil : (idx : ℕ) (fs : Fragments) → acknowledged [] idx fs ≡ fs
unfolding acknowledged heard
acknowledged-nil idx [] = refl
acknowledged-nil idx (f ∷ fs) = ap (◌∷◌ f) (acknowledged-nil (idx + 1) fs)

length-acknowledged :
    (log : List (ℕ × ErrorCode)) (idx : ℕ) (fs : Fragments)
    → length (acknowledged log idx fs) ≡ length fs
unfolding acknowledged
length-acknowledged log idx [] = refl
length-acknowledged log idx (f ∷ fs) = ap suc (length-acknowledged log (idx + 1) fs)

-- A good answer of the fragment `idx + k`.
set-acknowledged :
    (log : List (ℕ × ErrorCode)) (idx k : ℕ) (fs : Fragments) (g : FragmentMetadata)
    → load (acknowledged log idx fs) k ≡ some g
    → set (acknowledged log idx fs) k (record g { pid = none })
      ≡ acknowledged ((idx + k, success) ∷ log) idx fs
unfolding acknowledged heard
set-acknowledged log idx k [] g there = refl
set-acknowledged log idx zero (f ∷ fs) g there =
    let later : acknowledged log (idx + 1) fs
        ≡ acknowledged ((idx + 0, success) ∷ log) (idx + 1) fs =
      acknowledged-agree log ((idx + 0, success) ∷ log) (idx + 1) fs (λ i below. ground arith) in
    ground (arith, later)
set-acknowledged log idx (suc k) (f ∷ fs) g there =
    let moved : idx + 1 + k ≡ idx + suc k = omega arith in
    let rest =
      set-acknowledged log (idx + 1) k fs g there
      ∙ ap (λ j. acknowledged ((j, success) ∷ log) (idx + 1) fs) moved in
    ground (arith, rest)

destroy-acknowledged :
    (log : List (ℕ × ErrorCode)) (idx : ℕ) (fs : Fragments)
    → destroy_fragments (acknowledged log idx fs) ≡ silent_pids log idx fs
unfolding acknowledged destroy_fragments silent_pids
destroy-acknowledged log idx [] = refl
destroy-acknowledged log idx (f ∷ fs) = ground (arith, destroy-acknowledged log (idx + 1) fs)

-- What the good answers have changed.
abbrev IsAcknowledged : Fragments → List (ℕ × ErrorCode) → Fragments → Type 0
IsAcknowledged fragments log fs = fs ≡ acknowledged log 0 fragments

bad-acknowledged :
    (fragments : Fragments) (log : List (ℕ × ErrorCode)) (i : ℕ) (code : ErrorCode)
    → code ≢ success
    → acknowledged log 0 fragments ≡ acknowledged ((i, code) ∷ log) 0 fragments
unfolding heard
bad-acknowledged fragments log i code bad =
    acknowledged-agree log ((i, code) ∷ log) 0 fragments
      (λ j below. ground (arith, bad, is_success-success code))

shutdown_lambda-set :
    (fs : Fragments) (i : ℕ) (m : Buffer) (g : FragmentMetadata)
    → load fs i ≡ some g
    → i < length fs
    → shutdown_lambda i m fs ≡ some (success, set fs i (record g { pid = none }))
unfolding shutdown_lambda
shutdown_lambda-set fs i m g there below = rw (there, ◌>>=◌) (rw (lt→ltb i (length fs) below) refl)

shutdown_lambda-acknowledged :
    (fragments : Fragments) (log : List (ℕ × ErrorCode)) (i : ℕ) (m : Buffer)
    → i < length fragments
    → shutdown_lambda i m (acknowledged log 0 fragments)
      ≡ some (success, acknowledged ((i, success) ∷ log) 0 fragments)
shutdown_lambda-acknowledged fragments log i m below =
    let small : i < length (acknowledged log 0 fragments) =
      omega (arith, length-acknowledged log 0 fragments) in
    let (g, there) = load-in_bounds (acknowledged log 0 fragments) i small in
    let zero_first : 0 + i ≡ i = omega arith in
    shutdown_lambda-set (acknowledged log 0 fragments) i m g there small
    ∙ ap (λ fs. some (success, fs))
        (set-acknowledged log 0 i fragments g there
          ∙ ap (λ j. acknowledged ((j, success) ∷ log) 0 fragments) zero_first)

answer-IsAcknowledged :
    (fragments : Fragments) (i : ℕ) (r : ErrorCode × Buffer) (log : List (ℕ × ErrorCode))
    (fs : Fragments)
    → i < length fragments
    → IsReadable true MessageType.shutdown i r
    → IsAcknowledged fragments log fs
    → (c : ErrorCode) × (fs' : Fragments) × (answer true MessageType.shutdown shutdown_lambda i r fs
        ≡ some (c, fs'))
      × IsAcknowledged fragments ((i, c) ∷ log) fs'
answer-IsAcknowledged fragments i (code, m) log fs below readable same =
    answer-keeps true MessageType.shutdown shutdown_lambda i m fs code
      (λ c fs'. IsAcknowledged fragments ((i, c) ∷ log) fs') readable
      (λ c bad. same ∙ bad-acknowledged fragments log i c bad)
      (λ received checked. (
        success,
        acknowledged ((i, success) ∷ log) 0 fragments,
        ap (shutdown_lambda i m) same ∙ shutdown_lambda-acknowledged fragments log i m below,
        refl,
      ))

heard-good :
    (log : List (ℕ × ErrorCode)) (i : ℕ)
    → All IsGood log
    → answers_of i log ≡ 1
    → heard i log ≡ true
unfolding heard answers_of
heard-good [] i good once = absurd (omega arith)
heard-good ((j, code) ∷ log) i good once = rw (good.0) (ground (arith, heard-good log i good.1))

silent_pids-none :
    (log : List (ℕ × ErrorCode)) (idx : ℕ) (fs : Fragments)
    → ((i : ℕ) → i < idx + length fs → heard i log ≡ true)
    → silent_pids log idx fs ≡ []
unfolding silent_pids
silent_pids-none log idx [] all = refl
silent_pids-none log idx (f ∷ fs) all = ground (
  arith,
  all idx (omega arith),
  silent_pids-none log (idx + 1) fs (λ i below. all i (omega arith)),
)

no_payload-Fills : Fills MessageType.shutdown no_payload
unfolding payload_bytes
no_payload-Fills i b = (λ j. inr refl, tt, omega arith)

ctrl_fds-positive :
    (fs : Fragments)
    → All (λ f. is_positive f.fd_ctrl ≡ true) fs
    → (length (ctrl_fds fs) ≡ length fs) × All (λ fd. is_positive fd ≡ true) (ctrl_fds fs)
ctrl_fds-positive [] h = (refl, tt)
ctrl_fds-positive (f ∷ fs) h =
    let (size, rest) = ctrl_fds-positive fs h.1 in (ap suc size, (h.0, rest))

-- The graceful shutdown always ends, and the forceful shutdown after it kills exactly the processes of
-- the fragments that have not acknowledged, and none after a success. The answers settle the error
-- code: no fragment answers twice, and so on. Every fragment has a ctrl socket, there are fewer than
-- 65536 fragments, every answer received has a header that can be checked, poll reports events on no
-- more sockets than it polls, and the time is over in one of the rounds.
pub run_state_graceful_shutdown-kills :
    (net : Sockets) (timeout : ℕ) (fragments : Fragments) (b : Buffer)
    → All (λ f. is_positive f.fd_ctrl ≡ true) fragments
    → All (λ r. (i : ℕ) → IsReadable true MessageType.shutdown i (r.receives i)) net.rounds
    → ArePolls net.rounds (ctrl_fds fragments)
    → (timeout ≡ 0) ⊎ Expires net.rounds
    → length fragments < 2 ^ 16
    → (log : List (ℕ × ErrorCode)) × (code : ErrorCode) × (fs : Fragments)
      × (run_state_graceful_shutdown net timeout fragments b ≡ some (log, code, fs))
      × Settles (length fragments) log code
      × (run_state_forceful_shutdown fs ≡ silent_pids log 0 fragments)
      × (code ≡ success → run_state_forceful_shutdown fs ≡ [])
unfolding run_state_graceful_shutdown foreach_fragment_send_ctrl foreach_fragment_recv_ctrl
    run_state_forceful_shutdown
run_state_graceful_shutdown-kills net timeout fragments b positive readable polls ends few =
    let (size, open_fds) = ctrl_fds-positive fragments positive in
    let (out, sent, e, _, _, _, _) =
      foreach_fragment_send_generic-success MessageType.shutdown no_payload no_payload-Fills
        net.sends net.timers (length (ctrl_fds fragments)) timeout b (omega arith) in
    let (log, code, fs, received, same, settled) =
      foreach_fragment_recv_generic-Settles true MessageType.shutdown shutdown_lambda
        (ctrl_fds fragments) (IsAcknowledged fragments) (IsReadable true MessageType.shutdown)
        (λ i r log fs below. answer-IsAcknowledged fragments i r log fs (omega arith)) timeout
        net.rounds fragments open_fds readable polls ends (sym (acknowledged-nil 0 fragments)) in
    let kills : destroy_fragments fs ≡ silent_pids log 0 fragments =
      ap destroy_fragments same ∙ destroy-acknowledged log 0 fragments in
    (
      log,
      code,
      fs,
      rw e received,
      rw (← size) settled,
      kills,
      (λ done.
          kills
          ∙ silent_pids-none log 0 fragments (λ i below.
            heard-good log i (settled.finished.0 done).1 (settled.everyone done i (omega arith)))),
    )
