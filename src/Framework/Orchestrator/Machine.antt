-- ===== src/Framework/Orchestrator/Machine.antt =====
-- framework/orchestrator.cpp, orchestrator::run: the states of a test run and its ways to shut down.
use fall23_p.Prelude.{
  ap, ℕ, zero, suc, Bool, true, false, List, [], ◌∷◌, Option, none, some, if◌then◌else◌, ◌>>=◌, ◌<◌,
  ◌≡◌, ◌⊎◌, arith, ◌++◌, refl, Bool-cases, inl, inr,
}
use fall23_p.Framework.ErrorCode.{ErrorCode, success, is_success}

-- enum class state_t
pub data State : Type 0 where
  init setup_ctrl_plane setup_pcap_plane create_mixnet_topology start_all_mixnet_servers : State
  start_all_mixnet_clients resolve_mixnet_connections start_testcase run_testcase : State
  end_testcase graceful_shutdown forceful_shutdown reset : State

-- The error code that the switch leaves: killing the fragments and the reset report none.
pub state_code : (State → ErrorCode) → State → ErrorCode
state_code answers forceful_shutdown = success
state_code answers reset = success
state_code answers s = answers s

-- The next state, from whether the state's function succeeded.
pub next_state : State → Bool → State
next_state init true = setup_ctrl_plane
next_state init false = forceful_shutdown
next_state setup_ctrl_plane true = setup_pcap_plane
next_state setup_ctrl_plane false = forceful_shutdown
next_state setup_pcap_plane true = create_mixnet_topology
next_state setup_pcap_plane false = graceful_shutdown
next_state create_mixnet_topology true = start_all_mixnet_servers
next_state create_mixnet_topology false = graceful_shutdown
next_state start_all_mixnet_servers true = start_all_mixnet_clients
next_state start_all_mixnet_servers false = graceful_shutdown
next_state start_all_mixnet_clients true = resolve_mixnet_connections
next_state start_all_mixnet_clients false = graceful_shutdown
next_state resolve_mixnet_connections true = start_testcase
next_state resolve_mixnet_connections false = graceful_shutdown
next_state start_testcase true = run_testcase
next_state start_testcase false = end_testcase
next_state run_testcase _ = end_testcase
next_state end_testcase _ = graceful_shutdown
next_state graceful_shutdown true = reset
next_state graceful_shutdown false = forceful_shutdown
next_state forceful_shutdown _ = reset
next_state reset _ = reset

abbrev pub is_reset : State → Bool
is_reset reset = true
is_reset _ = false

-- `exit_code` is set by the first error alone (`show_errors`).
abbrev pub first_error : ErrorCode → ErrorCode → ErrorCode
first_error e e' = if is_success e then e' else e

-- The loop on fuel: the states entered, and the exit code. The run is over after `reset`.
pub run_from : ℕ → (State → ErrorCode) → ErrorCode → State → Option (List State × ErrorCode)
run_from zero answers exit_code s = none
run_from (suc fuel) answers exit_code s =
    let code = state_code answers s in
    let exit_code' = first_error exit_code code in
    let rest = run_from fuel answers exit_code' (next_state s (is_success code)) in
    if is_reset s then some (s ∷ [], exit_code') else (rest >>= λ r. some (s ∷ r.0, r.1))

-- Thirteen rounds suffice: no state is entered twice.
pub run : (State → ErrorCode) → Option (List State × ErrorCode)
unfolding run_from state_code next_state
run answers = run_from 13 answers success init

-- A run: each state is followed by the one that its error code selects, up to `reset`.
pub data Follows (answers : State → ErrorCode) : State → List State → Type 0 where
  stop : {s : State} → is_reset s ≡ true → Follows answers s (s ∷ [])
  step :
      {s : State} {ss : List State}
      → is_reset s ≡ false
      → Follows answers (next_state s (is_success (state_code answers s))) ss
      → Follows answers s (s ∷ ss)

-- The first error among the states entered, after `e`.
pub first_of_run : (State → ErrorCode) → ErrorCode → List State → ErrorCode
first_of_run answers e [] = e
first_of_run answers e (s ∷ ss) = first_of_run answers (first_error e (state_code answers s)) ss

-- The steps that may follow a state.
rank : State → ℕ
rank init = 12
rank setup_ctrl_plane = 11
rank setup_pcap_plane = 10
rank create_mixnet_topology = 9
rank start_all_mixnet_servers = 8
rank start_all_mixnet_clients = 7
rank resolve_mixnet_connections = 6
rank start_testcase = 5
rank run_testcase = 4
rank end_testcase = 3
rank graceful_shutdown = 2
rank forceful_shutdown = 1
rank reset = 0

rank-next_state : (s : State) (b : Bool) → is_reset s ≡ false → rank (next_state s b) < rank s
unfolding rank next_state
rank-next_state init true h = omega arith
rank-next_state _ true h = ground arith
rank-next_state _ false h = ground arith

run_from-Follows :
    (fuel : ℕ) (answers : State → ErrorCode) (e : ErrorCode) (s : State)
    → rank s < fuel
    → (ss : List State) × (run_from fuel answers e s ≡ some (ss, first_of_run answers e ss))
      × Follows answers s ss
unfolding run_from first_of_run
run_from-Follows zero answers e s h = absurd (omega arith)
run_from-Follows (suc fuel) answers e s h = elim (Bool-cases (is_reset s)) [
  | inl over ↦ (s ∷ [], rw over, stop over)
  | inr going ↦
      let code = state_code answers s in
      let (ss, run, follows) =
        run_from-Follows fuel answers (first_error e code) (next_state s (is_success code))
          (omega (arith, rank-next_state s (is_success code) going)) in
      (s ∷ ss, rw (going, run), step going follows)
]

-- The last states are a shutdown that every fragment confirmed, or the killing of the fragments, and
-- then the reset of the sockets.
abbrev pub EndsClean : (State → ErrorCode) → List State → Type 0
EndsClean answers ss =
    (before : List State) × (((ss ≡ before ++ (graceful_shutdown ∷ reset ∷ []))
        × (answers graceful_shutdown ≡ success))
      ⊎ (ss ≡ before ++ (forceful_shutdown ∷ reset ∷ [])))

Follows-reset :
    {answers : State → ErrorCode} {s : State} {ss : List State}
    → Follows answers s ss
    → is_reset s ≡ true
    → ss ≡ s ∷ []
Follows-reset (stop h) e = refl
Follows-reset (step h f) e = cc

is_reset-reset : (s : State) → is_reset s ≡ true → s ≡ reset
is_reset-reset reset e = refl
is_reset-reset _ e = cc

last_step :
    (s : State) (code : State → ErrorCode)
    → is_reset s ≡ false
    → is_reset (next_state s (is_success (state_code code s))) ≡ true
    → ((s ≡ graceful_shutdown) × (code graceful_shutdown ≡ success)) ⊎ (s ≡ forceful_shutdown)
unfolding next_state state_code
last_step forceful_shutdown code h e = inr refl
last_step _ code h e = ground arith

Follows-EndsClean :
    {answers : State → ErrorCode} {s : State} {ss : List State}
    → Follows answers s ss
    → is_reset s ≡ false
    → EndsClean answers ss
Follows-EndsClean (stop h) e = cc
Follows-EndsClean {answers = answers} (step {s = s} {ss = ss} h f) e =
    elim (Bool-cases (is_reset (next_state s (is_success (state_code answers s))))) [
      | inl over ↦
          let alone = Follows-reset f over in
          let at_reset = is_reset-reset _ over in
          elim (last_step s answers h over) [
            | inl (graceful, confirmed) ↦ ([], inl (cc (graceful, alone, at_reset), confirmed))
            | inr forceful ↦ ([], inr (cc (forceful, alone, at_reset)))
          ]
      | inr going ↦
          let (before, shape) = Follows-EndsClean f going in
          (
            s ∷ before,
            elim shape [
              | inl (path, confirmed) ↦ inl (ap (◌∷◌ s) path, confirmed)
              | inr path ↦ inr (ap (◌∷◌ s) path)
            ],
          )
    ]

-- A test run always ends, whatever fails: each state leads to the one that its error code selects,
-- the exit code is the first error of the run, or success, and the last states are a shutdown that
-- every fragment confirmed, or the killing of the fragments, and then the reset.
pub run-EndsClean :
    (answers : State → ErrorCode)
    → (ss : List State) × (run answers ≡ some (ss, first_of_run answers success ss))
      × Follows answers init ss
      × EndsClean answers ss
unfolding run
run-EndsClean answers =
    let (ss, ends, follows) =
      run_from-Follows 13 answers success init (unfold rank in omega arith) in
    (ss, ends, follows, Follows-EndsClean follows refl)
