-- ===== src/Framework/Fragment/Machine.antt =====
-- framework/fragment.cpp, fragment::run: the states of a fragment, in their fixed order.
use fall23_p.Prelude.{
  ℕ, zero, suc, Bool, true, false, List, [], ◌∷◌, Option, none, some, if◌then◌else◌, ◌>>=◌, not,
  ◌&&◌, ◌≡◌, ◌≢◌, ◌↔◌, arith, Bool-cases, inl, inr, refl, length, ◌≤◌,
}
use fall23_p.Framework.ErrorCode.{
  ErrorCode, is_success, success, is_success-success, fails-not_success,
}

-- enum class state_t
pub data State : Type 0 where
  setup_ctrl setup_pcap create_topology start_mixnet_server start_mixnet_client : State
  resolve_mixnet_connections start_testcase run_testcase shutdown done : State

pub next_state : State → State
next_state setup_ctrl = setup_pcap
next_state setup_pcap = create_topology
next_state create_topology = start_mixnet_server
next_state start_mixnet_server = start_mixnet_client
next_state start_mixnet_client = resolve_mixnet_connections
next_state resolve_mixnet_connections = start_testcase
next_state start_testcase = run_testcase
next_state run_testcase = shutdown
next_state shutdown = done
next_state done = done

abbrev pub is_done : State → Bool
is_done done = true
is_done _ = false

-- How the loop ends: the state after it, the last error code, and the states gone through.
pub record Ended : Type 0 where
  pub last : State
  pub code : ErrorCode
  pub visited : List State

-- The do-while loop on fuel; `answers` is the error code of the function of each state.
pub run_from : ℕ → (State → ErrorCode) → State → Option Ended
run_from zero answers s = none
run_from (suc fuel) answers s =
    let rest = run_from fuel answers (next_state s) in
    let code = answers s in
    if not (is_done (next_state s)) && is_success code
    then (rest >>= λ r. some (record r { visited = s ∷ r.visited }))
    else some (record { last = next_state s; code = code; visited = s ∷ [] })

-- What run does after the loop: it returns, or it spins in `while(true) {}` until it is killed.
pub data Exit : Type 0 where
  returns spins : Exit

pub exit_of : Bool → ErrorCode → Exit
exit_of autotest_mode code =
    if is_success code then returns else if autotest_mode then spins else returns

-- `autotest_mode` is the mode after the loop. Ten rounds suffice: nine states come before `done`.
pub run : Bool → (State → ErrorCode) → Option (Ended × Exit)
unfolding run_from next_state exit_of
run autotest_mode answers =
    run_from 10 answers setup_ctrl >>= λ r. some (r, exit_of autotest_mode r.code)

-- The states before `done`, in the order in which a fragment goes through them.
abbrev pub protocol : List State
protocol =
    setup_ctrl ∷ setup_pcap ∷ create_topology ∷ start_mixnet_server ∷ start_mixnet_client
    ∷ resolve_mixnet_connections ∷ start_testcase ∷ run_testcase ∷ shutdown ∷ []

-- The states up to the first that fails, and its error code.
abbrev pub up_to_failure : (State → ErrorCode) → List State → List State × ErrorCode
up_to_failure answers [] = ([], success)
up_to_failure answers (s ∷ ss) =
    let rest = up_to_failure answers ss in
    elim (is_success (answers s)) [ true ↦ (s ∷ rest.0, rest.1) | false ↦ (s ∷ [], answers s) ]

-- The loop ends, having entered the states of `ss` up to the first that fails.
abbrev Meets : (State → ErrorCode) → List State → Option Ended → Type 0
Meets answers ss m = (r : Ended) × (m ≡ some r) × ((r.visited, r.code) ≡ up_to_failure answers ss)

run_from-Meets :
    (answers : State → ErrorCode) (fuel : ℕ) (s : State) (ss : List State)
    → is_done (next_state s) ≡ false
    → Meets answers ss (run_from fuel answers (next_state s))
    → Meets answers (s ∷ ss) (run_from (suc fuel) answers s)
unfolding run_from
run_from-Meets answers fuel s ss more (r, e, met) = elim (Bool-cases (is_success (answers s))) [
  | inl ok ↦ (record r { visited = s ∷ r.visited }, rw (more, ok, e), ground (arith, met))
  | inr fails ↦ (
    record { last = next_state s; code = answers s; visited = s ∷ [] },
    rw (more, fails),
    ground arith,
  )
]

-- The states of the list follow one another, up to `done`.
data Leads : State → List State → Type 0 where
  final : {s : State} → is_done (next_state s) ≡ true → Leads s (s ∷ [])
  more :
      {s : State} {ss : List State}
      → is_done (next_state s) ≡ false
      → Leads (next_state s) ss
      → Leads s (s ∷ ss)

Leads-Meets :
    (answers : State → ErrorCode) (fuel : ℕ) {s : State} {ss : List State}
    → Leads s ss
    → length ss ≤ fuel
    → Meets answers ss (run_from fuel answers s)
unfolding run_from
Leads-Meets answers zero (final e) h = absurd (omega arith)
Leads-Meets answers zero (more e l) h = absurd (omega arith)
Leads-Meets answers (suc fuel) (final {s = s} e) h =
    (record { last = next_state s; code = answers s; visited = s ∷ [] }, rw e, ground arith)
Leads-Meets answers (suc fuel) (more {s = s} {ss = ss} e l) h =
    run_from-Meets answers fuel s ss e (Leads-Meets answers fuel l (omega arith))

setup_ctrl-Leads : Leads setup_ctrl protocol
unfolding next_state
setup_ctrl-Leads =
    more refl (
      more refl
        (more refl (more refl (more refl (more refl (more refl (more refl (final refl))))))))

exit_of-spins :
    (autotest_mode : Bool) (code : ErrorCode)
    → (exit_of autotest_mode code ≡ spins) ↔ ((autotest_mode ≡ true) × (code ≢ success))
unfolding exit_of
exit_of-spins autotest_mode code = elim (Bool-cases (is_success code)) [
  | inl ok ↦ rw ok ((λ e. absurd (cc)), (λ x. absurd (x.1 (is_success-success code ok))))
  | inr fails ↦ ground (arith, fails, fails-not_success fails)
]

-- The loop of `run` ends, in whatever way its states do: it goes through the states of the protocol in
-- order, up to the first that fails or to the end, and its error code is that of this state, or success.
-- After the loop `run` never returns, and waits to be killed, exactly if there was an error in autotest
-- mode.
pub run-protocol :
    (autotest_mode : Bool) (answers : State → ErrorCode)
    → (r : Ended) × (exit : Exit) × (run autotest_mode answers ≡ some (r, exit))
      × ((r.visited, r.code) ≡ up_to_failure answers protocol)
      × ((exit ≡ spins) ↔ ((autotest_mode ≡ true) × (r.code ≢ success)))
unfolding run
run-protocol autotest_mode answers =
    let (r, e, met) = Leads-Meets answers 10 setup_ctrl-Leads (omega arith) in
    (r, exit_of autotest_mode r.code, rw e refl, met, exit_of-spins autotest_mode r.code)
