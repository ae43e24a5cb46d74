-- ===== src/Witnesses/HandshakeRuns.antt =====
-- framework/orchestrator.cpp with two fragments: the handshake, the wait for their answers, and the
-- shutdown.
use fall23_p.Prelude.{
  ℕ, some, List, true, ◌∷◌, ◌-◌, ◌<◌, ◌≡◌, false, suc, arith, inr, [], zero, refl, All, inl,
}
use mathlib.Core.Quot
use fall23_p.Framework.ErrorCode.{ErrorCode, success, ctrl_connection_broken}
use fall23_p.Framework.Buffer.{Buffer}
use fall23_p.Framework.Message.{MessageType, finalize}
use fall23_p.Framework.Message.Length.{payload_bytes}
use fall23_p.Framework.Fragment.Header
use fall23_p.Framework.Fragment.Handshake
use fall23_p.Framework.Orchestrator.Exchange.{check_header}
use fall23_p.Framework.Orchestrator.Agreement.{response-check_header}
use fall23_p.Framework.Orchestrator.Responses.{Round, events, foreach_fragment_recv_generic, answer}
use fall23_p.Framework.Orchestrator.Responses.Waiting.{
  Settles, foreach_fragment_recv_generic-Settles,
}
use fall23_p.Framework.Orchestrator.Responses.Answers.{IsReadable, answer-keeps}
use fall23_p.Framework.Orchestrator.Fragments.{Fragments, new_fragment, setup_ctrl_lambda}
use fall23_p.Framework.Orchestrator.Phases.{
  Sockets, acknowledge, ctrl_fds, run_state_graceful_shutdown, run_state_forceful_shutdown,
}
use fall23_p.Framework.Orchestrator.Phases.Shutdown.{silent_pids, run_state_graceful_shutdown-kills}
use fall23_p.Framework.Orchestrator.Handshake.Matching.{pids}
use fall23_p.Framework.Orchestrator.Handshake.Introductions.{pid_payload-Introduces}
use fall23_p.Framework.Orchestrator.Handshake.Assigning.{
  SocketBag, HasOwnSocket, Introduces, setup_ctrl-assigns,
}

abbrev zeros : Buffer
zeros i = 0

-- The process 1000 of the fragment 0 and the process 1001 of the fragment 1, before the handshake.
abbrev started : Fragments
started = record new_fragment { pid = some 1000 } ∷ record new_fragment { pid = some 1001 } ∷ []

-- After it.
abbrev connected : Fragments
connected =
    record new_fragment { pid = some 1000; fd_ctrl = some 4 }
    ∷ record new_fragment { pid = some 1001; fd_ctrl = some 5 }
    ∷ []

-- The acknowledgement of the fragment 0.
sealed :
    (m : Buffer) × (finalize (Header.prepare_header zeros 0 MessageType.shutdown success) ≡ some m)
    × (check_header m true 0 MessageType.shutdown ≡ some success)
unfolding payload_bytes
sealed =
    let (m, e, passes, _) =
      response-check_header zeros true 0 MessageType.shutdown (λ b. b) (omega arith) (λ i. inr refl)
        tt (omega arith) in
    (m, e, passes)

-- The fragment 0 acknowledges, and the connection to the other breaks.
abbrev acknowledgements : ℕ → ErrorCode × Buffer
acknowledgements zero = (success, sealed.0)
acknowledgements (suc i) = (ctrl_connection_broken, zeros)

acknowledgements-IsReadable : (i : ℕ) → IsReadable true MessageType.shutdown i (acknowledgements i)
acknowledgements-IsReadable zero = inr (success, sealed.2)
acknowledgements-IsReadable (suc i) = inl refl

abbrev rounds_of : (ℕ → ErrorCode × Buffer) → List Round
rounds_of receives = record { poll = events 2 (λ i. true); receives = receives; timer = 0 } ∷ []

abbrev Stays : List (ℕ × ErrorCode) → Fragments → Type 0
Stays log fs = fs ≡ connected

acknowledge-Stays :
    (i : ℕ) (r : ErrorCode × Buffer) (log : List (ℕ × ErrorCode)) (s : Fragments)
    → i < 2
    → IsReadable true MessageType.shutdown i r
    → Stays log s
    → (c : ErrorCode) × (s' : Fragments) × (answer true MessageType.shutdown acknowledge i r s
        ≡ some (c, s'))
      × Stays ((i, c) ∷ log) s'
acknowledge-Stays i (code, m) log s below readable same =
    answer-keeps true MessageType.shutdown acknowledge i m s code (λ c s'. Stays ((i, c) ∷ log) s')
      readable (λ c bad. same) (λ received checked. (success, s, refl, same))

foreach_fragment_recv_generic-Settles_example :
    (log : List (ℕ × ErrorCode)) × (code : ErrorCode) × (s' : Fragments)
    × (foreach_fragment_recv_generic true MessageType.shutdown acknowledge
          (some 4 ∷ some 5 ∷ [])
          5000
          (rounds_of acknowledgements)
          connected
        ≡ some (log, code, s'))
    × Stays log s'
    × Settles 2 log code
foreach_fragment_recv_generic-Settles_example =
    foreach_fragment_recv_generic-Settles true MessageType.shutdown acknowledge
      (some 4 ∷ some 5 ∷ []) Stays (IsReadable true MessageType.shutdown) acknowledge-Stays 5000
      (rounds_of acknowledgements) connected (refl, (refl, tt)) (acknowledgements-IsReadable, tt)
      (ground arith, tt) (inr (inl refl)) refl

abbrev shutdown_sockets : Sockets
shutdown_sockets = record {
  sends = λ i m. success;
  timers = λ i. 1000;
  rounds = rounds_of acknowledgements;
}

run_state_graceful_shutdown-kills_example :
    (log : List (ℕ × ErrorCode)) × (code : ErrorCode) × (fs : Fragments)
    × (run_state_graceful_shutdown shutdown_sockets 5000 connected zeros ≡ some (log, code, fs))
    × Settles 2 log code
    × (run_state_forceful_shutdown fs ≡ silent_pids log 0 connected)
    × (code ≡ success → run_state_forceful_shutdown fs ≡ [])
run_state_graceful_shutdown-kills_example =
    run_state_graceful_shutdown-kills shutdown_sockets 5000 connected zeros (refl, (refl, tt))
      (acknowledgements-IsReadable, tt) (ground arith, tt) (inr (inl refl)) (omega arith)

-- The second process has connected first.
abbrev pid_of : ℕ → ℕ
pid_of i = 1001 - i

introduction :
    (i : ℕ)
    → (m : Buffer) × (finalize
          (Handshake.pid_payload
            (pid_of i)
            (Header.prepare_header zeros 65535 MessageType.setup_ctrl success)).1
        ≡ some m)
      × Introduces pid_of i (success, m)
introduction i =
    pid_payload-Introduces zeros 65535 i (pid_of i) pid_of (omega arith) (omega arith) refl

abbrev introductions : ℕ → ErrorCode × Buffer
introductions i = (success, (introduction i).0)

setup_ctrl-assigns_example :
    (log : List (ℕ × ErrorCode)) × (code : ErrorCode) × (fs : Fragments)
    × (foreach_fragment_recv_generic false MessageType.setup_ctrl
          (setup_ctrl_lambda true (some 4 ∷ some 5 ∷ []))
          (some 4 ∷ some 5 ∷ [])
          5000
          (rounds_of introductions)
          started
        ≡ some (log, code, fs))
    × Settles 2 log code
    × (pids fs ≡ pids started)
    × All (HasOwnSocket (some 4 ∷ some 5 ∷ []) pid_of) fs
    × (code ≡ success
        → ◌≡◌ {A = SocketBag} (Quot.mk (ctrl_fds fs)) (Quot.mk (some 4 ∷ some 5 ∷ [])))
setup_ctrl-assigns_example =
    setup_ctrl-assigns (some 4 ∷ some 5 ∷ []) pid_of started 5000 (rounds_of introductions) refl
      (refl, (refl, tt)) (refl, (refl, tt)) ((λ i. (introduction i).2), tt) (ground arith, tt)
      (inr (inl refl))
