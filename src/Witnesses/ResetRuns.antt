-- ===== src/Witnesses/ResetRuns.antt =====
-- framework/orchestrator.cpp: the reset after a run with two fragments.
use fall23_p.Prelude.{ℕ, ◌≡◌, ◌∷◌, true, false, some, List, [], Bool}
use fall23_p.Framework.ErrorCode.{recv_wait_timeout}
use fall23_p.Framework.Orchestrator.Fragments.{new_fragment}
use fall23_p.Framework.Orchestrator.Handshake.Counting.{occurrences}
use fall23_p.Framework.Orchestrator.Reset.{Orchestrator, orchestrator, configure, run_state_reset}
use fall23_p.Framework.Orchestrator.Reset.Closing.{held, closed, IsFresh, run_state_reset-closes}

-- One fragment has no pcap socket.
abbrev after_run : Orchestrator
after_run = record orchestrator {
  fragments =
      record new_fragment { fd_ctrl = some 5; fd_pcap = some 7 }
      ∷ record new_fragment { fd_ctrl = some 6 }
      ∷ [];
  listen_fd_ctrl = some 3;
  listen_fd_pcap = some 4;
  pcap_thread_run = false;
  pcap_thread_error = recv_wait_timeout;
  is_configured = true;
}

run_state_reset-closes_example :
    IsFresh orchestrator
    × IsFresh (run_state_reset after_run).1
    × ((fd : ℕ) → closed fd (run_state_reset after_run).0 ≡ occurrences (some fd) (held after_run))
    × ((run_state_reset after_run).1.is_configured ≡ true)
    × ((bin_dir : List ℕ) (autotest_mode : Bool)
        → configure bin_dir autotest_mode (run_state_reset after_run).1
          ≡ (run_state_reset (configure bin_dir autotest_mode after_run)).1)
run_state_reset-closes_example = run_state_reset-closes after_run
