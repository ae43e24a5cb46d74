-- ===== src/Framework/Orchestrator/Reset.antt =====
-- framework/orchestrator.h and framework/orchestrator.cpp: the orchestrator's own state, its
-- configuration, and the reset after a test run. A failed assertion is the result `none`.
pub mod Closing
use fall23_p.Prelude.{[], ℕ, Option, Bool, List, ◌∷◌, true, if◌then◌else◌, some, ◌*◌, none, false}
use fall23_p.Framework.ErrorCode.{ErrorCode, success}
use fall23_p.Framework.Orchestrator.Responses.{Fd}
use fall23_p.Framework.Orchestrator.Fragments.{Fragments, FragmentMetadata}

-- The fields of the class, without its buffers, its thread, the state of the loop in run and the
-- current test case.
pub record Orchestrator : Type 0 where
  pub fragments : Fragments
  pub pcap_thread_run : Bool
  pub pcap_thread_error : ErrorCode
  pub listen_fd_ctrl : Fd
  pub listen_fd_pcap : Fd
  pub is_configured : Bool
  pub fragment_dir : List ℕ
  pub autotest_mode : Bool
  pub timeout_connect_ms : ℕ
  pub timeout_communication_ms : ℕ

abbrev default_wait_time_ms : ℕ
default_wait_time_ms = 5000

unfoldable pub orchestrator : Orchestrator
orchestrator = record {
  fragments = [];
  pcap_thread_run = true;
  pcap_thread_error = success;
  listen_fd_ctrl = none;
  listen_fd_pcap = none;
  is_configured = false;
  fragment_dir = [];
  autotest_mode = false;
  timeout_connect_ms = default_wait_time_ms;
  timeout_communication_ms = default_wait_time_ms;
}

-- `bin_dir` is a path, by its characters' numbers.
unfoldable pub configure : List ℕ → Bool → Orchestrator → Orchestrator
configure bin_dir autotest_mode o = record o {
  fragment_dir = bin_dir;
  autotest_mode = autotest_mode;
  timeout_communication_ms = if autotest_mode then o.timeout_communication_ms else 5000;
  timeout_connect_ms = if autotest_mode then o.timeout_connect_ms else 10 * 60 * 1000;
  is_configured = true;
}

unfoldable pub run_state_init : Orchestrator → Option ErrorCode
run_state_init o = elim (o.fragments) [ [] ↦ some success | _ ∷ _ ↦ none ]

-- A descriptor that is closed if it is not -1, before the others.
abbrev pub close_before : Fd → List ℕ → List ℕ
close_before none rest = rest
close_before (some fd) rest = fd ∷ rest

-- The descriptors that are closed for the fragments, in order, and then `rest`.
unfoldable pub close_fragments : Fragments → List ℕ → List ℕ
close_fragments [] rest = rest
close_fragments (f ∷ fs) rest =
    close_before f.fd_ctrl (close_before f.fd_pcap (close_fragments fs rest))

unfoldable pub destroy_sockets : Orchestrator → List ℕ
destroy_sockets o =
    close_fragments o.fragments (close_before o.listen_fd_pcap (close_before o.listen_fd_ctrl []))

-- The descriptors closed, and the state after.
unfoldable pub run_state_reset : Orchestrator → List ℕ × Orchestrator
run_state_reset o = (
  destroy_sockets o,
  record o {
    pcap_thread_error = success;
    pcap_thread_run = true;
    listen_fd_ctrl = none;
    listen_fd_pcap = none;
    fragments = [];
  },
)
