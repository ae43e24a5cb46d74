-- ===== src/Framework/Orchestrator/Phases.antt =====
-- framework/orchestrator.cpp: the states of a test run that send a request to every fragment and wait
-- for the answers, and the shutdown. What the sockets do is an argument; the result `none` stands for
-- a failed assertion, a read out of bounds, or rounds that are over before the wait is.
pub mod Shutdown
use fall23_p.Prelude.{
  ℕ, zero, suc, ◌+◌, ◌-◌, ◌*◌, ◌==◌, ◌&&◌, ◌||◌, not, leb, ltb, Bool, true, false, List, [], ◌∷◌,
  Option, none, some, if◌then◌else◌, ◌>>=◌, length, load, store, map, ◌++◌,
}
use fall23_p.Framework.ErrorCode.{
  ErrorCode, success, is_success, fragment_invalid_saddr, socket_options_failed,
  fragment_bad_neighbor_count, fragment_invalid_caddr,
}
use fall23_p.Framework.Buffer.{Buffer, read16}
use fall23_p.Framework.Message.{MessageType}
use fall23_p.Framework.Networking.Addresses.{Netaddr, netaddr_at, af_inet}
use fall23_p.Framework.Orchestrator.Broadcast.{foreach_fragment_send_generic}
use fall23_p.Framework.Orchestrator.Responses.{Fd, Round, foreach_fragment_recv_generic}
use fall23_p.Framework.Orchestrator.Fragments.{
  Fragments, FragmentMetadata, shutdown_lambda, destroy_fragments,
}

-- What the sockets of the fragments do in one state: the code of each send, the time left after it,
-- and the rounds of the wait.
pub record Sockets : Type 0 where
  pub sends : ℕ → Buffer → ErrorCode
  pub timers : ℕ → ℕ
  pub rounds : List Round

-- The lambda that takes an acknowledgement.
abbrev pub acknowledge : ℕ → Buffer → Fragments → Option (ErrorCode × Fragments)
acknowledge idx m fragments = some (success, fragments)

-- A request without a payload.
abbrev pub no_payload : ℕ → Buffer → Buffer
no_payload idx b = b

abbrev pub ctrl_fds : Fragments → List Fd
ctrl_fds fragments = map FragmentMetadata.fd_ctrl fragments

module _ (net : Sockets) (timeout : ℕ) where
  -- The wait for the answers over the ctrl sockets.
  unfoldable pub foreach_fragment_recv_ctrl :
      MessageType
      → (ℕ → Buffer → Fragments → Option (ErrorCode × Fragments))
      → Fragments
      → Option (List (ℕ × ErrorCode) × ErrorCode × Fragments)
  foreach_fragment_recv_ctrl type lambda fragments =
      foreach_fragment_recv_generic true type lambda (ctrl_fds fragments) timeout net.rounds
        fragments

  -- The request over the ctrl sockets.
  unfoldable pub foreach_fragment_send_ctrl :
      MessageType
      → (ℕ → Buffer → Buffer)
      → Fragments
      → Buffer
      → Option (List (ℕ × Buffer) × ErrorCode)
  foreach_fragment_send_ctrl type fill fragments b =
      foreach_fragment_send_generic fill net.sends net.timers (length (ctrl_fds fragments)) type
        timeout b

  -- A state that goes on only if every request was sent.
  unfoldable pub request_all :
      MessageType
      → (ℕ → Buffer → Buffer)
      → (ℕ → Buffer → Fragments → Option (ErrorCode × Fragments))
      → Fragments
      → Buffer
      → Option (List (ℕ × ErrorCode) × ErrorCode × Fragments)
  request_all type fill lambda fragments b =
      foreach_fragment_send_ctrl type fill fragments b >>= λ (out, code).
      if not (is_success code)
      then some ([], code, fragments)
      else foreach_fragment_recv_ctrl type lambda fragments

  unfoldable pub run_state_start_testcase :
      Fragments → Buffer → Option (List (ℕ × ErrorCode) × ErrorCode × Fragments)
  run_state_start_testcase = request_all MessageType.start_testcase no_payload acknowledge

  unfoldable pub run_state_end_testcase :
      Fragments → Buffer → Option (List (ℕ × ErrorCode) × ErrorCode × Fragments)
  run_state_end_testcase = request_all MessageType.end_testcase no_payload acknowledge

  -- The result of the send is ignored.
  unfoldable pub run_state_graceful_shutdown :
      Fragments → Buffer → Option (List (ℕ × ErrorCode) × ErrorCode × Fragments)
  run_state_graceful_shutdown fragments b =
      foreach_fragment_send_ctrl MessageType.shutdown no_payload fragments b >>= λ sent.
      foreach_fragment_recv_ctrl MessageType.shutdown shutdown_lambda fragments

-- The processes that are killed.
unfoldable pub run_state_forceful_shutdown : Fragments → List ℕ
run_state_forceful_shutdown fragments = destroy_fragments fragments
