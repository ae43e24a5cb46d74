-- ===== src/Framework/Orchestrator/Handshake.antt =====
-- framework/orchestrator.cpp: the start of the fragments, and the handshakes on the two overlays. What
-- the system calls and the accept threads give is an argument.
pub mod Counting
pub mod Matching
pub mod Assigning
pub mod Introductions
use fall23_p.Prelude.{
  ◌+◌, ◌*◌, ◌/◌, ◌%◌, ◌∷◌, ◌==◌, ◌>>=◌, if◌then◌else◌, zero, suc, true, false, not, none, some,
  length, map, take, Bool, Option, List, replicate, ℕ, [],
}
use fall23_p.Framework.ErrorCode.{
  ErrorCode, success, is_success, fork_failed, socket_accept_failed, socket_accept_timeout,
}
use fall23_p.Framework.Buffer.{Buffer}
use fall23_p.Framework.Arrays.{write8, write_netaddr}
use fall23_p.Framework.Message.{MessageType}
use fall23_p.Framework.Networking.Addresses.{Netaddr, af_inet}
use fall23_p.Framework.Networking.Server.{AcceptedState, AcceptArgs, ServerCalls, server_setup}
use fall23_p.Framework.Orchestrator.Broadcast.{foreach_fragment_send_generic}
use fall23_p.Framework.Orchestrator.Responses.{Fd, Round, foreach_fragment_recv_generic}
use fall23_p.Framework.Orchestrator.Fragments.{
  Fragments, FragmentMetadata, new_fragment, setup_ctrl_lambda, setup_pcap_lambda,
}
use fall23_p.Framework.Orchestrator.Phases.{
  Sockets, acknowledge, no_payload, foreach_fragment_send_ctrl, foreach_fragment_recv_ctrl,
}

-- The loop that forks the fragments, from the fragment `idx` with `k` left: `forks` gives the process
-- number that fork returns to the parent, or `none` for a failure.
unfoldable pub fork_from : (ℕ → Option ℕ) → ℕ → ℕ → Bool × Fragments
fork_from forks idx zero = (true, [])
fork_from forks idx (suc k) =
    let others = fork_from forks (idx + 1) k in
    elim (forks idx) [
      | none ↦ (false, [])
      | some pid ↦ (others.0, record new_fragment { pid = some pid } ∷ others.1)
    ]

unfoldable pub start_fragments : Bool → (ℕ → Option ℕ) → ℕ → Bool × Fragments
start_fragments autotest_mode forks num_nodes =
    if autotest_mode then fork_from forks 0 num_nodes else (true, replicate num_nodes new_fragment)

-- The accepted sockets, in order.
abbrev pub accepted_fds : AcceptArgs → ℕ → List Fd
accepted_fds args n = take n (map AcceptedState.connection_fd args.states)

abbrev port_listen_ctrl : ℕ
port_listen_ctrl = 9107

abbrev port_listen_pcap : ℕ
port_listen_pcap = 9108

-- htons
abbrev htons : ℕ → ℕ
htons n = n % 256 * 256 + n / 256 % 256

abbrev any_address : ℕ → Netaddr
any_address port = record { sin_family = af_inet; sin_port = htons port; s_addr = 0 }

-- The payload of the SETUP_CTRL request.
unfoldable pub setup_ctrl_payload : Bool → ℕ → Buffer → Buffer
setup_ctrl_payload autotest_mode idx b = write8 b 8 (if autotest_mode then 1 else 0)

-- The checks after the accept thread has ended.
unfoldable pub accept_code : AcceptArgs → ℕ → ErrorCode
accept_code args num_nodes =
    if args.failed
    then socket_accept_failed
    else if not (args.num_accepted == num_nodes)
    then socket_accept_timeout
    else success

module _ (calls : ServerCalls) (args : AcceptArgs) (timeout num_nodes : ℕ) where
  pub run_state_setup_ctrl :
      Sockets → Bool → (ℕ → Option ℕ) → Buffer → Option (ErrorCode × Fragments)
  run_state_setup_ctrl net autotest_mode forks b =
      let listening = (server_setup calls (any_address port_listen_ctrl) num_nodes true none).0 in
      let started = start_fragments autotest_mode forks num_nodes in
      let accepted = accept_code args num_nodes in
      let fds = accepted_fds args (length started.1) in
      if not (is_success listening)
      then some (listening, [])
      else if not started.0
      then some (fork_failed, started.1)
      else if not (is_success accepted)
      then some (accepted, started.1)
      else (foreach_fragment_recv_generic false MessageType.setup_ctrl
            (setup_ctrl_lambda autotest_mode fds) fds timeout net.rounds started.1
          >>= λ (log, code, fs).
              if not (is_success code)
              then some (code, fs)
              else (foreach_fragment_send_ctrl net timeout MessageType.setup_ctrl
                    (setup_ctrl_payload autotest_mode) fs b
                  >>= λ (out, sent). some (sent, fs)))

  -- `net` are the ctrl sockets, and `pcap` the pcap sockets. A failure of the ctrl exchange stops the
  -- accept thread.
  pub run_state_setup_pcap : Sockets → Sockets → Fragments → Buffer → Option (ErrorCode × Fragments)
  run_state_setup_pcap net pcap fragments b =
      let listening = server_setup calls (any_address port_listen_pcap) num_nodes true none in
      let accepted = accept_code args num_nodes in
      let fds = accepted_fds args (length fragments) in
      if not (is_success listening.0)
      then some (listening.0, fragments)
      else (foreach_fragment_send_ctrl net timeout MessageType.setup_pcap
            (λ idx c. write_netaddr c 8 (any_address port_listen_pcap)) fragments b
          >>= λ (out, sent).
              if not (is_success sent)
              then some (sent, fragments)
              else (foreach_fragment_recv_ctrl net timeout MessageType.setup_pcap acknowledge
                    fragments
                  >>= λ (log, code, fs).
                      if not (is_success code)
                      then some (code, fs)
                      else if not (is_success accepted)
                      then some (accepted, fs)
                      else (foreach_fragment_recv_generic false MessageType.setup_pcap
                            (setup_pcap_lambda fds) fds timeout pcap.rounds fs
                          >>= λ (log', code', fs').
                              if not (is_success code')
                              then some (code', fs')
                              else (foreach_fragment_send_generic no_payload pcap.sends pcap.timers
                                    (length (map FragmentMetadata.fd_pcap fs'))
                                    MessageType.setup_pcap timeout b
                                  >>= λ (out', sent'). some (sent', fs')))))
