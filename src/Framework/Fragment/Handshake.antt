-- ===== src/Framework/Fragment/Handshake.antt =====
-- framework/fragment.cpp: the handshakes of a fragment on the two overlays, and what its destructors
-- close. What the sockets give is an argument; a failed assertion, or an attempt to connect that
-- outlives its turns, is the result `none`.
use fall23_p.Prelude.{
  ℕ, not, List, Bool, Option, true, ◌++◌, ◌∷◌, ◌==◌, ◌^◌, ◌-◌, [], false, some, none, ◌>>=◌,
  if◌then◌else◌,
}
use fall23_p.Framework.ErrorCode.{
  ErrorCode, success, is_success, socket_create_failed, socket_connect_failed,
}
use fall23_p.Framework.Buffer.{Buffer, write32}
use fall23_p.Framework.Message.{MessageType, get_fragment_id}
use fall23_p.Framework.Networking.Addresses.{Netaddr, netaddr_at}
use fall23_p.Framework.Networking.Server.{SocketCalls, socket}
use fall23_p.Framework.Networking.Connect.{
  ConnectCalls, Wait, ReturnCode, minus_one, connect_with_timeout,
}
use fall23_p.Framework.Fragment.Header.{recv_request, send_response, die_on_error}
use fall23_p.Framework.Fragment.Setup.{NodeSockets, Exchange, bare}

-- The state of the class that the handshakes change; `none` is -1.
pub record Fragment : Type 0 where
  pub fid : ℕ
  pub autotest_mode : Bool
  pub local_fd_ctrl : Option ℕ
  pub local_fd_pcap : Option ℕ
  pub orc_netaddr : Netaddr

unfoldable pub fragment : Netaddr → Fragment
fragment orc_netaddr = record {
  fid = 2 ^ 16 - 1;
  autotest_mode = false;
  local_fd_ctrl = none;
  local_fd_pcap = none;
  orc_netaddr = orc_netaddr;
}

-- What the system calls give that connect one socket.
pub record Connection : Type 0 where
  pub opens : SocketCalls
  pub connects : ConnectCalls
  pub waits : List Wait

-- The payload of a SETUP_CTRL response.
unfoldable pub pid_payload : ℕ → Buffer → ErrorCode × Buffer
pid_payload pid b = (success, write32 b 8 pid)

abbrev is_negative : ReturnCode → Bool
is_negative minus_one = true
is_negative _ = false

-- The socket, and what comes of it: `done` if the connection is made.
unfoldable pub connect_socket : Connection → ℕ → Option ErrorCode → Option ErrorCode
connect_socket c timeout done = elim (socket c.opens false true) [
  | none ↦ some socket_create_failed
  | some fd ↦
      (connect_with_timeout c.connects timeout c.waits >>= λ rc.
      if is_negative rc then some socket_connect_failed else done)
]

-- The lambda of the SETUP_CTRL request, after one that passes the check.
unfoldable pub setup_ctrl_request : Buffer → Fragment → Fragment
setup_ctrl_request m f = record f { fid = get_fragment_id m; autotest_mode = not (m 8 == 0) }

module _ (c : Connection) (timeout : ℕ) (f : Fragment) where
  -- `b` is the message buffer before the response.
  pub run_state_setup_ctrl : Exchange → ℕ → Buffer → Option (ErrorCode × Fragment)
  run_state_setup_ctrl ex pid b = do
    let f' = record f { local_fd_ctrl = socket c.opens false true }
    let asked = recv_request f.fid false true MessageType.setup_ctrl ex.received (λ m. some success)
    code ← connect_socket c timeout (
        die_on_error
          (send_response f.fid MessageType.setup_ctrl success b (pid_payload pid) ex.sends) asked)
    if is_success code then some (code, setup_ctrl_request ex.received.1 f') else some (code, f')

  -- The address to connect to: that of the request, at the orchestrator's own.
  unfoldable pub pcap_netaddr : Buffer → Netaddr
  pcap_netaddr m = record (netaddr_at m 8) { s_addr = f.orc_netaddr.s_addr }

  -- `ctrl` is the exchange on the ctrl overlay, and `pcap` the one on the pcap overlay, whose message
  -- buffer is `b`.
  pub run_state_setup_pcap : Exchange → Exchange → Buffer → Option (ErrorCode × Fragment)
  run_state_setup_pcap ctrl pcap b = do
    let f' = record f { local_fd_pcap = socket c.opens false true }
    code ←
        die_on_error
          (recv_request f.fid true true MessageType.setup_pcap ctrl.received (λ m. some success))
          (send_response f.fid MessageType.setup_pcap success ctrl.received.1 bare ctrl.sends)
    if not (is_success code)
        then some (code, f)
        else (connect_socket c timeout (
              die_on_error (send_response f.fid MessageType.setup_pcap success b bare pcap.sends) (
                recv_request f.fid true true MessageType.setup_pcap pcap.received
                  (λ m. some success)))
            >>= λ e. some (e, f'))

-- The descriptors that are not -1, in order.
unfoldable pub opened : List (Option ℕ) → List ℕ
opened [] = []
opened (fd ∷ fds) = let rest = opened fds in elim fd [ none ↦ rest | some n ↦ n ∷ rest ]

-- What the destructor of a context closes, and that of a fragment.
pub close_context : NodeSockets → List ℕ
close_context s = opened s.tx_socket_fds ++ (opened (s.tx_listen_fd ∷ []) ++ opened s.rx_socket_fds)

pub close_fragment : Fragment → List ℕ
close_fragment f = opened (f.local_fd_pcap ∷ f.local_fd_ctrl ∷ [])
