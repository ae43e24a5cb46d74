-- ===== src/Framework/Fragment/Setup.antt =====
-- framework/fragment.cpp: how a fragment builds its node's context and its connections. What the
-- sockets and the accept thread give is an argument. A failed assertion or a read out of bounds is the
-- result `none`.
use fall23_p.Prelude.{
  ◌+◌, ◌-◌, ◌^◌, zero, suc, ◌∷◌, ◌==◌, ◌>>=◌, if◌then◌else◌, true, false, not, none, some, take,
  Bool, Option, List, replicate, [], ℕ,
}
use fall23_p.Mixnet.Config.{NodeConfig}
use fall23_p.Framework.ErrorCode.{
  socket_accept_timeout, socket_options_failed, ErrorCode, success, is_success,
  socket_create_failed, socket_connect_failed, fragment_bad_neighbor_count, fragment_exception,
}
use fall23_p.Framework.Buffer.{Buffer, read16, read32}
use fall23_p.Framework.Arrays.{netaddrs_payload, write_netaddr, read16s, read_netaddrs}
use fall23_p.Framework.Message.{MessageType}
use fall23_p.Framework.Networking.Addresses.{af_inet, Netaddr, no_netaddr, equal_netaddrs}
use fall23_p.Framework.Networking.Server.{AcceptArgs, ServerCalls, server_setup, AcceptedState}
use fall23_p.Framework.Fragment.Header.{recv_request, send_response, die_on_error}
use fall23_p.Framework.Fragment.NodeContext.{NodeContext}

-- The sockets of struct node_context.
pub record NodeSockets : Type 0 where
  pub tx_listen_fd : Option ℕ
  pub tx_socket_fds : List (Option ℕ)
  pub tx_server_netaddr : Netaddr
  pub rx_socket_fds : List (Option ℕ)
  pub neighbor_netaddrs : List Netaddr

unfoldable pub topology_config : Buffer → NodeConfig
topology_config m = record {
  node_addr = read16 m 8;
  num_neighbors = read16 m 10;
  root_hello_interval_ms = read32 m 16;
  reelection_interval_ms = read32 m 20;
  do_random_routing = not (m 12 == 0);
  mixing_factor = read16 m 14;
  link_costs = read16s m 24 (read16 m 10);
}

-- The context from a TOPOLOGY request; without neighbours every list is empty.
unfoldable pub init_node_context : Buffer → NodeContext × NodeSockets
init_node_context m =
    let n = read16 m 10 in
    (
      record {
        config = topology_config m;
        rx_port_idx = 0;
        link_states = replicate n true;
        is_pcap_subscribed = false;
      },
      record {
        tx_listen_fd = none;
        tx_socket_fds = replicate n none;
        tx_server_netaddr = no_netaddr;
        rx_socket_fds = replicate n none;
        neighbor_netaddrs = replicate n no_netaddr;
      },
    )

-- A response without a payload.
abbrev pub bare : Buffer → ErrorCode × Buffer
bare b = (success, b)

-- What a fragment gets and sends in one state: what the receive gives and leaves in the buffer, and
-- the code of the send.
pub record Exchange : Type 0 where
  pub received : ErrorCode × Buffer
  pub sends : Buffer → ErrorCode

module _ (fid : ℕ) (ex : Exchange) where
  -- A request of the type, and its lambda; then a response of the type.
  unfoldable pub serve_request :
      MessageType → (Buffer → Option ErrorCode) → (Buffer → ErrorCode × Buffer) → Option ErrorCode
  serve_request type apply fill =
      die_on_error (recv_request fid true true type ex.received apply)
        (send_response fid type success ex.received.1 fill ex.sends)

  unfoldable pub run_state_create_topology : Option (ErrorCode × Option (NodeContext × NodeSockets))
  run_state_create_topology = do
    requested ← recv_request fid true true MessageType.topology ex.received (λ m. some success)
    if not (is_success requested)
        then some (requested, none)
        else (send_response fid MessageType.topology success ex.received.1 bare ex.sends >>= λ sent.
            some (sent, some (init_node_context ex.received.1)))

  unfoldable pub run_state_start_testcase : Option ErrorCode
  run_state_start_testcase = serve_request MessageType.start_testcase (λ m. some success) bare

  -- The context is destroyed after a response that was sent.
  unfoldable pub run_state_do_shutdown :
      Option NodeContext → Option (ErrorCode × Option NodeContext)
  run_state_do_shutdown ctx = do
    code ← serve_request MessageType.shutdown (λ m. some success) bare
    some (code, if is_success code then none else ctx)

-- The lambda of START_MIXNET_CLIENTS, and the addresses that it leaves.
unfoldable pub client_lambda : ℕ → Buffer → ErrorCode
client_lambda num_neighbors m =
    if not (num_neighbors == read16 m 8) then fragment_bad_neighbor_count else success

unfoldable pub client_netaddrs : ℕ → Buffer → List Netaddr
client_netaddrs num_neighbors m = read_netaddrs m 16 num_neighbors

-- The loop that connects to the neighbours, from the neighbour `nid`: `links` says for each which
-- socket is made and whether it connects. The result is the error code and the sockets made so far.
unfoldable pub connect_from : (ℕ → Option ℕ × Bool) → ℕ → ℕ → ErrorCode × List (Option ℕ)
connect_from links nid zero = (success, [])
connect_from links nid (suc k) =
    let others = connect_from links (nid + 1) k in
    elim ((links nid).0) [
      | none ↦ (socket_create_failed, none ∷ [])
      | some fd ↦
          if (links nid).1
          then (others.0, some fd ∷ others.1)
          else (socket_connect_failed, some fd ∷ [])
    ]

-- The addresses that getsockname gives, from the neighbour `nid` to the first failure.
unfoldable pub names_from : (ℕ → Option Netaddr) → ℕ → ℕ → Bool × List Netaddr
names_from names nid zero = (true, [])
names_from names nid (suc k) =
    let others = names_from names (nid + 1) k in
    elim (names nid) [ none ↦ (false, []) | some a ↦ (others.0, a ∷ others.1) ]

-- The socket of the first accepted connection from an address, among the neighbours' connections.
unfoldable pub find_connection : List AcceptedState → Netaddr → Option (Option ℕ)
find_connection [] a = none
find_connection (s ∷ states) a =
    let rest = find_connection states a in
    if equal_netaddrs s.address a then some s.connection_fd else rest

-- One neighbour, before the others.
abbrev assign : Option (Option ℕ) → ErrorCode × List (Option ℕ) → ErrorCode × List (Option ℕ)
assign none others = (fragment_exception, [])
assign (some fd) (code, fds) = (code, fd ∷ fds)

-- The loop over the neighbours: the error code and the sockets assigned so far.
unfoldable pub resolve_all : List AcceptedState → List Netaddr → ErrorCode × List (Option ℕ)
resolve_all states [] = (success, [])
resolve_all states (a ∷ as') = assign (find_connection states a) (resolve_all states as')

-- The lambda of RESOLVE_MIXNET_CONNS.
unfoldable pub resolve_lambda : ℕ → AcceptArgs → Buffer → ErrorCode × List (Option ℕ)
resolve_lambda num_neighbors args m =
    if not (read16 m 8 == num_neighbors)
    then (fragment_bad_neighbor_count, [])
    else resolve_all (take num_neighbors args.states) (read_netaddrs m 16 num_neighbors)

module _ (fid : ℕ) (ex : Exchange) (ctx : NodeContext) (socks : NodeSockets) where
  -- The address of the server is sent with an address that the orchestrator replaces.
  unfoldable pub server_response : Netaddr → Buffer → ErrorCode × Buffer
  server_response a b = (success, write_netaddr b 8 (record a { s_addr = 2 ^ 32 - 1 }))

  -- `calls` is what the system calls give that set the server up.
  unfoldable pub run_state_start_mixnet_server : ServerCalls → Option (ErrorCode × NodeSockets)
  run_state_start_mixnet_server calls = do
    requested ←
        recv_request fid true true MessageType.start_mixnet_server ex.received (λ m. some success)
    let own = record (socks.tx_server_netaddr) { sin_family = af_inet; s_addr = 0 }
    let made = server_setup calls own ctx.config.num_neighbors false socks.tx_listen_fd
    let socks' = record socks { tx_listen_fd = made.1; tx_server_netaddr = made.2 }
    if not (is_success requested)
        then some (requested, socks)
        else if not (is_success made.0)
        then some (made.0, socks')
        else (send_response fid MessageType.start_mixnet_server success ex.received.1
              (server_response made.2) ex.sends
            >>= λ sent. some (sent, socks'))

  -- The addresses of the sockets that lead to the neighbours.
  unfoldable pub clients_response : (ℕ → Option Netaddr) → Buffer → ErrorCode × Buffer
  clients_response names b =
      let named = names_from names 0 ctx.config.num_neighbors in
      (if named.0 then success else socket_options_failed, netaddrs_payload named.1 b)

  -- `args` is what the accept thread leaves, and `names` what getsockname gives for each socket.
  unfoldable pub run_state_start_mixnet_client :
      (ℕ → Option ℕ × Bool) → AcceptArgs → (ℕ → Option Netaddr) → Option (ErrorCode × NodeSockets)
  run_state_start_mixnet_client links args names = do
    requested ←
        recv_request fid true true MessageType.start_mixnet_clients ex.received
          (λ m. some (client_lambda ctx.config.num_neighbors m))
    let connected = connect_from links 0 ctx.config.num_neighbors
    let socks' = record socks {
      neighbor_netaddrs = client_netaddrs ctx.config.num_neighbors ex.received.1;
      rx_socket_fds = connected.1;
    }
    if not (is_success requested)
        then some (requested, socks)
        else if not (is_success connected.0)
        then some (connected.0, socks')
        else if not (args.num_accepted == ctx.config.num_neighbors)
        then some (socket_accept_timeout, socks')
        else (send_response fid MessageType.start_mixnet_clients success ex.received.1
              (clients_response names) ex.sends
            >>= λ sent. some (sent, socks'))

  -- The sockets assigned before a failure, which ends the fragment, are left out.
  unfoldable pub run_state_resolve_mixnet_connections :
      AcceptArgs → Option (ErrorCode × NodeSockets)
  run_state_resolve_mixnet_connections args = do
    requested ←
        recv_request fid true true MessageType.resolve_mixnet_conns ex.received
          (λ m. some (resolve_lambda ctx.config.num_neighbors args m).0)
    let socks' = record socks {
      tx_socket_fds = (resolve_lambda ctx.config.num_neighbors args ex.received.1).1;
    }
    if not (is_success requested)
        then some (requested, socks)
        else (send_response fid MessageType.resolve_mixnet_conns success ex.received.1 bare ex.sends
            >>= λ sent. some (sent, socks'))
