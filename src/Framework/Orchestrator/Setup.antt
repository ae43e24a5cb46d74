-- ===== src/Framework/Orchestrator/Setup.antt =====
-- framework/orchestrator.cpp and testing/common/testcase.h: the states that build the Mixnet topology.
-- The orchestrator calls the lambdas for the fragments' numbers only, so that no read of theirs is out
-- of bounds; where there is no node of a number, the payload is that of a node without neighbours.
pub mod Payload
pub mod Config
pub mod Clients
pub mod Lookup
pub mod Connections
use fall23_p.Prelude.{
  ◌^◌, ◌-◌, ◌>>=◌, ◌||◌, ◌+◌, ◌∷◌, ◌++◌, ◌==◌, if◌then◌else◌, zero, suc, true, false, not, none,
  some, length, load, store, take, Bool, Option, List, [], ℕ,
}
use fall23_p.Framework.ErrorCode.{
  ErrorCode, success, fragment_invalid_saddr, socket_options_failed, fragment_bad_neighbor_count,
  fragment_invalid_caddr,
}
use fall23_p.Framework.Buffer.{Buffer, read16, write16, write32}
use fall23_p.Framework.Arrays.{write8, write16s, netaddrs_payload}
use fall23_p.Framework.Message.{MessageType}
use fall23_p.Framework.Networking.Addresses.{Netaddr, no_netaddr, netaddr_at, af_inet}
use fall23_p.Framework.Orchestrator.Commands.{find_from}
use fall23_p.Framework.Orchestrator.Fragments.{Fragments, FragmentMetadata}
use fall23_p.Framework.Orchestrator.Phases.{Sockets, acknowledge, no_payload, request_all}
use fall23_p.Testing.Graph.{Graph, GraphNode}

-- class testcase, as far as the orchestrator reads it.
pub record Testcase : Type 0 where
  pub graph : Graph
  pub root_hello_interval_ms : ℕ
  pub reelection_interval_ms : ℕ

-- The payload of a TOPOLOGY request: a link cost for each neighbour.
unfoldable pub topology_payload : Testcase → GraphNode → List ℕ → Buffer → Buffer
topology_payload tc node row b =
    write16s
      (write32
        (write32
          (write16
            (write8 (write16 (write16 b 8 node.mixaddr) 10 (length row)) 12
              (if node.do_random_routing then 1 else 0))
            14 node.mixing_factor)
          16 tc.root_hello_interval_ms)
        20 tc.reelection_interval_ms)
      24 (take (length row) node.link_costs)

abbrev no_node : GraphNode
no_node = record {
  mixing_factor = 1;
  do_random_routing = false;
  link_costs = [];
  mixaddr = 2 ^ 16 - 1;
}

abbrev fill_topology : Testcase → Option GraphNode → Option (List ℕ) → Buffer → Buffer
fill_topology tc (some node) (some row) b = topology_payload tc node row b
fill_topology tc _ _ b = topology_payload tc no_node [] b

unfoldable pub topology_lambda : Testcase → ℕ → Buffer → Buffer
topology_lambda tc idx b = fill_topology tc (load tc.graph.nodes idx) (load tc.graph.topology idx) b

-- The checks of a server's and of a client's address.
unfoldable pub is_invalid : Netaddr → Bool
is_invalid a = not (a.sin_family == af_inet) || (a.s_addr == 0) || (a.sin_port == 0)

abbrev is_empty : List ℕ → Bool
is_empty [] = true
is_empty _ = false

-- `peer` is the address that getpeername gives.
abbrev store_server : Option ℕ → Netaddr → ℕ → Fragments → Option (ErrorCode × Fragments)
store_server none a idx fragments = some (socket_options_failed, fragments)
store_server (some base) a idx fragments = do
  f ← load fragments idx
  fs ← store fragments idx (record f { mixnet_server_netaddr = record a { s_addr = base } })
  some (success, fs)

-- The lambda of START_MIXNET_SERVER.
unfoldable pub start_server_lambda :
    List (List ℕ) → (ℕ → Option ℕ) → ℕ → Buffer → Fragments → Option (ErrorCode × Fragments)
start_server_lambda topology peernames idx m fragments = do
  row ← load topology idx
  if is_empty row
      then some (success, fragments)
      else if is_invalid (netaddr_at m 8)
      then some (fragment_invalid_saddr, fragments)
      else store_server (peernames idx) (netaddr_at m 8) idx fragments

abbrev server_of : Option FragmentMetadata → Netaddr
server_of none = no_netaddr
server_of (some f) = f.mixnet_server_netaddr

abbrev neighbors_of : Option (List ℕ) → List ℕ
neighbors_of none = []
neighbors_of (some row) = row

-- The servers of the neighbours of a node, in the order of its neighbours.
unfoldable pub neighbor_servers : Fragments → List ℕ → List Netaddr
neighbor_servers fragments [] = []
neighbor_servers fragments (j ∷ row) = server_of (load fragments j) ∷ neighbor_servers fragments row

unfoldable pub start_clients_payload : List (List ℕ) → Fragments → ℕ → Buffer → Buffer
start_clients_payload topology fragments idx =
    netaddrs_payload (neighbor_servers fragments (neighbors_of (load topology idx)))

-- The loop over the addresses of an answer, `n` of them at the offset `o`.
unfoldable pub take_clients : Buffer → ℕ → ℕ → List Netaddr → ErrorCode × List Netaddr
take_clients m o zero got = (success, got)
take_clients m o (suc n) got =
    let rest = take_clients m (o + 16) n (got ++ netaddr_at m o ∷ []) in
    if is_invalid (netaddr_at m o) then (fragment_invalid_caddr, got) else rest

-- The lambda of START_MIXNET_CLIENTS.
unfoldable pub start_clients_lambda :
    List (List ℕ) → ℕ → Buffer → Fragments → Option (ErrorCode × Fragments)
start_clients_lambda topology idx m fragments = do
  row ← load topology idx
  if not (read16 m 8 == length row) then some (fragment_bad_neighbor_count, fragments) else (do
    f ← load fragments idx
    let taken = take_clients m 16 (length row) f.mixnet_client_netaddrs
    fs ← store fragments idx (record f { mixnet_client_netaddrs = taken.1 })
    some (taken.0, fs))

-- The address from which the neighbour `j` of the node `idx` receives its data.
unfoldable pub client_of : List (List ℕ) → Fragments → ℕ → ℕ → Option Netaddr
client_of topology fragments idx j = do
  row ← load topology j
  nid ← find_from row idx 0
  f ← load fragments j
  load f.mixnet_client_netaddrs nid

unfoldable pub neighbor_clients : List (List ℕ) → Fragments → ℕ → List ℕ → Option (List Netaddr)
neighbor_clients topology fragments idx [] = some []
neighbor_clients topology fragments idx (j ∷ row) = do
  a ← client_of topology fragments idx j
  rest ← neighbor_clients topology fragments idx row
  some (a ∷ rest)

-- The addresses for all nodes from the node `idx`, whose neighbours head `rows`.
unfoldable pub all_clients :
    List (List ℕ) → Fragments → ℕ → List (List ℕ) → Option (List (List Netaddr))
all_clients topology fragments idx [] = some []
all_clients topology fragments idx (row ∷ rows) = do
  clients ← neighbor_clients topology fragments idx row
  rest ← all_clients topology fragments (idx + 1) rows
  some (clients ∷ rest)

abbrev clients_payload : Option (List Netaddr) → Buffer → Buffer
clients_payload none b = netaddrs_payload [] b
clients_payload (some clients) b = netaddrs_payload clients b

unfoldable pub resolve_payload : List (List Netaddr) → ℕ → Buffer → Buffer
resolve_payload clients idx = clients_payload (load clients idx)

module _ (net : Sockets) (timeout : ℕ) (tc : Testcase) where
  pub run_state_create_topology :
      Fragments → Buffer → Option (List (ℕ × ErrorCode) × ErrorCode × Fragments)
  run_state_create_topology =
      request_all net timeout MessageType.topology (topology_lambda tc) acknowledge

  pub run_state_start_mixnet_server :
      (ℕ → Option ℕ) → Fragments → Buffer → Option (List (ℕ × ErrorCode) × ErrorCode × Fragments)
  run_state_start_mixnet_server peernames =
      request_all net timeout MessageType.start_mixnet_server no_payload
        (start_server_lambda tc.graph.topology peernames)

  pub run_state_start_mixnet_clients :
      Fragments → Buffer → Option (List (ℕ × ErrorCode) × ErrorCode × Fragments)
  run_state_start_mixnet_clients fragments =
      request_all net timeout MessageType.start_mixnet_clients
        (start_clients_payload tc.graph.topology fragments) (start_clients_lambda tc.graph.topology)
        fragments

  -- A failed assertion of the lambda ends the process: here the addresses for all nodes are looked up
  -- before the first request is sent.
  pub run_state_resolve_mixnet_connections :
      Fragments → Buffer → Option (List (ℕ × ErrorCode) × ErrorCode × Fragments)
  run_state_resolve_mixnet_connections fragments b = do
    clients ← all_clients tc.graph.topology fragments 0 tc.graph.topology
    request_all net timeout MessageType.resolve_mixnet_conns (resolve_payload clients) acknowledge
        fragments b
