-- ===== src/Witnesses/SetupRuns.antt =====
-- framework/orchestrator.cpp and framework/fragment.cpp: the topology of two connected nodes.
use mathlib.Core.Path.{subst}
use mathlib.Core.Option.{some-injective}
use fall23_p.Prelude.{
  ℕ, zero, suc, ◌^◌, ◌<◌, ◌≡◌, ◌↔◌, ◌∷◌, true, false, some, refl, ap, sym, arith, All, List, [],
  load, length,
}
use fall23_p.Framework.ErrorCode.{ErrorCode, success}
use fall23_p.Framework.Buffer.{Buffer}
use fall23_p.Framework.Message.{MessageType}
use fall23_p.Framework.Networking.Addresses.{Netaddr, equal_netaddrs}
use fall23_p.Framework.Networking.Server.{AcceptArgs}
use fall23_p.Framework.Arrays.{IsNetaddr}
use fall23_p.Framework.Fragment.NodeContext.{NodeContext}
use fall23_p.Framework.Fragment.Setup.{find_connection}
use fall23_p.Framework.Orchestrator.Broadcast.{IsDone, recipients, numbers_from}
use fall23_p.Framework.Orchestrator.Fragments.{Fragments, FragmentMetadata, new_fragment}
use fall23_p.Framework.Orchestrator.Phases.{Sockets, foreach_fragment_send_ctrl}
use fall23_p.Framework.Orchestrator.Setup.{Testcase, topology_lambda, all_clients, resolve_payload}
use fall23_p.Framework.Orchestrator.Setup.Payload.{IsSmall, node_config, fresh_context}
use fall23_p.Framework.Orchestrator.Setup.Config.{AreSmall, Configures, create_topology-Configures}
use fall23_p.Framework.Orchestrator.Setup.Clients.{HasClients}
use fall23_p.Framework.Orchestrator.Setup.Lookup.{Found}
use fall23_p.Framework.Orchestrator.Setup.Connections.{
  CountsNeighbors, HasConnections, Resolves, resolve_connections-Resolves, accepted_by,
}
use fall23_p.Testing.Graph.{Graph, GraphNode, contains}
use fall23_p.Testing.Graph.Edges.{IsUndirected, adjacent}

abbrev zeros : Buffer
zeros i = 0

abbrev node_of : ℕ → GraphNode
node_of mixaddr = record {
  mixing_factor = 1;
  do_random_routing = false;
  link_costs = 1 ∷ [];
  mixaddr = mixaddr;
}

abbrev pair : Graph
pair = record {
  num_nodes = 2;
  nodes = node_of 0 ∷ node_of 1 ∷ [];
  topology = (1 ∷ []) ∷ (0 ∷ []) ∷ [];
}

pair-symmetric : (i j : ℕ) → adjacent pair.topology i j ≡ adjacent pair.topology j i
unfolding contains
pair-symmetric zero zero = refl
pair-symmetric zero (suc zero) = refl
pair-symmetric zero (suc (suc j)) = ground arith
pair-symmetric (suc zero) zero = refl
pair-symmetric (suc zero) (suc zero) = refl
pair-symmetric (suc zero) (suc (suc j)) = ground arith
pair-symmetric (suc (suc i)) zero = ground arith
pair-symmetric (suc (suc i)) (suc zero) = ground arith
pair-symmetric (suc (suc i)) (suc (suc j)) = refl

pair-IsUndirected : IsUndirected pair
pair-IsUndirected = record { nodes = refl; rows = refl; symmetric = pair-symmetric }

abbrev test_of_pair : Testcase
test_of_pair = record {
  graph = pair;
  root_hello_interval_ms = 2000;
  reelection_interval_ms = 20000;
}

node_of-IsSmall : (mixaddr j : ℕ) → mixaddr < 2 ^ 16 → IsSmall (node_of mixaddr) (j ∷ [])
node_of-IsSmall mixaddr j range = record {
  mixaddr = range;
  mixing_factor = omega arith;
  costs = (omega arith, tt);
  cost_of_each = refl;
  few = omega arith;
}

of_loaded :
    {node node' : GraphNode} {row row' : List ℕ}
    → some node ≡ some node'
    → some row ≡ some row'
    → IsSmall node row
    → IsSmall node' row'
of_loaded {node} {node'} {row} {row'} e f small =
    subst (λ x. IsSmall node' x) (some-injective _ _ f)
      (subst (λ x. IsSmall x row) (some-injective _ _ e) small)

pair-AreSmall : AreSmall pair
pair-AreSmall zero node row e f = of_loaded e f (node_of-IsSmall 0 1 (omega arith))
pair-AreSmall (suc zero) node row e f = of_loaded e f (node_of-IsSmall 1 0 (omega arith))
pair-AreSmall (suc (suc i)) node row e f = absurd (cc)

-- The address of a client, for each of the two.
abbrev client : Netaddr
client = record { sin_family = 2; sin_port = 4000; s_addr = 16777343 }

abbrev two_fragments : Fragments
two_fragments =
    record new_fragment { fd_ctrl = some 4; mixnet_client_netaddrs = client ∷ [] }
    ∷ record new_fragment { fd_ctrl = some 5; mixnet_client_netaddrs = client ∷ [] }
    ∷ []

abbrev sockets : Sockets
sockets = record { sends = λ i m. success; timers = λ i. 1000; rounds = [] }

create_topology-Configures_example :
    (out : List (ℕ × Buffer)) × (code : ErrorCode) × (foreach_fragment_send_ctrl sockets 5000
        MessageType.topology
        (topology_lambda test_of_pair)
        two_fragments
        zeros
      ≡ some (out, code))
    × All (Configures test_of_pair) out
    × (recipients out ≡ numbers_from 0 (length out))
    × ((code ≡ success) ↔ ((length out ≡ 2) × All (IsDone sockets.sends) out))
create_topology-Configures_example =
    create_topology-Configures sockets 5000 test_of_pair two_fragments zeros
      (record { hello = omega arith; reelection = omega arith }) pair-AreSmall refl refl
      (omega arith)

client-IsNetaddr : IsNetaddr client
client-IsNetaddr = record { family = omega arith; port = omega arith; address = omega arith }

length-loaded : {row row' : List ℕ} → some row ≡ some row' → length row ≡ length row'
length-loaded e = ap length (some-injective _ _ e)

two_fragments-HasClients : HasClients pair.topology two_fragments
two_fragments-HasClients zero row e = (
  record new_fragment { fd_ctrl = some 4; mixnet_client_netaddrs = client ∷ [] },
  refl,
  length-loaded e,
  (client-IsNetaddr, tt),
)
two_fragments-HasClients (suc zero) row e = (
  record new_fragment { fd_ctrl = some 5; mixnet_client_netaddrs = client ∷ [] },
  refl,
  length-loaded e,
  (client-IsNetaddr, tt),
)
two_fragments-HasClients (suc (suc j)) row e = absurd (cc)

abbrev context : ℕ → NodeContext
context i = fresh_context (node_config test_of_pair (node_of i) (i ∷ []))

context-CountsNeighbors : CountsNeighbors pair.topology context
context-CountsNeighbors zero row e = length-loaded e
context-CountsNeighbors (suc zero) row e = length-loaded e
context-CountsNeighbors (suc (suc i)) row e = absurd (cc)

-- Each fragment has accepted one connection.
abbrev accepted : ℕ → AcceptArgs
accepted i = record {
  use_timeout = true;
  timeout_ms = 5000;
  max_clients = 1;
  failed = false;
  num_accepted = 1;
  done = true;
  started = true;
  states = record { connection_fd = some 9; address = client } ∷ [];
}

client-Found : (row : List ℕ) (i : ℕ) → length row ≡ 1 → Found (accepted_by (accepted i) row) client
unfolding find_connection equal_netaddrs
client-Found row i one = (some 9, rw one refl)

only_client : (nid : ℕ) (addr : Netaddr) → load (client ∷ []) nid ≡ some addr → client ≡ addr
only_client zero addr e = some-injective _ _ e
only_client (suc nid) addr e = absurd (cc)

client_at :
    (j nid : ℕ) (f : FragmentMetadata) (addr : Netaddr)
    → load two_fragments j ≡ some f
    → load f.mixnet_client_netaddrs nid ≡ some addr
    → client ≡ addr
client_at zero nid f addr e at = only_client nid addr (
    subst (λ x. load (FragmentMetadata.mixnet_client_netaddrs x) nid ≡ some addr)
      (sym (some-injective _ _ e)) at)
client_at (suc zero) nid f addr e at = only_client nid addr (
    subst (λ x. load (FragmentMetadata.mixnet_client_netaddrs x) nid ≡ some addr)
      (sym (some-injective _ _ e)) at)
client_at (suc (suc j)) nid f addr e at = absurd (cc)

one_neighbor : (i : ℕ) (row : List ℕ) → load pair.topology i ≡ some row → length row ≡ 1
one_neighbor zero row e = sym (length-loaded e)
one_neighbor (suc zero) row e = sym (length-loaded e)
one_neighbor (suc (suc i)) row e = absurd (cc)

accepted-HasConnections : HasConnections pair.topology two_fragments accepted
accepted-HasConnections i row j addr e link =
    subst (Found (accepted_by (accepted i) row))
      (client_at j link.nid link.fragment addr link.metadata link.client)
      (client-Found row i (one_neighbor i row e))

resolve_connections-Resolves_example :
    (all : List (List Netaddr)) × (out : List (ℕ × Buffer)) × (code : ErrorCode) × (all_clients
        pair.topology two_fragments 0 pair.topology
      ≡ some all)
    × (foreach_fragment_send_ctrl sockets 5000 MessageType.resolve_mixnet_conns
          (resolve_payload all)
          two_fragments
          zeros
        ≡ some (out, code))
    × All (Resolves pair.topology two_fragments context accepted) out
    × (recipients out ≡ numbers_from 0 (length out))
    × ((code ≡ success) ↔ ((length out ≡ 2) × All (IsDone sockets.sends) out))
resolve_connections-Resolves_example =
    resolve_connections-Resolves sockets 5000 pair two_fragments context accepted zeros
      pair-IsUndirected two_fragments-HasClients context-CountsNeighbors accepted-HasConnections
      (λ i row e. omega (arith, one_neighbor i row e)) refl (omega arith)
