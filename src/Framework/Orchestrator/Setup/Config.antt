-- ===== src/Framework/Orchestrator/Setup/Config.antt =====
-- framework/orchestrator.cpp and framework/fragment.cpp: the configuration that a TOPOLOGY request
-- carries from the test's graph to a fragment.
use fall23_p.Framework.Orchestrator.Setup.Payload.{
  topology_payload-config, node_config, fixed_part-Keeps, fixed_part-count, FitsIntervals,
  fresh_context, IsSmall, topology_payload-fixed, read16-fixed,
}
use fall23_p.Framework.Fragment.Header.{check_header, prepare_header, recv_request, send_response}
use fall23_p.Framework.Fragment.Setup.{
  run_state_create_topology, topology_config, init_node_context, NodeSockets,
}
use fall23_p.Framework.Orchestrator.Agreement.{response-check_header}
use fall23_p.Framework.Orchestrator.Fragments.{Fragments}
use fall23_p.Framework.Orchestrator.Phases.{ctrl_fds, Sockets, foreach_fragment_send_ctrl}
use fall23_p.Framework.ErrorCode.{ErrorCode, success}
use fall23_p.Framework.Message.{finalize, MessageType}
use fall23_p.Framework.Orchestrator.Broadcast.{
  Fills, IsAccepted, recipients, numbers_from, IsBelow, IsDone,
  foreach_fragment_send_generic-success,
}
use fall23_p.Framework.Message.Length.{payload_bytes}
use fall23_p.Prelude.{
  ◌↔◌, true, inr, none, Option, some, load, ◌≤◌, ◌∙◌, refl, ap, [], ◌+◌, ◌*◌, ◌^◌, ◌<◌, ◌≡◌, arith,
  length, All, List, ℕ, ◌>>=◌, All-map2, load-in_bounds,
}
use fall23_p.Framework.Buffer.{read32-agree, read16-agree, Buffer, read16}
use fall23_p.Framework.Arrays.{read16s-agree}
use fall23_p.Framework.Orchestrator.Headers.{Keeps}
use fall23_p.Framework.Orchestrator.Setup.{
  topology_lambda, Testcase, topology_payload, fill_topology, no_node,
}
use fall23_p.Testing.Graph.{Graph, GraphNode}

-- The fragment `i` that receives the message answers it, whatever its socket makes of that, and has
-- then a new context with the configuration of its node.
abbrev pub Configures : Testcase → ℕ × Buffer → Type 0
Configures tc (i, m) =
    (node : GraphNode) × (row : List ℕ) × (load tc.graph.nodes i ≡ some node)
    × (load tc.graph.topology i ≡ some row)
    × ((sends : Buffer → ErrorCode)
        → (response : Buffer) × (socks : NodeSockets) × (run_state_create_topology i
              (record { received = (success, m); sends = sends })
            ≡ some (sends response, some (fresh_context (node_config tc node row), socks))))

-- Every node of the graph is small.
abbrev pub AreSmall : Graph → Type 0
AreSmall g =
    (i : ℕ) (node : GraphNode) (row : List ℕ)
    → load g.nodes i ≡ some node
    → load g.topology i ≡ some row
    → IsSmall node row

topology_config-agree :
    (c m : Buffer)
    → ((i : ℕ) → 8 ≤ i → i < 24 + read16 c 10 * 2 → m i ≡ c i)
    → topology_config m ≡ topology_config c
unfolding topology_config
topology_config-agree c m same =
    let at = λ (i : ℕ) (low : 8 ≤ i) (high : i < 24). same i low (omega arith) in
    let count =
      read16-agree c m 10 (at 10 (omega arith) (omega arith)) (at 11 (omega arith) (omega arith)) in
    rw
      (
        read16-agree c m 8 (at 8 (omega arith) (omega arith)) (at 9 (omega arith) (omega arith)),
        count,
        read32-agree c m 16 (at 16 (omega arith) (omega arith)) (at 17 (omega arith) (omega arith))
            (at 18 (omega arith) (omega arith)) (at 19 (omega arith) (omega arith)),
        read32-agree c m 20 (at 20 (omega arith) (omega arith)) (at 21 (omega arith) (omega arith))
            (at 22 (omega arith) (omega arith)) (at 23 (omega arith) (omega arith)),
        at 12 (omega arith) (omega arith),
        read16-agree c m 14 (at 14 (omega arith) (omega arith)) (at 15 (omega arith) (omega arith)),
        read16s-agree m c 24 (read16 c 10) (λ i low high. same i (omega arith) (omega arith)),
      )
      refl

topology_payload-Keeps :
    (tc : Testcase) (node : GraphNode) (row : List ℕ) (b : Buffer)
    → Keeps b (topology_payload tc node row b)
topology_payload-Keeps tc node row b i =
    ground
      (arith, topology_payload-fixed tc node row b i, fixed_part-Keeps tc node (length row) b i)

topology_payload-count :
    (tc : Testcase) (node : GraphNode) (row : List ℕ) (b : Buffer)
    → length row < 2 ^ 16
    → read16 (topology_payload tc node row b) 10 ≡ length row
topology_payload-count tc node row b h =
    read16-fixed tc node row b 10 (omega arith) ∙ fixed_part-count tc node (length row) b h

fill_topology-fits :
    (tc : Testcase) (node : Option GraphNode) (row : Option (List ℕ)) (b : Buffer)
    → ((x : GraphNode) (xs : List ℕ) → node ≡ some x → row ≡ some xs → IsSmall x xs)
    → Keeps b (fill_topology tc node row b)
      × (28 + read16 (fill_topology tc node row b) 10 * 2 < 2 ^ 16)
fill_topology-fits tc (some node) (some row) b small =
    let few = (small node row refl refl).few in
    (
      topology_payload-Keeps tc node row b,
      omega (arith, topology_payload-count tc node row b (omega (arith, few)), few),
    )
fill_topology-fits tc none none b small = (
  topology_payload-Keeps tc no_node [] b,
  omega (arith, topology_payload-count tc no_node [] b (omega arith)),
)
fill_topology-fits tc none (some row) b small = (
  topology_payload-Keeps tc no_node [] b,
  omega (arith, topology_payload-count tc no_node [] b (omega arith)),
)
fill_topology-fits tc (some node) none b small = (
  topology_payload-Keeps tc no_node [] b,
  omega (arith, topology_payload-count tc no_node [] b (omega arith)),
)

topology_lambda-Fills :
    (tc : Testcase) → AreSmall tc.graph → Fills MessageType.topology (topology_lambda tc)
unfolding topology_lambda payload_bytes
topology_lambda-Fills tc small i b =
    let (keeps, size) =
      fill_topology-fits tc (load tc.graph.nodes i) (load tc.graph.topology i) b (small i) in
    (keeps, tt, omega (arith, size))

topology_lambda-found :
    (tc : Testcase) (i : ℕ) (node : GraphNode) (row : List ℕ) (b : Buffer)
    → load tc.graph.nodes i ≡ some node
    → load tc.graph.topology i ≡ some row
    → topology_lambda tc i b ≡ topology_payload tc node row b
unfolding topology_lambda
topology_lambda-found tc i node row b e f = rw (e, f) refl

accepted-config :
    (tc : Testcase) (fits : FitsIntervals tc) (small : AreSmall tc.graph) (i : ℕ) (m : Buffer)
    (node : GraphNode) (row : List ℕ)
    → IsAccepted MessageType.topology (topology_lambda tc) (i, m)
    → load tc.graph.nodes i ≡ some node
    → load tc.graph.topology i ≡ some row
    → topology_config m ≡ node_config tc node row
unfolding payload_bytes
accepted-config tc fits small i m node row (passes, (b, layout, carries)) at_node at_row =
    let found = topology_lambda-found tc i node row b at_node at_row in
    topology_config-agree (topology_lambda tc i b) m (λ j low high. ground (arith, carries j))
    ∙ (ap topology_config found
        ∙ topology_payload-config tc node row b fits (small i node row at_node at_row))

-- An acknowledgement can be sealed.
acknowledged :
    (m : Buffer) (i : ℕ)
    → i < 2 ^ 16
    → (response : Buffer) × (finalize (prepare_header m i MessageType.topology success)
        ≡ some response)
unfolding payload_bytes
acknowledged m i range =
    let (response, sealed, _, _) =
      response-check_header m true i MessageType.topology (λ b. b) range (λ j. inr refl) tt
        (omega arith) in
    (response, sealed)

answers_topology :
    (i : ℕ) (m response : Buffer) (sends : Buffer → ErrorCode)
    → check_header i true true m MessageType.topology ≡ some success
    → finalize (prepare_header m i MessageType.topology success) ≡ some response
    → run_state_create_topology i (record { received = (success, m); sends = sends })
      ≡ some (sends response, some (init_node_context m))
unfolding run_state_create_topology recv_request send_response
answers_topology i m response sends checked sealed = rw (checked, ◌>>=◌) (rw (sealed, ◌>>=◌) refl)

init_node_context-config :
    (m : Buffer)
    → (socks : NodeSockets) × (init_node_context m ≡ (fresh_context (topology_config m), socks))
unfolding init_node_context topology_config
init_node_context-config m = ((init_node_context m).1, refl)

IsAccepted-Configures :
    (tc : Testcase) (fits : FitsIntervals tc) (small : AreSmall tc.graph) (n : ℕ)
    → n < 2 ^ 16
    → length tc.graph.nodes ≡ n
    → length tc.graph.topology ≡ n
    → (sent : ℕ × Buffer) → IsAccepted MessageType.topology (topology_lambda tc) sent
    → IsBelow n sent
    → Configures tc sent
IsAccepted-Configures tc fits small n few nodes rows (i, m) accepted below =
    let (node, at_node) = load-in_bounds tc.graph.nodes i (omega arith) in
    let (row, at_row) = load-in_bounds tc.graph.topology i (omega arith) in
    let (response, sealed) = acknowledged m i (omega arith) in
    let (socks, context) = init_node_context-config m in
    let config = accepted-config tc fits small i m node row accepted at_node at_row in
    (
      node,
      row,
      at_node,
      at_row,
      (λ sends. (
        response,
        socks,
        answers_topology i m response sends accepted.0 sealed
            ∙ ap (λ x. some (sends response, some x))
                (context ∙ ap (λ c. (fresh_context c, socks)) config),
      )),
    )

-- The configuration of a test reaches its fragments. The request of CREATE_TOPOLOGY always ends with
-- an error code. The messages go to the fragments 0, 1, 2 and so on, one to each, and a fragment to
-- which a message went answers it and has then a new context: the
-- address, the number of neighbours, the intervals, the routing mode, the mixing factor and the link
-- costs are those of its node in the test's graph, all links are up, and nothing is captured. The
-- code is success exactly if there are as many messages as fragments, so that one went to each, and
-- every socket took its message. The graph has a node and a row for each fragment, fewer than 65536; the fields fit their types; and each node
-- has a cost for each neighbour, and so few of them that the message fits its length.
pub create_topology-Configures :
    (net : Sockets) (timeout : ℕ) (tc : Testcase) (fragments : Fragments) (b : Buffer)
    → FitsIntervals tc
    → AreSmall tc.graph
    → length tc.graph.nodes ≡ length (ctrl_fds fragments)
    → length tc.graph.topology ≡ length (ctrl_fds fragments)
    → length (ctrl_fds fragments) < 2 ^ 16
    → (out : List (ℕ × Buffer)) × (code : ErrorCode) × (foreach_fragment_send_ctrl net timeout
          MessageType.topology
          (topology_lambda tc)
          fragments
          b
        ≡ some (out, code))
      × All (Configures tc) out
      × (recipients out ≡ numbers_from 0 (length out))
      × ((code ≡ success)
          ↔ ((length out ≡ length (ctrl_fds fragments)) × All (IsDone net.sends) out))
unfolding foreach_fragment_send_ctrl
create_topology-Configures net timeout tc fragments b fits small nodes rows few =
    let n = length (ctrl_fds fragments) in
    let (out, code, e, accepted, below, order, done) =
      foreach_fragment_send_generic-success MessageType.topology (topology_lambda tc)
        (topology_lambda-Fills tc small) net.sends net.timers n timeout b few in
    (
      out,
      code,
      e,
      All-map2 (IsAccepted MessageType.topology (topology_lambda tc)) (IsBelow n) (Configures tc)
          (IsAccepted-Configures tc fits small n few nodes rows) out accepted below,
      order,
      done,
    )
