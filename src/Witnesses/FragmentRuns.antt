-- ===== src/Witnesses/FragmentRuns.antt =====
-- framework/fragment.cpp for a node with two neighbours, and the states of a fragment and of a test run.
use fall23_p.Prelude.{
  ℕ, ◌∷◌, some, ◌≡◌, ◌≢◌, true, if◌then◌else◌, Option, false, List, arith, ◌==◌, ◌↔◌, [], none, ◌<◌,
  ◌⊎◌, inl, load, All, ◌≤◌, refl, inr,
}
use fall23_p.Mixnet.PacketType
use fall23_p.Mixnet.Config.{default_config}
use fall23_p.Mixnet.Wire.{Wire}
use fall23_p.Mixnet.Node.{Sends}
use fall23_p.Mixnet.Node.Loop.{Round, run_node}
use fall23_p.Mixnet.Node.Loop as Loop
use fall23_p.Framework.Buffer.{Buffer}
use fall23_p.Framework.ErrorCode.{
  ErrorCode, success, recv_zero_pending, fork_failed, fragment_exception, socket_bad_operation,
}
use fall23_p.Framework.Message.{
  send_packet, MessageType, validate, is_request, get_type, get_fragment_id, get_error_code,
}
use fall23_p.Framework.Fragment.NodeContext.{
  validate_size, send_to_neighbor, send_to_user, is_user_type, NodeContext, Inputs, Received,
  packet_on, exited, node_send, node_recv,
}
use fall23_p.Framework.Fragment.Sending.{IsSized, node_send-transmitted, node_send-to_user}
use fall23_p.Framework.Fragment.Receiving.{
  ready, serve, turns, IsAhead, node_recv-serve, node_recv-waiting,
}
use fall23_p.Framework.Fragment.Delivery.{IsDelivered, run_node-IsDelivered}
use fall23_p.Framework.Fragment.Tasks.{
  SendPacket, UserPacket, task_send_packet, task_send_packet-fits, task_update_link_state, drained,
  task_update_link_state-drains,
}
use fall23_p.Framework.Fragment.Header.{check_header, check_header-success}
use fall23_p.Framework.Fragment.Machine
use fall23_p.Framework.Orchestrator.Machine as Phases

abbrev context : NodeContext
context = record {
  config = record default_config { node_addr = 7; num_neighbors = 2 };
  rx_port_idx = 1;
  link_states = true ∷ true ∷ [];
  is_pcap_subscribed = true;
}

abbrev zeros : Buffer
zeros i = 0

-- A flood with a reserved field that is still to be cleared.
abbrev flood : Wire
flood = record { total_size = 12; type = PacketType.flood; reserved = 5; payload = zeros }

node_send-transmitted_example :
    (◌≡◌ {A = ℕ} 0 0)
    × (0 < context.config.num_neighbors)
    × (12 ≤ flood.total_size)
    × (flood.total_size ≤ 4096)
    × IsSized flood
    × (record flood { reserved = 0 } ≡ record flood { reserved = 0 })
    × (success ≡ success)
unfolding node_send validate_size send_to_neighbor
node_send-transmitted_example =
    node_send-transmitted context 0 flood true success 0 (record flood { reserved = 0 }) refl

node_send-to_user_example :
    (2 ≡ context.config.num_neighbors)
    × IsSized flood
    × ((flood.type ≡ PacketType.flood)
        ⊎ ((flood.type ≡ PacketType.packet_data) ⊎ (flood.type ≡ PacketType.ping)))
unfolding node_send validate_size send_to_user is_user_type
node_send-to_user_example = node_send-to_user context 2 flood true success (inl refl)

-- Only the first neighbour has a packet.
abbrev inputs : Inputs
inputs = record {
  socket = λ p. if p == 0 then (success, flood) else (recv_zero_pending, flood);
  user = none;
}

node_recv-serve_example :
    let served = serve (ready context inputs) 2 1 (turns 2 1 3) in
    node_recv context inputs ≡ some (record context { rx_port_idx = served.0 }, served.1)
node_recv-serve_example = node_recv-serve context inputs (omega arith) (omega arith)

node_recv-waiting_example :
    (ctx' : NodeContext) × (r : Received) × (node_recv context inputs ≡ some (ctx', r))
    × ((r ≡ packet_on 0 flood)
        ⊎ (((d' : ℕ) × (d' < 2) × IsAhead 2 ctx'.rx_port_idx 0 d')
            ⊎ ((e : ErrorCode) × (r ≡ exited e))))
unfolding ready
node_recv-waiting_example =
    node_recv-waiting context inputs 0 2 flood (omega arith) (omega arith) refl (omega arith) refl

-- A round in which the user sends a flood.
abbrev user_round : Round
user_round = record {
  received = some (
    2,
    record {
      total_size = 12;
      type = PacketType.flood;
      payload = record { root_address = 0; path_length = 0; node_address = 0 };
    },
  );
  hello_now = 100;
  heartbeat_now = 100;
  hello_re_election_now = 100;
  re_election_now = 100;
  takeover_now = 100;
  parent_now = 100;
}

run_node-IsDelivered_example :
    (s : Loop.State) × (out : Sends) × (run_node context.config (0, 0) (user_round ∷ [])
      ≡ some (s, out))
    × All (IsDelivered context zeros false socket_bad_operation) out
run_node-IsDelivered_example =
    run_node-IsDelivered context zeros false socket_bad_operation (0, 0) (user_round ∷ [])
      (omega arith) ((omega arith, inr (refl, λ e. absurd (omega arith))), tt)

abbrev five_bytes : SendPacket
five_bytes = record {
  type = PacketType.packet_data;
  src_mixaddr = 7;
  dst_mixaddr = 4;
  data_length = 5;
}

task_send_packet-fits_example :
    (r : ErrorCode × Option UserPacket) × (task_send_packet five_bytes true ≡ some r)
    × (((true ≡ false) × (r ≡ (fragment_exception, none)))
        ⊎ ((true ≡ true)
            × (q : UserPacket) × (r ≡ (success, some q))
            × (12 ≤ q.total_size)
            × (q.total_size ≤ 4096)
            × (q.type ≡ five_bytes.type)
            × (((five_bytes.type ≡ PacketType.packet_data)
                  × (q.total_size ≡ 25)
                  × (q.copied ≡ 5)
                  × (q.routing ≡ some (7, 4)))
                ⊎ (((five_bytes.type ≡ PacketType.ping)
                      × (q.total_size ≡ 20)
                      × (q.copied ≡ 0)
                      × (q.routing ≡ some (7, 4)))
                    ⊎ ((five_bytes.type ≢ PacketType.packet_data)
                        × (five_bytes.type ≢ PacketType.ping)
                        × (q.total_size ≡ 12)
                        × (q.copied ≡ 0)
                        × (q.routing ≡ none))))))
task_send_packet-fits_example = task_send_packet-fits five_bytes true (omega arith)

task_update_link_state-drains_example :
    (ctx' : NodeContext) × (task_update_link_state context 0 false
        (success ∷ success ∷ recv_zero_pending ∷ [])
      ≡ some (ctx', drained recv_zero_pending))
    × (load ctx'.link_states 0 ≡ some false)
    × ((◌≡◌ {A = ℕ} 1 0) ⊎ (load ctx'.link_states 1 ≡ load context.link_states 1))
    × (ctx'.rx_port_idx ≡ context.rx_port_idx)
task_update_link_state-drains_example =
    task_update_link_state-drains context 0 1 2 recv_zero_pending [] (omega arith) (omega arith)
      refl

check_header-success_example : (check_header 3 true true zeros send_packet ≡ some success) ↔ (
    (validate zeros ≡ some true)
    × (is_request zeros ≡ true)
    × ((true ≡ false) ⊎ (get_fragment_id zeros ≡ 3))
    × ((t : MessageType) × (get_type zeros ≡ some t) × ((true ≡ false) ⊎ (t ≡ send_packet)))
    × (get_error_code zeros ≡ some success))
check_header-success_example = check_header-success 3 true true zeros send_packet

-- The third state of a fragment fails.
abbrev fails_third : Machine.State → ErrorCode
fails_third Machine.create_topology = fragment_exception
fails_third _ = success

run-protocol_example :
    (r : Machine.Ended) × (exit : Machine.Exit) × (Machine.run true fails_third ≡ some (r, exit))
    × ((r.visited, r.code) ≡ Machine.up_to_failure fails_third Machine.protocol)
    × ((exit ≡ Machine.spins) ↔ ((true ≡ true) × (r.code ≢ success)))
run-protocol_example = Machine.run-protocol true fails_third

abbrev fails_first : Phases.State → ErrorCode
fails_first Phases.init = fork_failed
fails_first _ = success

run-EndsClean_example :
    (ss : List Phases.State) × (Phases.run fails_first
      ≡ some (ss, Phases.first_of_run fails_first success ss))
    × Phases.Follows fails_first Phases.init ss
    × Phases.EndsClean fails_first ss
run-EndsClean_example = Phases.run-EndsClean fails_first
