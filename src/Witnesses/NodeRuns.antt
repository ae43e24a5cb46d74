-- ===== src/Witnesses/NodeRuns.antt =====
-- mixnet/node.c on a node with three neighbours.
use fall23_p.Prelude.{
  ℕ, some, ◌≤◌, ◌≢◌, ◌∷◌, none, ◌≡◌, arith, List, [], inl, ◌⊎◌, load, refl, false, ◌<◌, true, ◌↔◌,
  All,
}
use fall23_p.Mixnet.Packet.{Packet, Stp, invalid_address}
use fall23_p.Mixnet.PacketType
use fall23_p.Mixnet.Config.{NodeConfig, default_config}
use fall23_p.Mixnet.Node.{Node, Sends, send_stp, send_flood, receive_stp, flood_packet}
use fall23_p.Mixnet.Node.Ports.{HasPorts}
use fall23_p.Mixnet.Node.Loop.{State, Round, run_node, round, initial_state, make_root}
use fall23_p.Mixnet.Node.Invariant.{IsSound, Owned}
use fall23_p.Mixnet.Node.Run.{run_node-IsSound}
use fall23_p.Mixnet.Node.Overread.{IsWhole}
use fall23_p.Mixnet.Node.Priority.{receive_stp-IsBest, route, offer, ◌≺◌}
use fall23_p.Mixnet.Node.Flooding.{sent_on, send_flood-sent_on}
use fall23_p.Mixnet.Node.Blocking.{IsTreeLink, receive_stp-port_flag, receive_stp-other_ports}
use fall23_p.Mixnet.Node.Timers.{root-round, non_root-round}

-- A node with address 7 and three neighbours, the first two of which have spoken.
abbrev node_seven : Node
node_seven = record {
  num_neighbors = 3;
  neighbors_addy = 4 ∷ 9 ∷ invalid_address ∷ [];
  neighbors_blocked = false ∷ true ∷ true ∷ [];
  root_addr = 4;
  my_addr = 7;
  next_hop = 4;
  path_len = 1;
}

node_seven-HasPorts : HasPorts node_seven
node_seven-HasPorts = record { in_range = omega arith; same_length = refl }

-- The neighbour 9 offers a route to the root 2.
abbrev better_offer : Stp
better_offer = record { root_address = 2; path_length = 1; node_address = 9 }

nine-known : 9 ≢ invalid_address
nine-known e = absurd (omega arith)

receive_stp-IsBest_example :
    (node' : Node) × (out : Sends) × (receive_stp node_seven 1 better_offer ≡ some (node', out))
    × (((offer better_offer ≺ route node_seven)
          × (route node' ≡ offer better_offer)
          × (out ≡ send_stp node'))
        ⊎ ((¬ (offer better_offer ≺ route node_seven))
            × (route node' ≡ route node_seven)
            × (out ≡ [])))
receive_stp-IsBest_example =
    receive_stp-IsBest node_seven 1 better_offer node_seven-HasPorts (omega arith) refl nine-known

receive_stp-port_flag_example :
    (node' : Node) × (out : Sends) × (receive_stp node_seven 1 better_offer ≡ some (node', out))
    × ((load node'.neighbors_blocked 1 ≡ some false) ↔ IsTreeLink node' better_offer)
receive_stp-port_flag_example =
    receive_stp-port_flag node_seven 1 better_offer node_seven-HasPorts (omega arith) refl
      nine-known

receive_stp-other_ports_example :
    (node' : Node) × (out : Sends) × (receive_stp node_seven 1 better_offer ≡ some (node', out))
    × (((offer better_offer ≺ route node_seven) × (load node'.neighbors_blocked 0 ≡ some true))
        ⊎ ((¬ (offer better_offer ≺ route node_seven))
            × (load node'.neighbors_blocked 0 ≡ load node_seven.neighbors_blocked 0)))
receive_stp-other_ports_example =
    receive_stp-other_ports node_seven 1 better_offer node_seven-HasPorts (omega arith) refl
      nine-known 0 (omega arith) (λ e. absurd (omega arith))

send_flood-sent_on_example :
    (out : Sends) × (send_flood node_seven 1 ≡ some out)
    × (sent_on 0 out ≡ flood_packet node_seven ∷ [])
send_flood-sent_on_example = send_flood-sent_on node_seven 1 0 (omega arith)

-- A run: the configuration of node 7, and two rounds with a message each.
abbrev config_seven : NodeConfig
config_seven = record default_config { node_addr = 7; num_neighbors = 3 }

abbrev round_with : ℕ → Packet → ℕ → Round
round_with port packet now = record {
  received = some (port, packet);
  hello_now = now;
  heartbeat_now = now;
  hello_re_election_now = now;
  re_election_now = now;
  takeover_now = now;
  parent_now = now;
}

abbrev offered : Packet
offered = record { total_size = 18; type = PacketType.stp; payload = better_offer }

abbrev two_rounds : List Round
two_rounds = round_with 1 offered 100 ∷ round_with 1 offered 200 ∷ []

run_node-IsSound_example :
    (s : State) × (out : Sends) × (run_node config_seven (50, 50) two_rounds ≡ some (s, out))
    × IsSound 3 7 s.node
    × Owned 3 out
    × ((s.overread ≡ false) ↔ All (IsWhole 3) two_rounds)
run_node-IsSound_example =
    run_node-IsSound config_seven (50, 50) two_rounds
      ((omega arith, inl (omega arith)), ((omega arith, inl (omega arith)), tt))

-- The clock wraps between the last hello and now.
abbrev root_state : State
root_state = initial_state config_seven 4294967000 4294967000

abbrev quiet_round : ℕ → Round
quiet_round now = record (round_with 0 offered now) { received = none }

root-round_example :
    ((config_seven.root_hello_interval_ms ≤ 2296)
      × (round config_seven root_state (quiet_round 2000)
          ≡ some (
            record root_state { heartbeat_time = 2000; re_election_time = 2000 },
            send_stp root_state.node,
          )))
    ⊎ ((2296 < config_seven.root_hello_interval_ms)
        × (round config_seven root_state (quiet_round 2000) ≡ some (root_state, [])))
unfolding initial_state
root-round_example =
    root-round config_seven root_state (quiet_round 2000) 2296 (omega arith) refl refl (omega arith)
      refl

abbrev child_state : State
child_state = record {
  node = node_seven;
  re_election_time = 4294967000;
  heartbeat_time = 0;
  num_user_packets = 0;
  overread = false;
}

non_root-round_example :
    ((config_seven.reelection_interval_ms ≤ 20296)
      × (round config_seven child_state (quiet_round 20000)
          ≡ some (
            record child_state { node = make_root node_seven; re_election_time = 20000 },
            send_stp (make_root node_seven),
          )))
    ⊎ ((20296 < config_seven.reelection_interval_ms)
        × (round config_seven child_state (quiet_round 20000) ≡ some (child_state, [])))
non_root-round_example =
    non_root-round config_seven child_state (quiet_round 20000) 20296 (omega arith)
      (λ e. absurd (omega arith)) refl (omega arith) refl
