-- ===== src/Mixnet/Node/Loop.antt =====
-- mixnet/node.c: run_node, its start and one round of its loop. The inputs of a round are what
-- mixnet_recv returns and each reading of the clock, in the order of the calls in the text.
use fall23_p.Prelude.{
  ℕ, ◌+◌, ◌-◌, ◌*◌, ◌/◌, ◌^◌, ◌%◌, Bool, true, false, not, ◌&&◌, ◌||◌, ltb, List, [], ◌∷◌, ◌++◌,
  Option, none, some, leb, ◌==◌, if◌then◌else◌, ◌>>=◌, load, replicate,
}
use fall23_p.Mixnet.Config.{NodeConfig}
use fall23_p.Mixnet.PacketType
use fall23_p.Mixnet.Packet.{
  Packet, Stp, u16, invalid_address, max_packet_size, sizeof_packet, sizeof_stp,
}
use fall23_p.Mixnet.Node.{Node, Sends, send_stp, send_flood, receive_stp}

-- get_time_in_ms, from the seconds and nanoseconds of the monotonic clock.
unfoldable pub get_time_in_ms : ℕ → ℕ → ℕ
get_time_in_ms sec nsec = (sec * 1000 + nsec / 1000000) % 2 ^ 32

-- The uint32_t difference of two readings.
unfoldable pub elapsed : ℕ → ℕ → ℕ
elapsed now since = (now + 2 ^ 32 - since) % 2 ^ 32

-- The local variables of run_node; and whether it has read past the end of a packet that it received,
-- which it does not notice.
pub record State : Type 0 where
  pub node : Node
  pub re_election_time : ℕ
  pub heartbeat_time : ℕ
  pub num_user_packets : ℕ
  pub overread : Bool

-- One round: the packet received, if any, and the clock at each call of get_time_in_ms.
pub record Round : Type 0 where
  pub received : Option (ℕ × Packet)
  pub hello_now : ℕ
  pub heartbeat_now : ℕ
  pub hello_re_election_now : ℕ
  pub re_election_now : ℕ
  pub takeover_now : ℕ
  pub parent_now : ℕ

-- `num_neighbors` of the node is a uint8_t, that of the configuration a uint16_t.
unfoldable pub initial_node : NodeConfig → Node
initial_node config = record {
  num_neighbors = config.num_neighbors % 2 ^ 8;
  neighbors_addy = replicate config.num_neighbors invalid_address;
  neighbors_blocked = replicate config.num_neighbors true;
  root_addr = config.node_addr;
  my_addr = config.node_addr;
  next_hop = config.node_addr;
  path_len = 0;
}

unfoldable pub initial_state : NodeConfig → ℕ → ℕ → State
unfolding initial_node
initial_state config re_election_now heartbeat_now = record {
  node = initial_node config;
  re_election_time = re_election_now;
  heartbeat_time = heartbeat_now;
  num_user_packets = 0;
  overread = false;
}

-- `i'm root, and its time to send a root hello`
unfoldable pub root_hello : NodeConfig → State → Round → State × Sends
root_hello config s r =
    if (s.node.root_addr == s.node.my_addr)
      && leb config.root_hello_interval_ms (elapsed r.hello_now s.heartbeat_time)
    then (
      record s { heartbeat_time = r.heartbeat_now; re_election_time = r.hello_re_election_now },
      send_stp s.node,
    )
    else (s, [])

abbrev pub make_root : Node → Node
make_root node = record node { root_addr = node.my_addr; path_len = 0; next_hop = node.my_addr }

-- `i haven't got a root hello in a while. i'm root now!`
unfoldable pub re_elect : NodeConfig → State → Round → State × Sends
re_elect config s r =
    if not (s.node.root_addr == s.node.my_addr)
      && leb config.reelection_interval_ms (elapsed r.re_election_now s.re_election_time)
    then (
      record s { node = make_root s.node; re_election_time = r.takeover_now },
      send_stp (make_root s.node),
    )
    else (s, [])

-- The packet repeats what the parent said before: a hello of the root.
unfoldable pub is_parent_hello : Node → Stp → Bool
is_parent_hello node u =
    (u.root_address == node.root_addr)
    && (u.path_length + 1 == node.path_len)
    && (u.node_address == node.next_hop)

unfoldable pub handle_stp : State → Round → ℕ → Stp → Option (State × Sends)
handle_stp s r port u =
    if is_parent_hello s.node u
    then some (record s { re_election_time = r.parent_now }, send_stp s.node)
    else (receive_stp s.node port u >>= λ (node, out). some (record s { node = node }, out))

unfoldable pub handle_flood : State → ℕ → Option (State × Sends)
handle_flood s port =
    if port == s.node.num_neighbors
    then (send_flood s.node port >>= λ out.
        some (record s { num_user_packets = u16 (s.num_user_packets + 1) }, out))
    else (load s.node.neighbors_blocked port >>= λ blocked.
        if blocked then some (s, []) else (send_flood s.node port >>= λ out. some (s, out)))

-- The bytes allocated for a packet on its way to a node with `n` neighbours: node_recv takes the
-- packet's size for a neighbour's, task_send_packet the largest size for the user's.
unfoldable pub allocated : ℕ → ℕ → Packet → ℕ
allocated n port packet = if port == n then max_packet_size else packet.total_size

-- The copy of an STP payload from behind the header, which the loop makes of every packet, and
-- receive_STP again: whether it reads past the end of the packet. `payload` stands for the six bytes
-- that are there, whatever they are.
unfoldable pub copies_past_end : ℕ → ℕ → Packet → Bool
unfolding allocated
copies_past_end n port packet = ltb (allocated n port packet) (sizeof_packet + sizeof_stp)

abbrev pub after_copy : State → ℕ → Packet → State
after_copy s port packet = record s {
  overread = s.overread || copies_past_end s.node.num_neighbors port packet;
}

unfoldable pub handle : State → Round → Option (ℕ × Packet) → Option (State × Sends)
unfolding handle_stp handle_flood copies_past_end
handle s r none = some (s, [])
handle s r (some (port, packet)) =
    if packet.type == PacketType.stp
    then handle_stp (after_copy s port packet) r port packet.payload
    else if packet.type == PacketType.flood
    then handle_flood (after_copy s port packet) port
    else some (after_copy s port packet, [])

-- The body of `while (*keep_running)`.
unfoldable pub round : NodeConfig → State → Round → Option (State × Sends)
round config s r = do
  let hello = root_hello config s r
  let elected = re_elect config hello.0 r
  (s', out) ← handle elected.0 r r.received
  some (s', hello.1 ++ elected.1 ++ out)

-- The loop, for as many rounds as keep_running stays set.
unfoldable pub rounds : NodeConfig → State → List Round → Option (State × Sends)
rounds config s [] = some (s, [])
rounds config s (r ∷ rs) = do
  (s', out) ← round config s r
  (last, later) ← rounds config s' rs
  some (last, out ++ later)

-- `start` gives the two readings of the clock before the loop.
unfoldable pub run_node : NodeConfig → ℕ × ℕ → List Round → Option (State × Sends)
run_node config start rs = do
  (last, out) ← rounds config (initial_state config start.0 start.1) rs
  some (last, send_stp (initial_node config) ++ out)
