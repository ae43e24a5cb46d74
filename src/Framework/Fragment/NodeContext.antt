-- ===== src/Framework/Fragment/NodeContext.antt =====
-- framework/fragment.h and framework/fragment.cpp: the context of a node, and the two functions
-- behind mixnet_send and mixnet_recv. What the sockets and the message queues answer is an argument.
use fall23_p.Prelude.{
  ℕ, zero, suc, ◌+◌, ◌*◌, ◌-◌, ◌%◌, ◌^◌, Bool, true, false, not, ◌||◌, List, Option, none, some,
  ltb, ◌==◌, if◌then◌else◌, ◌>>=◌, load,
}
use fall23_p.Mixnet.Config.{NodeConfig}
use fall23_p.Mixnet.PacketType
use fall23_p.Mixnet.Packet.{
  min_packet_size, max_packet_size, sizeof_packet, sizeof_stp, sizeof_lsa, sizeof_link_params,
  sizeof_ping, sizeof_routing_header, sizeof_address,
}
use fall23_p.Mixnet.Wire.{Wire, lsa_neighbor_count, route_length}
use fall23_p.Framework.ErrorCode.{
  ErrorCode, success, recv_zero_pending, fragment_pcap_mq_full, is_success,
}

-- struct node_context, without the sockets, the mutexes and the message queues.
pub record NodeContext : Type 0 where
  pub config : NodeConfig
  pub rx_port_idx : ℕ
  pub link_states : List Bool
  pub is_pcap_subscribed : Bool

-- What a call of node_send does: return -1, hand the packet to a neighbour's socket or to the user
-- and return 1, or end the thread by exit_exception with an exit code.
pub data Sent : Type 0 where
  rejected : Sent
  transmitted : ℕ → Wire → Sent
  mirrored : Wire → Sent
  consumed : Sent
  died : ErrorCode → Sent

-- The switch on the packet type; `payload_size` is total_size less the header.
unfoldable pub validate_size : Wire → ℕ → Bool
validate_size p payload_size =
    if p.type == PacketType.stp
    then payload_size == sizeof_stp
    else if p.type == PacketType.flood
    then payload_size == 0
    else if p.type == PacketType.lsa
    then payload_size == sizeof_lsa + sizeof_link_params * lsa_neighbor_count p
    else if p.type == PacketType.packet_data
    then true
    else if p.type == PacketType.ping
    then payload_size == sizeof_ping + sizeof_routing_header + sizeof_address * route_length p
    else false

unfoldable pub is_user_type : ℕ → Bool
is_user_type type =
    (type == PacketType.flood) || (type == PacketType.packet_data) || (type == PacketType.ping)

-- The application-level port: `alloc` says whether the pcap queue has room.
unfoldable pub send_to_user : NodeContext → Wire → Bool → Sent
send_to_user ctx p alloc =
    if not (is_user_type p.type)
    then rejected
    else if ctx.is_pcap_subscribed
    then (if alloc then mirrored p else died fragment_pcap_mq_full)
    else consumed

-- `tx` is what _send_blocking answers on the socket of the port.
unfoldable pub send_to_neighbor : ℕ → Wire → ErrorCode → Sent
send_to_neighbor port p tx = if is_success tx then transmitted port p else died tx

unfoldable pub node_send : NodeContext → ℕ → Wire → Bool → ErrorCode → Sent
node_send ctx port packet alloc tx =
    if ltb ctx.config.num_neighbors port
    then rejected
    else if ltb packet.total_size min_packet_size || ltb max_packet_size packet.total_size
    then rejected
    else (let bleached = record packet { reserved = 0 } in
        if not (validate_size bleached (packet.total_size - sizeof_packet))
        then rejected
        else if port == ctx.config.num_neighbors
        then send_to_user ctx bleached alloc
        else send_to_neighbor port bleached tx)

-- What a port gives: nothing, a packet, or an error that ends the thread.
pub data Pending : Type 0 where
  nothing : Pending
  got : Wire → Pending
  broken : ErrorCode → Pending

-- The inputs of one call of node_recv: for each neighbour's socket the error code of _recv_once and
-- the packet in the receive buffer, and the head of the user queue.
pub record Inputs : Type 0 where
  pub socket : ℕ → ErrorCode × Wire
  pub user : Option Wire

abbrev pub pending_of : ErrorCode × Wire → Pending
pending_of (success, p) = got p
pending_of (recv_zero_pending, p) = nothing
pending_of (e, p) = broken e

abbrev pub user_pending : Option Wire → Pending
user_pending none = nothing
user_pending (some p) = got p

-- One turn of the loop: the port `idx`. A disabled link is not read.
unfoldable pub poll_port : NodeContext → Inputs → ℕ → Option Pending
poll_port ctx inputs idx =
    if idx == ctx.config.num_neighbors
    then some (user_pending inputs.user)
    else (load ctx.link_states idx >>= λ up.
        some (if up then pending_of (inputs.socket idx) else nothing))

unfoldable pub next_port : NodeContext → ℕ → ℕ
next_port ctx idx = (idx + 1) % (ctx.config.num_neighbors + 1)

-- The result of node_recv: no packet, a packet and its port (a uint8_t), or the end of the thread.
pub data Received : Type 0 where
  no_packet : Received
  packet_on : ℕ → Wire → Received
  exited : ErrorCode → Received

-- The do-while loop, on fuel; `none` is a read outside link_states or fuel that ran out.
unfoldable pub node_recv_from : ℕ → NodeContext → Inputs → ℕ → ℕ → Option (ℕ × Received)
node_recv_from zero ctx inputs stop idx = none
node_recv_from (suc fuel) ctx inputs stop idx =
    let rest = node_recv_from fuel ctx inputs stop (next_port ctx idx) in
    poll_port ctx inputs idx >>= elim [
      | nothing ↦ if next_port ctx idx == stop then some (stop, no_packet) else rest
      | got p ↦ some (next_port ctx idx, packet_on (idx % 2 ^ 8) p)
      | broken e ↦ some (idx, exited e)
    ]

-- One turn for each port is enough.
unfoldable pub node_recv : NodeContext → Inputs → Option (NodeContext × Received)
node_recv ctx inputs =
    node_recv_from (ctx.config.num_neighbors + 1) ctx inputs ctx.rx_port_idx ctx.rx_port_idx
    >>= λ (idx, r). some (record ctx { rx_port_idx = idx }, r)
