-- ===== src/Framework/Fragment/Delivery.antt =====
-- mixnet/node.c over framework/fragment.cpp: the packets of the node in node_send.
use fall23_p.Prelude.{
  ℕ, ◌%◌, ◌^◌, ◌<◌, ◌≡◌, ◌⊎◌, Bool, not, if◌then◌else◌, List, arith, some, All, All-map,
}
use fall23_p.Mixnet.Packet.{Packet}
use fall23_p.Mixnet.Wire.{wire}
use fall23_p.Mixnet.Node.{Sends}
use fall23_p.Mixnet.Node.Output.{IsOwnPacket}
use fall23_p.Mixnet.Node.Loop.{State, Round, run_node}
use fall23_p.Mixnet.Node.Run.{AreInputs, run_node-IsSound}
use fall23_p.Framework.Buffer.{Buffer}
use fall23_p.Framework.ErrorCode.{ErrorCode, is_success, fragment_pcap_mq_full}
use fall23_p.Framework.Fragment.NodeContext.{
  NodeContext, transmitted, mirrored, consumed, died, node_send, validate_size, is_user_type,
  send_to_user, send_to_neighbor,
}

-- node_send on a packet laid out in memory `b`, whether the pcap queue has room or not (`alloc`) and
-- whatever the socket answers (`tx`). On a neighbour's port the packet is transmitted as it is, or the
-- thread ends with the error of the socket. On the user's port it is mirrored to a subscriber, or the
-- thread ends because the queue is full; without a subscriber it is consumed.
abbrev pub IsDelivered : NodeContext → Buffer → Bool → ErrorCode → ℕ × Packet → Type 0
IsDelivered ctx b alloc tx (port, packet) =
    ((port < ctx.config.num_neighbors)
      × (node_send ctx port (wire packet b 0) alloc tx
          ≡ (if is_success tx then transmitted port (wire packet b 0) else died tx)))
    ⊎ ((port ≡ ctx.config.num_neighbors)
        × (node_send ctx port (wire packet b 0) alloc tx ≡ (
            if not ctx.is_pcap_subscribed
            then consumed
            else if alloc
            then mirrored (wire packet b 0)
            else died fragment_pcap_mq_full)))

own-IsDelivered :
    (ctx : NodeContext) (b : Buffer) (alloc : Bool) (tx : ErrorCode) (s : ℕ × Packet)
    → IsOwnPacket ctx.config.num_neighbors s
    → IsDelivered ctx b alloc tx s
unfolding node_send validate_size is_user_type send_to_user send_to_neighbor wire
own-IsDelivered ctx b alloc tx (port, packet) own = ground arith

-- A node with fewer than 256 neighbours never has a packet rejected by node_send, whatever it receives
-- but an STP packet on its user's port. Each packet that it sends to a neighbour goes there unchanged if
-- the socket takes it, and otherwise ends the thread with the error of the socket; a packet to the user
-- is mirrored to a subscriber if there is room in the pcap queue, ends the thread if there is none, and
-- is consumed without a subscriber. The packets received come on the ports of neighbours or the user,
-- with a path length that fits 16 bits.
pub run_node-IsDelivered :
    (ctx : NodeContext) (b : Buffer) (alloc : Bool) (tx : ErrorCode) (start : ℕ × ℕ)
    (rs : List Round)
    → ctx.config.num_neighbors < 2 ^ 8
    → AreInputs ctx.config.num_neighbors rs
    → (s : State) × (out : Sends) × (run_node ctx.config start rs ≡ some (s, out))
      × All (IsDelivered ctx b alloc tx) out
run_node-IsDelivered ctx b alloc tx start rs few i =
    let same : ctx.config.num_neighbors % 2 ^ 8 ≡ ctx.config.num_neighbors = omega arith in
    let (s, out, e, _, own, _) = run_node-IsSound ctx.config start rs (rw same i) in
    (s, out, e, All-map _ _ (own-IsDelivered ctx b alloc tx) out (rw same at own))
