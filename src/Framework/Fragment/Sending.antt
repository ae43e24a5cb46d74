-- ===== src/Framework/Fragment/Sending.antt =====
-- framework/fragment.cpp, node_send: which packets of the node program it lets through.
use fall23_p.Prelude.{
  Bool-cases, ◌-◌, ◌==◌, ℕ, ◌+◌, ◌≤◌, ◌<◌, ◌≡◌, ◌⊎◌, inl, inr, Bool, true, arith, ◌*◌,
}
use fall23_p.Mixnet.PacketType
use fall23_p.Mixnet.Wire.{Wire, lsa_neighbor_count, route_length}
use fall23_p.Framework.ErrorCode.{ErrorCode, success}
use fall23_p.Framework.Fragment.NodeContext.{
  NodeContext, transmitted, mirrored, consumed, node_send, validate_size, send_to_user,
  send_to_neighbor, is_user_type,
}

-- The sizes that each type of packet must have, as packet.h lays them out.
pub data IsSized (p : Wire) : Type 0 where
  stp : p.type ≡ PacketType.stp → p.total_size ≡ 18 → IsSized p
  flood : p.type ≡ PacketType.flood → p.total_size ≡ 12 → IsSized p
  lsa : p.type ≡ PacketType.lsa → p.total_size ≡ 16 + 4 * lsa_neighbor_count p → IsSized p
  packet_data : p.type ≡ PacketType.packet_data → IsSized p
  ping : p.type ≡ PacketType.ping → p.total_size ≡ 30 + 2 * route_length p → IsSized p

validate_size-IsSized :
    (p : Wire)
    → 12 ≤ p.total_size
    → validate_size (record p { reserved = 0 }) (p.total_size - 12) ≡ true
    → IsSized p
unfolding validate_size
validate_size-IsSized p h v = elim (Bool-cases (p.type == PacketType.stp)) [
  | inl e ↦ stp (ground arith) (ground arith)
  | inr not_stp ↦ elim (Bool-cases (p.type == PacketType.flood)) [
    | inl e ↦ flood (ground arith) (ground arith)
    | inr not_flood ↦ elim (Bool-cases (p.type == PacketType.lsa)) [
      | inl e ↦ lsa (ground arith) (ground arith)
      | inr not_lsa ↦ elim (Bool-cases (p.type == PacketType.packet_data)) [
        | inl e ↦ packet_data (ground arith)
        | inr not_data ↦ ping (ground arith) (ground arith)
      ]
    ]
  ]
]

-- A packet that reaches a neighbour's socket went to a port below the number of neighbours, has a
-- size from 12 to 4096 that fits its type, and leaves with its reserved field cleared and the rest
-- as the node built it.
pub node_send-transmitted :
    (ctx : NodeContext) (port : ℕ) (p : Wire) (alloc : Bool) (tx : ErrorCode) (q : ℕ) (w : Wire)
    → node_send ctx port p alloc tx ≡ transmitted q w
    → (q ≡ port)
      × (port < ctx.config.num_neighbors)
      × (12 ≤ p.total_size)
      × (p.total_size ≤ 4096)
      × IsSized p
      × (w ≡ record p { reserved = 0 })
      × (tx ≡ success)
unfolding node_send send_to_user send_to_neighbor
node_send-transmitted ctx port p alloc tx q w e = (
  ground arith,
  ground arith,
  ground arith,
  ground arith,
  validate_size-IsSized p (ground arith) (ground arith),
  ground arith,
  ground arith,
)

-- A packet leaves through the user's port, on its way to the orchestrator or dropped there, only if
-- it is a flood, a data or a ping packet.
pub node_send-to_user :
    (ctx : NodeContext) (port : ℕ) (p : Wire) (alloc : Bool) (tx : ErrorCode)
    → (node_send ctx port p alloc tx ≡ mirrored (record p { reserved = 0 }))
      ⊎ (node_send ctx port p alloc tx ≡ consumed)
    → (port ≡ ctx.config.num_neighbors)
      × IsSized p
      × ((p.type ≡ PacketType.flood)
          ⊎ ((p.type ≡ PacketType.packet_data) ⊎ (p.type ≡ PacketType.ping)))
unfolding node_send send_to_user send_to_neighbor is_user_type
node_send-to_user ctx port p alloc tx e =
    (ground arith, validate_size-IsSized p (ground arith) (ground arith), ground arith)
