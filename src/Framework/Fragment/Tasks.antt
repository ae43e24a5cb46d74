-- ===== src/Framework/Fragment/Tasks.antt =====
-- framework/fragment.cpp: what a fragment does for the orchestrator while a test case runs. A failed
-- assertion and a write past the end of a buffer are the result `none`.
use fall23_p.Prelude.{
  inl, inr, ℕ_discrete, sym, refl, ℕ, zero, suc, ◌+◌, ◌≤◌, ◌<◌, ◌≡◌, ◌≢◌, ◌⊎◌, Bool, true, false,
  ◌||◌, List, [], ◌∷◌, ◌++◌, Option, none, some, ltb, ◌==◌, if◌then◌else◌, ◌>>=◌, store, arith,
  load, length, replicate, get_elem?-set_self, get_elem?-set_ne, set,
}
use fall23_p.Mixnet.PacketType
use fall23_p.Mixnet.Packet.{
  u16, max_packet_size, sizeof_packet, sizeof_routing_header, max_data_size,
}
use fall23_p.Framework.ErrorCode.{
  ErrorCode, success, fragment_exception, recv_zero_pending, is_success,
}
use fall23_p.Framework.Fragment.NodeContext.{NodeContext}

-- The payload of a SEND_PACKET request; the data has `data_length` bytes.
pub record SendPacket : Type 0 where
  pub type : ℕ
  pub src_mixaddr : ℕ
  pub dst_mixaddr : ℕ
  pub data_length : ℕ

-- The packet that is put on the user queue: its header, and the routing header where it has one.
pub record UserPacket : Type 0 where
  pub total_size : ℕ
  pub type : ℕ
  pub routing : Option (ℕ × ℕ)
  pub copied : ℕ

abbrev is_routed : ℕ → Bool
is_routed type = (type == PacketType.packet_data) || (type == PacketType.ping)

-- The data that is copied behind the routing header.
abbrev copied_bytes : SendPacket → ℕ
copied_bytes p = if p.type == PacketType.packet_data then p.data_length else 0

abbrev used_bytes : SendPacket → ℕ
used_bytes p =
    sizeof_packet + (if is_routed p.type then sizeof_routing_header else 0) + copied_bytes p

user_packet : SendPacket → UserPacket
user_packet p = record {
  total_size = u16 (used_bytes p);
  type = p.type;
  routing = if is_routed p.type then some (p.src_mixaddr, p.dst_mixaddr) else none;
  copied = copied_bytes p;
}

-- `alloc` says whether the user queue has room. The packet's buffer has 4096 bytes.
pub task_send_packet : SendPacket → Bool → Option (ErrorCode × Option UserPacket)
unfolding user_packet
task_send_packet p alloc =
    if ltb max_packet_size (used_bytes p)
    then none
    else if alloc
    then some (success, some (user_packet p))
    else some (fragment_exception, none)

-- With data no longer than the orchestrator admits, the packet fits its buffer, its size counts the
-- header, and the routing header and the data exactly for the types that have them, and lies in the
-- range that a node may send; it has the type asked for, and the two addresses asked for if it is
-- routed. It is queued unless the queue is full.
pub task_send_packet-fits :
    (p : SendPacket) (alloc : Bool)
    → p.data_length ≤ max_data_size
    → (r : ErrorCode × Option UserPacket) × (task_send_packet p alloc ≡ some r)
      × (((alloc ≡ false) × (r ≡ (fragment_exception, none)))
          ⊎ ((alloc ≡ true)
              × (q : UserPacket) × (r ≡ (success, some q))
              × (12 ≤ q.total_size)
              × (q.total_size ≤ 4096)
              × (q.type ≡ p.type)
              × (((p.type ≡ PacketType.packet_data)
                    × (q.total_size ≡ 20 + p.data_length)
                    × (q.copied ≡ p.data_length)
                    × (q.routing ≡ some (p.src_mixaddr, p.dst_mixaddr)))
                  ⊎ (((p.type ≡ PacketType.ping)
                        × (q.total_size ≡ 20)
                        × (q.copied ≡ 0)
                        × (q.routing ≡ some (p.src_mixaddr, p.dst_mixaddr)))
                      ⊎ ((p.type ≢ PacketType.packet_data)
                          × (p.type ≢ PacketType.ping)
                          × (q.total_size ≡ 12)
                          × (q.copied ≡ 0)
                          × (q.routing ≡ none))))))
unfolding task_send_packet
task_send_packet-fits p false h = ((fragment_exception, none), ground arith, inl (refl, refl))
task_send_packet-fits p true h = (
  (success, some (user_packet p)),
  ground arith,
  inr (refl, user_packet p, refl, ground arith, ground arith, refl, ground arith),
)

-- The drain loop: `codes` are what _recv_once answers, call after call; `none` while it still
-- receives packets.
pub drain : List ErrorCode → Option ErrorCode
drain [] = none
drain (e ∷ es) = let rest = drain es in if is_success e then rest else some e

pub drained : ErrorCode → ErrorCode
drained recv_zero_pending = success
drained e = e

pub task_update_link_state :
    NodeContext → ℕ → Bool → List ErrorCode → Option (NodeContext × ErrorCode)
task_update_link_state ctx nid state codes =
    if ltb nid ctx.config.num_neighbors
    then (store ctx.link_states nid state >>= λ links.
        let ctx' = record ctx { link_states = links } in
        if state then some (ctx', success) else (drain codes >>= λ e. some (ctx', drained e)))
    else none

unfoldable pub task_update_pcap_subscription : NodeContext → Bool → NodeContext × ErrorCode
task_update_pcap_subscription ctx v = (record ctx { is_pcap_subscribed = v }, success)

drain-pending :
    (k : ℕ) (e : ErrorCode) (rest : List ErrorCode)
    → is_success e ≡ false
    → drain (replicate k success ++ e ∷ rest) ≡ some e
unfolding drain
drain-pending zero e rest h = rw h
drain-pending (suc k) e rest h = drain-pending k e rest h

-- A link change sets the state of that link alone. Taking a link down discards the `k` packets that
-- wait on it, and reports the error that ended the draining unless that was an empty socket. The link
-- is one of the node's, and there is a link state for each neighbour.
pub task_update_link_state-drains :
    (ctx : NodeContext) (nid j k : ℕ) (e : ErrorCode) (rest : List ErrorCode)
    → nid < ctx.config.num_neighbors
    → ctx.config.num_neighbors ≤ length ctx.link_states
    → is_success e ≡ false
    → (ctx' : NodeContext) × (task_update_link_state ctx nid false (replicate k success ++ e ∷ rest)
        ≡ some (ctx', drained e))
      × (load ctx'.link_states nid ≡ some false)
      × ((j ≡ nid) ⊎ (load ctx'.link_states j ≡ load ctx.link_states j))
      × (ctx'.rx_port_idx ≡ ctx.rx_port_idx)
unfolding task_update_link_state
task_update_link_state-drains ctx nid j k e rest h l f = (
  record ctx { link_states = set ctx.link_states nid false },
  ground (arith, drain-pending k e rest f),
  get_elem?-set_self ctx.link_states nid false (omega arith),
  elim (ℕ_discrete j nid) [
    | yes same ↦ inl same
    | no other ↦ inr (get_elem?-set_ne ctx.link_states false (λ p. other (sym p)))
  ],
  refl,
)
