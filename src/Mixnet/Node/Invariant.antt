-- ===== src/Mixnet/Node/Invariant.antt =====
-- mixnet/node.c, run_node: what holds of a node between two rounds of the loop.
use fall23_p.Prelude.{
  All, Bool-cases, ℕ, ◌%◌, ◌^◌, ◌≤◌, ◌<◌, ◌≡◌, ◌⊎◌, inl, inr, true, false, [], some, arith, length,
  if◌then◌else◌, load-in_bounds, set, length-set, length-replicate, ℕ_discrete,
}
use fall23_p.Mixnet.Packet.{Stp, invalid_address}
use fall23_p.Mixnet.Node.Output.{IsOwnPacket, send_stp-own}
use fall23_p.Mixnet.Config.{NodeConfig}
use fall23_p.Mixnet.Node.{Node, Sends, adopt, receive_stp, send_stp}
use fall23_p.Mixnet.Node.Ports.{
  HasPorts, after_update, after_update-HasPorts, receive_stp-known, receive_stp-unknown,
}
use fall23_p.Mixnet.Node.Loop.{initial_node}

-- Every packet is an announcement or a flood of the node.
abbrev pub Owned : ℕ → Sends → Type 0
Owned n out = All (IsOwnPacket n) out

-- A node with `n` ports and the address `own`: its root never lies above its own address, and it is
-- at distance 0, its own next hop, when it is its own root, and further away otherwise.
pub record IsSound (n own : ℕ) (node : Node) : Type 0 where
  pub has_ports : HasPorts node
  pub count : node.num_neighbors ≡ n
  pub address : node.my_addr ≡ own
  pub position :
      ((node.root_addr ≡ own) × (node.path_len ≡ 0) × (node.next_hop ≡ own))
      ⊎ ((node.root_addr < own) × (1 ≤ node.path_len) × (node.path_len ≤ 2 ^ 16))

module _ {n own : ℕ} (node : Node) (port : ℕ) (u : Stp) where
  after_update-IsSound :
      IsSound n own node
      → port < n
      → u.path_length < 2 ^ 16
      → IsSound n own (after_update node port u)
  unfolding after_update adopt
  after_update-IsSound s p l = record {
    has_ports = after_update-HasPorts node port u s.has_ports (omega arith);
    count = ground arith;
    address = ground arith;
    position = ground arith;
  }

  adopt-count : IsSound n own node → (adopt node u).0.num_neighbors ≡ n
  unfolding adopt
  adopt-count s = ground arith

  changed-Owned :
      IsSound n own node → Owned n (if (adopt node u).1 then send_stp (adopt node u).0 else [])
  changed-Owned s = elim (Bool-cases (adopt node u).1) [
    | inl better ↦ rw better (rw (← adopt-count s) (send_stp-own (adopt node u).0))
    | inr worse ↦ rw worse tt
  ]

  pub receive_stp-IsSound :
      IsSound n own node
      → port < n
      → u.path_length < 2 ^ 16
      → (node' : Node) × (out : Sends) × (receive_stp node port u ≡ some (node', out))
        × IsSound n own node'
        × Owned n out
  receive_stp-IsSound s p l =
      let h : port < length node.neighbors_blocked = omega arith in
      let (a, e) = load-in_bounds node.neighbors_addy port (omega arith) in
      elim (ℕ_discrete a invalid_address) [
        | yes new ↦ (
          record node {
            neighbors_addy = set node.neighbors_addy port u.node_address;
            neighbors_blocked = set node.neighbors_blocked port false;
          },
          [],
          receive_stp-unknown node port u s.has_ports h (rw new at e),
          ground (
            arith,
            length-set node.neighbors_addy port u.node_address,
            length-set node.neighbors_blocked port false,
          ),
          tt,
        )
        | no known ↦ (
          after_update node port u,
          if (adopt node u).1 then send_stp (adopt node u).0 else [],
          receive_stp-known node port u s.has_ports h e known,
          after_update-IsSound s p l,
          changed-Owned s,
        )
      ]

pub initial_node-IsSound :
    (config : NodeConfig)
    → IsSound (config.num_neighbors % 2 ^ 8) config.node_addr (initial_node config)
unfolding initial_node
initial_node-IsSound config = ground (
  arith,
  length-replicate config.num_neighbors invalid_address,
  length-replicate config.num_neighbors true,
)
