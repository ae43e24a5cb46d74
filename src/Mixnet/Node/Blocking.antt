-- ===== src/Mixnet/Node/Blocking.antt =====
-- mixnet/node.c, receive_STP: the blocked flags after an STP packet.
use fall23_p.Prelude.{
  refl, sym, ℕ, ◌+◌, ◌<◌, ◌≡◌, ◌≢◌, ◌↔◌, ◌⊎◌, inl, inr, true, false, [], some, arith, if◌then◌else◌,
  load, length, set, get_elem?-set_self, get_elem?-set_ne, ℕ_discrete,
}
use fall23_p.Mixnet.Packet.{Stp, invalid_address}
use fall23_p.Mixnet.Node.{Node, Sends, adopt, blocks, receive_stp, send_stp}
use fall23_p.Mixnet.Node.Ports.{
  HasPorts, after_update, block_range, length-block_range, load-block_range, receive_stp-known,
  receive_stp-unknown,
}
use fall23_p.Mixnet.Node.Priority.{◌≺◌, route, offer, adopt-cases}

-- The sender is the node's parent, or a child: it has the node's root and is one step further.
abbrev pub IsTreeLink : Node → Stp → Type 0
IsTreeLink node u =
    (u.node_address ≡ node.next_hop)
    ⊎ ((u.root_address ≡ node.root_addr) × (u.path_length ≡ node.path_len + 1))

blocks-IsTreeLink : (node : Node) (u : Stp) → (blocks node u ≡ false) ↔ IsTreeLink node u
unfolding blocks
blocks-IsTreeLink node u = ground arith

module _ (node : Node) (port : ℕ) (u : Stp) (v : HasPorts node)
    (h : port < length node.neighbors_blocked) where
  after_update-flag :
      load (after_update node port u).neighbors_blocked port ≡ some (blocks (adopt node u).0 u)
  unfolding after_update
  after_update-flag = ground (
    arith,
    length-block_range 0 node.num_neighbors node.neighbors_blocked,
    get_elem?-set_self node.neighbors_blocked port (blocks (adopt node u).0 u),
    get_elem?-set_self (block_range 0 node.num_neighbors node.neighbors_blocked) port
        (blocks (adopt node u).0 u),
  )

  module _ {a : ℕ} (e : load node.neighbors_addy port ≡ some a) (known : a ≢ invalid_address) where
    -- After an STP packet from a known neighbour the port that it came through is open exactly if it
    -- lies on the tree: the sender is the node's parent, by the new route, or it has the node's root
    -- and is one step further away. The node's arrays have an entry for each port.
    pub receive_stp-port_flag :
        (node' : Node) × (out : Sends) × (receive_stp node port u ≡ some (node', out))
        × ((load node'.neighbors_blocked port ≡ some false) ↔ IsTreeLink node' u)
    unfolding after_update
    receive_stp-port_flag = (
      after_update node port u,
      if (adopt node u).1 then send_stp (adopt node u).0 else [],
      receive_stp-known node port u v h e known,
      ground (arith, after_update-flag, blocks-IsTreeLink (adopt node u).0 u),
    )

    -- An STP packet from a known neighbour blocks every other port if the route that it offers is
    -- better than the node's, and leaves the other ports as they are if not. The node's arrays have an
    -- entry for each port.
    pub receive_stp-other_ports :
        (j : ℕ)
        → j < node.num_neighbors
        → j ≢ port
        → (node' : Node) × (out : Sends) × (receive_stp node port u ≡ some (node', out))
          × (((offer u ≺ route node) × (load node'.neighbors_blocked j ≡ some true))
              ⊎ ((¬ (offer u ≺ route node))
                  × (load node'.neighbors_blocked j ≡ load node.neighbors_blocked j)))
    unfolding after_update
    receive_stp-other_ports j below other = (
      after_update node port u,
      if (adopt node u).1 then send_stp (adopt node u).0 else [],
      receive_stp-known node port u v h e known,
      ground (
        arith,
        adopt-cases node u,
        load-block_range node.num_neighbors j node.neighbors_blocked,
        get_elem?-set_ne node.neighbors_blocked {i = port} {j = j} (blocks (adopt node u).0 u),
        get_elem?-set_ne (block_range 0 node.num_neighbors node.neighbors_blocked) {i = port}
            {j = j} (blocks (adopt node u).0 u),
      ),
    )

  -- The first STP packet on a port records the neighbour's address and opens the port; it changes no
  -- other port and not the route, and nothing is sent. The node's arrays have an entry for each port.
  pub receive_stp-first_contact :
      (j : ℕ)
      → load node.neighbors_addy port ≡ some invalid_address
      → (node' : Node) × (receive_stp node port u ≡ some (node', []))
        × (route node' ≡ route node)
        × (load node'.neighbors_addy port ≡ some u.node_address)
        × (load node'.neighbors_blocked port ≡ some false)
        × ((j ≡ port)
            ⊎ ((load node'.neighbors_addy j ≡ load node.neighbors_addy j)
                × (load node'.neighbors_blocked j ≡ load node.neighbors_blocked j)))
  receive_stp-first_contact j e = (
    record node {
      neighbors_addy = set node.neighbors_addy port u.node_address;
      neighbors_blocked = set node.neighbors_blocked port false;
    },
    receive_stp-unknown node port u v h e,
    refl,
    get_elem?-set_self node.neighbors_addy port u.node_address (omega arith),
    get_elem?-set_self node.neighbors_blocked port false h,
    elim (ℕ_discrete j port) [
      | yes same ↦ inl same
      | no other ↦ inr (
        get_elem?-set_ne node.neighbors_addy u.node_address (λ p. other (sym p)),
        get_elem?-set_ne node.neighbors_blocked false (λ p. other (sym p)),
      )
    ],
  )
