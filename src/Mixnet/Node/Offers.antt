-- ===== src/Mixnet/Node/Offers.antt =====
-- mixnet/node.c, run_node: the root that a node takes, and the roots that its packets offer. `A` is a
-- set of addresses, to which the node's own address belongs.
use fall23_p.Prelude.{
  ℕ, zero, suc, ◌+◌, ◌^◌, ◌≤◌, ◌<◌, ◌≡◌, ◌≢◌, ◌⊎◌, inl, inr, Bool, false, not, ◌&&◌, leb, [], ◌++◌,
  Option, none, some, All, All-append, arith, refl, Bool-cases, load-in_bounds, ℕ_discrete, set,
  length, ◌==◌, if◌then◌else◌,
}
use fall23_p.Mixnet.Packet.{
  u16, invalid_address, Packet, Stp, initialize_stp_packet, initialize_flood_packet,
}
use fall23_p.Mixnet.PacketType
use fall23_p.Mixnet.Config.{NodeConfig}
use fall23_p.Mixnet.Node.{
  Node, Sends, adopt, receive_stp, send_stp, send_stp_from, to_user, stp_packet, flood_packet,
}
use fall23_p.Mixnet.Node.Ports.{after_update, receive_stp-known, receive_stp-unknown}
use fall23_p.Mixnet.Node.Flooding.{port_list, flood_list, floods, forwards, send_flood-floods}
use fall23_p.Mixnet.Node.Invariant.{IsSound}
use fall23_p.Mixnet.Node.Loop.{
  make_root, elapsed, State, Round, root_hello, re_elect, is_parent_hello, handle_stp, handle_flood,
  handle, round, after_copy,
}
use fall23_p.Mixnet.Node.Run.{IsInput, root_hello-IsSound, re_elect-IsSound}

-- A packet that offers a root in `A`, with a path length that fits 16 bits.
abbrev pub OffersOf : (ℕ → Type 0) → Packet → Type 0
OffersOf A p = A p.payload.root_address × (p.payload.path_length < 2 ^ 16)

abbrev pub Offers : (ℕ → Type 0) → ℕ × Packet → Type 0
Offers A (port, p) = OffersOf A p

module _ (A : ℕ → Type 0) where
  stp_packet-OffersOf : (node : Node) → A node.root_addr → OffersOf A (stp_packet node)
  unfolding initialize_stp_packet
  stp_packet-OffersOf node h = (h, omega arith)

  flood_packet-OffersOf : (node : Node) → A node.root_addr → OffersOf A (flood_packet node)
  unfolding initialize_flood_packet
  flood_packet-OffersOf node h = (h, omega arith)

  send_stp_from-Offers :
      (node : Node) (i k : ℕ) → A node.root_addr → All (Offers A) (send_stp_from node i k)
  unfolding send_stp_from
  send_stp_from-Offers node i zero h = tt
  send_stp_from-Offers node i (suc k) h =
      (stp_packet-OffersOf node h, send_stp_from-Offers node (i + 1) k h)

  pub send_stp-Offers : (node : Node) → A node.root_addr → All (Offers A) (send_stp node)
  unfolding send_stp
  send_stp-Offers node h = send_stp_from-Offers node 0 node.num_neighbors h

  port_list-Offers :
      (f : ℕ → Bool) (p : Packet) (i k : ℕ) → OffersOf A p → All (Offers A) (port_list f p i k)
  unfolding port_list
  port_list-Offers f p i zero h = tt
  port_list-Offers f p i (suc k) h = elim (Bool-cases (f i)) [
    | inl forwards_it ↦ rw forwards_it (h, port_list-Offers f p (i + 1) k h)
    | inr closed ↦ rw closed (port_list-Offers f p (i + 1) k h)
  ]

  to_user-Offers : (node : Node) (s : ℕ) → A node.root_addr → All (Offers A) (to_user node s)
  unfolding to_user
  to_user-Offers node s h = elim (Bool-cases (s == node.num_neighbors)) [
    | inl user ↦ rw user tt
    | inr other ↦ rw other (flood_packet-OffersOf node h, tt)
  ]

  floods-Offers : (node : Node) (s : ℕ) → A node.root_addr → All (Offers A) (floods node s)
  unfolding floods
  floods-Offers node s h =
      All-append (Offers A) (flood_list node s 0 node.num_neighbors) (to_user node s)
        (port_list-Offers (forwards node s) (flood_packet node) 0 node.num_neighbors
          (flood_packet-OffersOf node h))
        (to_user-Offers node s h)

  adopted_root :
      (node : Node) (u : Stp)
      → ((adopt node u).0.root_addr ≡ node.root_addr)
        ⊎ ((adopt node u).0.root_addr ≡ u.root_address)
  unfolding adopt
  adopted_root node u = ground arith

  adopt-root :
      (node : Node) (u : Stp) → A node.root_addr → A u.root_address → A (adopt node u).0.root_addr
  adopt-root node u h k = elim (adopted_root node u) [
    | inl kept ↦ rw kept h
    | inr taken ↦ rw taken k
  ]

  -- Where a part of a round leads: a root in `A`, and packets that offer roots in `A`.
  abbrev pub Leads : State × Sends → Type 0
  Leads (s, out) = A s.node.root_addr × All (Offers A) out

  -- What is received offers a root in `A`, if it is an STP packet.
  abbrev pub IsOffer : Option (ℕ × Packet) → Type 0
  IsOffer none = Unit {0}
  IsOffer (some (port, p)) = (p.type ≢ PacketType.stp) ⊎ OffersOf A p

  root_hello-Leads :
      (config : NodeConfig) (s : State) (r : Round)
      → A s.node.root_addr
      → Leads (root_hello config s r)
  unfolding root_hello
  root_hello-Leads config s r h =
      elim (Bool-cases (
        (s.node.root_addr == s.node.my_addr)
        && leb config.root_hello_interval_ms (elapsed r.hello_now s.heartbeat_time))) [
          | inl due ↦ rw due (h, send_stp-Offers s.node h)
          | inr early ↦ rw early (h, tt)
        ]

  module _ {n own : ℕ} (member : A own) where
    receive_stp-Offers :
        (node : Node) (port : ℕ) (u : Stp)
        → IsSound n own node
        → port < n
        → A node.root_addr
        → A u.root_address
        → (node' : Node) × (out : Sends) × (receive_stp node port u ≡ some (node', out))
          × A node'.root_addr
          × All (Offers A) out
    unfolding after_update
    receive_stp-Offers node port u s p h k =
        let below : port < length node.neighbors_blocked = omega arith in
        let (a, e) = load-in_bounds node.neighbors_addy port (omega arith) in
        let root = adopt-root node u h k in
        elim (ℕ_discrete a invalid_address) [
          | yes new ↦ (
            record node {
              neighbors_addy = set node.neighbors_addy port u.node_address;
              neighbors_blocked = set node.neighbors_blocked port false;
            },
            [],
            receive_stp-unknown node port u s.has_ports below (rw new at e),
            h,
            tt,
          )
          | no known ↦ (
            after_update node port u,
            if (adopt node u).1 then send_stp (adopt node u).0 else [],
            receive_stp-known node port u s.has_ports below e known,
            root,
            elim (Bool-cases (adopt node u).1) [
              | inl better ↦ rw better (send_stp-Offers (adopt node u).0 root)
              | inr worse ↦ rw worse tt
            ],
          )
        ]

    handle_stp-Leads :
        (s : State) (r : Round) (port : ℕ) (u : Stp)
        → IsSound n own s.node
        → port < n
        → A s.node.root_addr
        → A u.root_address
        → (x : State × Sends) × (handle_stp s r port u ≡ some x) × Leads x
    unfolding handle_stp
    handle_stp-Leads s r port u v p h k =
        let (node', out, e, root, offers) = receive_stp-Offers s.node port u v p h k in
        elim (Bool-cases (is_parent_hello s.node u)) [
          | inl hello ↦ (
            (record s { re_election_time = r.parent_now }, send_stp s.node),
            rw hello,
            (h, send_stp-Offers s.node h),
          )
          | inr other ↦ ((record s { node = node' }, out), rw (other, e), (root, offers))
        ]

    handle_flood-Leads :
        (s : State) (port : ℕ)
        → IsSound n own s.node
        → port ≤ n
        → A s.node.root_addr
        → (x : State × Sends) × (handle_flood s port ≡ some x) × Leads x
    unfolding handle_flood
    handle_flood-Leads s port v p h =
        let e = send_flood-floods s.node port (omega arith) in
        let o = floods-Offers s.node port h in
        elim (Bool-cases (port == s.node.num_neighbors)) [
          | inl user ↦ (
            (record s { num_user_packets = u16 (s.num_user_packets + 1) }, floods s.node port),
            rw (user, e),
            (h, o),
          )
          | inr other ↦
              let (blocked, l) = load-in_bounds s.node.neighbors_blocked port (ground arith) in
              elim (Bool-cases blocked) [
                | inl closed ↦ ((s, []), rw (other, l, closed), (h, tt))
                | inr clear ↦ ((s, floods s.node port), rw (other, l, clear, e), (h, o))
              ]
        ]

    handle-Leads :
        (s : State) (r : Round) (received : Option (ℕ × Packet))
        → IsSound n own s.node
        → IsInput n received
        → IsOffer received
        → A s.node.root_addr
        → (x : State × Sends) × (handle s r received ≡ some x) × Leads x
    unfolding handle
    handle-Leads s r none v i offer h = ((s, []), refl, (h, tt))
    handle-Leads s r (some (port, packet)) v i offer h =
        elim (Bool-cases (packet.type == PacketType.stp)) [
          | inl is_stp ↦
              let k : A packet.payload.root_address = elim offer [
                | inl untyped ↦ absurd (untyped (ground (arith, is_stp)))
                | inr offered ↦ offered.0
              ] in
              let (x, e, leads) =
                handle_stp-Leads (after_copy s port packet) r port packet.payload v (ground arith) h
                  k in
              (x, rw is_stp e, leads)
          | inr other ↦
              let (x, e, leads) =
                handle_flood-Leads (after_copy s port packet) port v (ground arith) h in
              elim (Bool-cases (packet.type == PacketType.flood)) [
                | inl is_flood ↦ (x, rw (other, is_flood) e, leads)
                | inr unknown ↦ ((after_copy s port packet, []), rw (other, unknown), (h, tt))
              ]
        ]

    re_elect-Leads :
        (config : NodeConfig) (s : State) (r : Round)
        → IsSound n own s.node
        → A s.node.root_addr
        → Leads (re_elect config s r)
    unfolding re_elect
    re_elect-Leads config s r v h =
        let mine : A s.node.my_addr = rw v.address member in
        elim (Bool-cases (
          not (s.node.root_addr == s.node.my_addr)
          && leb config.reelection_interval_ms (elapsed r.re_election_now s.re_election_time))) [
            | inl due ↦ rw due (mine, send_stp-Offers (make_root s.node) mine)
            | inr early ↦ rw early (h, tt)
          ]

    -- A round keeps the root in `A`, and its packets offer roots in `A`.
    pub round-Leads :
        (config : NodeConfig) (s : State) (r : Round)
        → IsSound n own s.node
        → IsInput n r.received
        → IsOffer r.received
        → A s.node.root_addr
        → (x : State × Sends) × (round config s r ≡ some x) × Leads x
    unfolding round
    round-Leads config s r v i offer h =
        let hello = root_hello config s r in
        let elected = re_elect config hello.0 r in
        let v' = root_hello-IsSound config s r v in
        let (h', o) = root_hello-Leads config s r h in
        let (h'', o') = re_elect-Leads config hello.0 r v' h' in
        let (x, e, leads) =
          handle-Leads elected.0 r r.received (re_elect-IsSound config hello.0 r v') i offer h'' in
        (
          (x.0, hello.1 ++ elected.1 ++ x.1),
          rw e,
          (
            leads.0,
            All-append (Offers A) (hello.1 ++ elected.1) x.1
                (All-append (Offers A) hello.1 elected.1 o o') leads.1,
          ),
        )
