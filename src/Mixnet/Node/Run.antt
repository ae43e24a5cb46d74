-- ===== src/Mixnet/Node/Run.antt =====
-- mixnet/node.c, run_node: the invariant and the packets sent, over the rounds of the loop.
use fall23_p.Prelude.{
  All, sym, ◌∙◌, false, ◌↔◌, All-append, Bool-cases, ℕ, ◌+◌, ◌%◌, ◌^◌, ◌≤◌, ◌<◌, ◌≡◌, refl, ◌≢◌,
  ◌⊎◌, inl, inr, List, [], ◌∷◌, ◌++◌, Option, none, some, arith, load-in_bounds, ◌==◌,
}
use fall23_p.Mixnet.Packet.{u16, Packet, Stp}
use fall23_p.Mixnet.PacketType
use fall23_p.Mixnet.Config.{NodeConfig}
use fall23_p.Mixnet.Node.{Sends, send_stp}
use fall23_p.Mixnet.Node.Loop.{
  make_root, State, Round, initial_node, initial_state, root_hello, re_elect, is_parent_hello,
  handle_stp, handle_flood, handle, round, rounds, run_node, after_copy,
}
use fall23_p.Mixnet.Node.Output.{IsOwnPacket, send_stp-own, floods-own}
use fall23_p.Mixnet.Node.Invariant.{IsSound, Owned, receive_stp-IsSound, initial_node-IsSound}
use fall23_p.Mixnet.Node.Overread.{IsWhole, has_overread, has_overread-IsWhole, timers-overread}
use fall23_p.Mixnet.Node.Flooding.{floods, send_flood-floods}

-- What a node may get from mixnet_recv: an STP packet comes from a neighbour, any other packet from a
-- neighbour or the user, and the path length is a uint16_t.
abbrev pub IsInput : ℕ → Option (ℕ × Packet) → Type 0
IsInput n none = Unit {0}
IsInput n (some (port, packet)) =
    (packet.payload.path_length < 2 ^ 16)
    × ((port < n) ⊎ ((port ≡ n) × (packet.type ≢ PacketType.stp)))

abbrev pub AreInputs : ℕ → List Round → Type 0
AreInputs n [] = Unit {0}
AreInputs n (r ∷ rs) = IsInput n r.received × AreInputs n rs

module _ {n own : ℕ} where
  handle_stp-IsSound :
      (s : State) (r : Round) (port : ℕ) (u : Stp)
      → IsSound n own s.node
      → port < n
      → u.path_length < 2 ^ 16
      → (s' : State) × (out : Sends) × (handle_stp s r port u ≡ some (s', out))
        × IsSound n own s'.node
        × Owned n out
        × (s'.overread ≡ s.overread)
  unfolding handle_stp
  handle_stp-IsSound s r port u v p l =
      let (node', out, e, v', o) = receive_stp-IsSound s.node port u v p l in
      elim (Bool-cases (is_parent_hello s.node u)) [
        | inl hello ↦ (
          record s { re_election_time = r.parent_now },
          send_stp s.node,
          rw hello,
          v,
          rw (← v.count) (send_stp-own s.node),
          refl,
        )
        | inr other ↦ (record s { node = node' }, out, rw (other, e), v', o, refl)
      ]

  handle_flood-IsSound :
      (s : State) (port : ℕ)
      → IsSound n own s.node
      → port ≤ n
      → (s' : State) × (out : Sends) × (handle_flood s port ≡ some (s', out))
        × (s'.node ≡ s.node)
        × Owned n out
        × (s'.overread ≡ s.overread)
  unfolding handle_flood
  handle_flood-IsSound s port v p =
      let e = send_flood-floods s.node port (omega arith) in
      let o : Owned n (floods s.node port) = rw (← v.count) (floods-own s.node port) in
      elim (Bool-cases (port == s.node.num_neighbors)) [
        | inl user ↦ (
          record s { num_user_packets = u16 (s.num_user_packets + 1) },
          floods s.node port,
          rw (user, e),
          refl,
          o,
          refl,
        )
        | inr other ↦
            let (blocked, l) = load-in_bounds s.node.neighbors_blocked port (ground arith) in
            elim (Bool-cases blocked) [
              | inl closed ↦ (s, [], rw (other, l, closed), refl, tt, refl)
              | inr clear ↦ (s, floods s.node port, rw (other, l, clear, e), refl, o, refl)
            ]
      ]

  root_hello-Owned :
      (config : NodeConfig) (s : State) (r : Round)
      → IsSound n own s.node
      → Owned n (root_hello config s r).1
  unfolding root_hello
  root_hello-Owned config s r v =
      let o : Owned n (send_stp s.node) = rw (← v.count) (send_stp-own s.node) in ground (arith, o)

  re_elect-Owned :
      (config : NodeConfig) (s : State) (r : Round)
      → IsSound n own s.node
      → Owned n (re_elect config s r).1
  unfolding re_elect
  re_elect-Owned config s r v =
      let o : Owned n (send_stp (make_root s.node)) =
        rw (← v.count) (send_stp-own (make_root s.node)) in
      ground (arith, o)

  pub root_hello-IsSound :
      (config : NodeConfig) (s : State) (r : Round)
      → IsSound n own s.node
      → IsSound n own (root_hello config s r).0.node
  unfolding root_hello
  root_hello-IsSound config s r v = ground arith

  pub re_elect-IsSound :
      (config : NodeConfig) (s : State) (r : Round)
      → IsSound n own s.node
      → IsSound n own (re_elect config s r).0.node
  unfolding re_elect
  re_elect-IsSound config s r v = ground arith

  handle-IsSound :
      (s : State) (r : Round) (received : Option (ℕ × Packet))
      → IsSound n own s.node
      → IsInput n received
      → (s' : State) × (out : Sends) × (handle s r received ≡ some (s', out))
        × IsSound n own s'.node
        × Owned n out
        × (s'.overread ≡ has_overread n s received)
  unfolding handle
  handle-IsSound s r none v i = (s, [], refl, v, tt, refl)
  handle-IsSound s r (some (port, packet)) v i = elim (Bool-cases (packet.type == PacketType.stp)) [
    | inl is_stp ↦
        let (s', out, e, v', o, kept) =
          handle_stp-IsSound (after_copy s port packet) r port packet.payload v (ground arith)
            i.0 in
        (s', out, rw is_stp e, v', o, rw (← v.count) kept)
    | inr other ↦
        let (s', out, e, same, o, kept) =
          handle_flood-IsSound (after_copy s port packet) port v (ground arith) in
        elim (Bool-cases (packet.type == PacketType.flood)) [
          | inl is_flood ↦ (s', out, rw (other, is_flood) e, rw same v, o, rw (← v.count) kept)
          | inr unknown ↦
              (after_copy s port packet, [], rw (other, unknown), v, tt, rw (← v.count) refl)
        ]
  ]

  -- A round on a sound node with an input as mixnet_recv gives it reads and writes only within the
  -- node's arrays, and leaves the node sound; it reads past the end of a packet that is too short.
  pub round-IsSound :
      (config : NodeConfig) (s : State) (r : Round)
      → IsSound n own s.node
      → IsInput n r.received
      → (s' : State) × (out : Sends) × (round config s r ≡ some (s', out))
        × IsSound n own s'.node
        × Owned n out
        × ((s'.overread ≡ false) ↔ ((s.overread ≡ false) × IsWhole n r))
  unfolding round
  round-IsSound config s r v i =
      let hello = root_hello config s r in
      let elected = re_elect config hello.0 r in
      let v' = re_elect-IsSound config hello.0 r (root_hello-IsSound config s r v) in
      let (s', out, e, w, o, over) = handle-IsSound elected.0 r r.received v' i in
      let whole = has_overread-IsWhole n elected.0 r r.received refl in
      let kept = timers-overread config s r in
      (
        s',
        hello.1 ++ elected.1 ++ out,
        rw e,
        w,
        All-append (IsOwnPacket n) (hello.1 ++ elected.1) out
            (All-append (IsOwnPacket n) hello.1 elected.1 (root_hello-Owned config s r v)
              (re_elect-Owned config hello.0 r (root_hello-IsSound config s r v)))
            o,
        (
          (λ x. let y = whole.0 (sym over ∙ x) in (sym kept ∙ y.0, y.1)),
          (λ x. over ∙ whole.1 (kept ∙ x.0, x.1)),
        ),
      )

  rounds-IsSound :
      (config : NodeConfig) (s : State) (rs : List Round)
      → IsSound n own s.node
      → AreInputs n rs
      → (s' : State) × (out : Sends) × (rounds config s rs ≡ some (s', out))
        × IsSound n own s'.node
        × Owned n out
        × ((s'.overread ≡ false) ↔ ((s.overread ≡ false) × All (IsWhole n) rs))
  unfolding rounds
  rounds-IsSound config s [] v i = (s, [], refl, v, tt, ((λ x. (x, tt)), (λ x. x.0)))
  rounds-IsSound config s (r ∷ rs) v i =
      let (s', out, e, v', o, over) = round-IsSound config s r v i.0 in
      let (last, later, e', w, o', over') = rounds-IsSound config s' rs v' i.1 in
      (
        last,
        out ++ later,
        rw (e, e'),
        w,
        All-append (IsOwnPacket n) out later o o',
        (
          (λ x. let (first, rest) = over'.0 x in let y = over.0 first in (y.0, (y.1, rest))),
          (λ x. over'.1 (over.1 (x.0, x.1.0), x.1.1)),
        ),
      )

-- Whatever a node receives but an STP packet on its user's port, in whatever order and at whatever
-- times, run_node reads and writes neighbors_addy and neighbors_blocked within their bounds, keeps its
-- address, and ends a round with a root that is not above its own address: itself at distance 0, or a
-- lower address at a distance from 1 to 65536. All that it sends are STP packets of 18 bytes to
-- neighbours and FLOOD packets of 12 bytes to neighbours or the user. And it never reads past the end
-- of a packet exactly if every packet from a neighbour has at least 18 bytes: a FLOOD packet of 12
-- bytes is read past its end. Ports are those of a neighbour or the user, and a path length fits 16
-- bits.
pub run_node-IsSound :
    (config : NodeConfig) (start : ℕ × ℕ) (rs : List Round)
    → AreInputs (config.num_neighbors % 2 ^ 8) rs
    → (s : State) × (out : Sends) × (run_node config start rs ≡ some (s, out))
      × IsSound (config.num_neighbors % 2 ^ 8) config.node_addr s.node
      × Owned (config.num_neighbors % 2 ^ 8) out
      × ((s.overread ≡ false) ↔ All (IsWhole (config.num_neighbors % 2 ^ 8)) rs)
unfolding run_node initial_state
run_node-IsSound config start rs i =
    let (s, out, e, v, o, over) =
      rounds-IsSound config (initial_state config start.0 start.1) rs (initial_node-IsSound config)
        i in
    (
      s,
      send_stp (initial_node config) ++ out,
      rw e,
      v,
      All-append (IsOwnPacket (config.num_neighbors % 2 ^ 8)) (send_stp (initial_node config)) out
          (unfold initial_node in send_stp-own (initial_node config)) o,
      ((λ x. (over.0 x).1), (λ x. over.1 (refl, x))),
    )
