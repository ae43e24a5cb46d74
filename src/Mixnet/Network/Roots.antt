-- ===== src/Mixnet/Network/Roots.antt =====
-- mixnet/node.c: the roots that the nodes of a network take.
use mathlib.Core.Path.{subst}
use mathlib.Core.Option.{some-injective}
use fall23_p.Prelude.{
  ℕ, zero, suc, ◌+◌, ◌%◌, ◌^◌, ◌≤◌, ◌<◌, ◌≡◌, ◌⊎◌, inl, inr, List, [], ◌∷◌, ◌++◌, Option, none,
  some, load, set, refl, sym, ◌∙◌, arith, All, All-append, All-load, ℕ_discrete, in_bounds-load,
  get_elem?-set_self, get_elem?-set_ne,
}
use fall23_p.Mixnet.Config.{NodeConfig}
use fall23_p.Mixnet.Packet.{Packet}
use fall23_p.Mixnet.Node.{Sends, send_stp}
use fall23_p.Mixnet.Node.Invariant.{IsSound, initial_node-IsSound}
use fall23_p.Mixnet.Node.Offers.{OffersOf, Offers, IsOffer, Leads, send_stp-Offers, round-Leads}
use fall23_p.Mixnet.Node.Run.{IsInput, round-IsSound}
use fall23_p.Mixnet.Node.Loop.{State, Round, initial_node, initial_state, round}
use fall23_p.Mixnet.Network.{
  Network, packets, Arrives, nothing, from_neighbor, from_user, booted, Reaches, boot, step,
}

-- The address of one of the nodes.
abbrev pub IsNode : List NodeConfig → ℕ → Type 0
IsNode configs a =
    (j : ℕ) × (config : NodeConfig) × (load configs j ≡ some config) × (config.node_addr ≡ a)

packets-Offers :
    (A : ℕ → Type 0) (out : Sends) → All (Offers A) out → All (OffersOf A) (packets out)
packets-Offers A [] h = tt
packets-Offers A ((port, p) ∷ out) h = (h.0, packets-Offers A out h.1)

module _ (A : ℕ → Type 0) where
  -- A node of a configuration, with a root in `A`.
  abbrev IsRooted : NodeConfig → State → Type 0
  IsRooted config s =
      IsSound (config.num_neighbors % 2 ^ 8) config.node_addr s.node × A s.node.root_addr

  -- A network in which every node has a root in `A`, and every packet offers one.
  record AreRooted (configs : List NodeConfig) (net : Network) : Type 0 where
    each :
        (i : ℕ) (config : NodeConfig)
        → load configs i ≡ some config
        → (s : State) × (load net.states i ≡ some s) × IsRooted config s
    offers : All (OffersOf A) net.sent

  Arrives-IsInput :
      (n : ℕ) (net : Network) (x : Option (ℕ × Packet))
      → All (OffersOf A) net.sent
      → Arrives n net x
      → IsInput n x × IsOffer A x
  Arrives-IsInput n net none offers nothing = (tt, tt)
  Arrives-IsInput n net (some (port, p)) offers (from_neighbor k below sent) =
      let offer = All-load (OffersOf A) net.sent k p offers sent in
      ((offer.1, inl below), inr offer)
  Arrives-IsInput n net (some (port, p)) offers (from_user untyped fits) =
      ((fits, inr (refl, untyped)), inl untyped)

  cons-each :
      (config : NodeConfig) (configs : List NodeConfig) (s : State) (states : List State)
      → IsRooted config s
      → ((i : ℕ) (c : NodeConfig)
          → load configs i ≡ some c
          → (t : State) × (load states i ≡ some t) × IsRooted c t)
      → (i : ℕ) (c : NodeConfig) → load (config ∷ configs) i ≡ some c
      → (t : State) × (load (s ∷ states) i ≡ some t) × IsRooted c t
  cons-each config configs s states first rest zero c e =
      (s, refl, subst (λ x. IsRooted x s) (some-injective _ _ e) first)
  cons-each config configs s states first rest (suc i) c e = rest i c e

  booted-AreRooted :
      (starts : ℕ → ℕ × ℕ) (idx : ℕ) (configs : List NodeConfig)
      → ((i : ℕ) (config : NodeConfig) → load configs i ≡ some config → A config.node_addr)
      → AreRooted configs (booted starts idx configs)
  unfolding initial_state
  booted-AreRooted starts idx [] h = record { each = λ i config e. absurd (cc); offers = tt }
  booted-AreRooted starts idx (config ∷ configs) h =
      let net = booted starts (idx + 1) configs in
      let rest = booted-AreRooted starts (idx + 1) configs (λ i c e. h (suc i) c e) in
      let root : A (initial_node config).root_addr = unfold initial_node in h 0 config refl in
      record {
        each =
            cons-each config configs (initial_state config (starts idx).0 (starts idx).1) net.states
              (initial_node-IsSound config, root) rest.each;
        offers =
            All-append (OffersOf A) (packets (send_stp (initial_node config))) net.sent
              (packets-Offers A (send_stp (initial_node config))
                (send_stp-Offers A (initial_node config) root))
              rest.offers;
      }

  set-each :
      (configs : List NodeConfig) (net : Network) (i : ℕ) (config : NodeConfig) (s' : State)
      → load configs i ≡ some config
      → IsRooted config s'
      → ((j : ℕ) (c : NodeConfig)
          → load configs j ≡ some c
          → (t : State) × (load net.states j ≡ some t) × IsRooted c t)
      → (j : ℕ) (c : NodeConfig) → load configs j ≡ some c
      → (t : State) × (load (set net.states i s') j ≡ some t) × IsRooted c t
  set-each configs net i config s' at rooted each j c e = elim (ℕ_discrete i j) [
    | yes same ↦
        let (t, there, _) = each j c e in
        let here : load configs j ≡ some config =
          subst (λ k. load configs k ≡ some config) same at in
        (
          s',
          subst (λ k. load (set net.states i s') k ≡ some s') same
              (get_elem?-set_self net.states i s'
                (omega (arith, same, in_bounds-load net.states j there))),
          subst (λ x. IsRooted x s') (some-injective _ _ (sym here ∙ e)) rooted,
        )
    | no other ↦
        let (t, there, r) = each j c e in (t, get_elem?-set_ne net.states s' other ∙ there, r)
  ]

  -- A round of one node leads to a network of the same kind.
  step-AreRooted :
      (configs : List NodeConfig) (net : Network) (i : ℕ) (config : NodeConfig) (s s' : State)
      (r : Round) (out : Sends)
      → A config.node_addr
      → load configs i ≡ some config
      → load net.states i ≡ some s
      → Arrives (config.num_neighbors % 2 ^ 8) net r.received
      → round config s r ≡ some (s', out)
      → AreRooted configs net
      → AreRooted configs (record { states = set net.states i s'; sent = packets out ++ net.sent })
  step-AreRooted configs net i config s s' r out own at state arrives done rooted =
      let (t, there, rooted_t) = rooted.each i config at in
      let same : t ≡ s = some-injective _ _ (sym there ∙ state) in
      let (input, offer) =
        Arrives-IsInput (config.num_neighbors % 2 ^ 8) net r.received rooted.offers arrives in
      let (sound, root) : IsRooted config s = subst (IsRooted config) same rooted_t in
      let (x, y, e, sound', _, _) = round-IsSound config s r sound input in
      let (z, f, leads) = round-Leads A own config s r sound input offer root in
      let is_x : (x, y) ≡ (s', out) = some-injective _ _ (sym e ∙ done) in
      let is_z : z ≡ (s', out) = some-injective _ _ (sym f ∙ done) in
      let leads' : Leads A (s', out) = subst (Leads A) is_z leads in
      record {
        each =
            set-each configs net i config s' at
              (
                subst (λ w. IsSound (config.num_neighbors % 2 ^ 8) config.node_addr (w.0).node) is_x
                    sound',
                leads'.0,
              )
              rooted.each;
        offers =
            All-append (OffersOf A) (packets out) net.sent (packets-Offers A out leads'.1)
              rooted.offers;
      }

  Reaches-AreRooted :
      (configs : List NodeConfig) (starts : ℕ → ℕ × ℕ) (net : Network)
      → ((i : ℕ) (config : NodeConfig) → load configs i ≡ some config → A config.node_addr)
      → Reaches configs starts net
      → AreRooted configs net
  Reaches-AreRooted configs starts net members boot = booted-AreRooted starts 0 configs members
  Reaches-AreRooted configs starts net members
        (step net' i config s s' r out before at state arrives done) =
      step-AreRooted configs net' i config s s' r out (members i config at) at state arrives done
        (Reaches-AreRooted configs starts net' members before)

-- Where a node with the address `own` stands in a network whose lowest address is `lowest`: it is its
-- own root, or it is further away from a root that is another node, not below the lowest.
abbrev pub HasRoot : List NodeConfig → ℕ → ℕ → State → Type 0
HasRoot configs lowest own s =
    ((s.node.root_addr ≡ own) × (s.node.path_len ≡ 0))
    ⊎ (IsNode configs s.node.root_addr
        × (lowest ≤ s.node.root_addr)
        × (s.node.root_addr < own)
        × (1 ≤ s.node.path_len))

-- Whatever rounds the nodes of a network take, in whatever order, and whatever the links lose, delay,
-- reorder or repeat: each node is its own root at distance 0, or its root is the address of another
-- node, lower than its own and not below the lowest, and it is further away. So the node with the
-- lowest address always stays its own root. And no round fails: whatever can arrive at a node next,
-- its round reads and writes within the node's arrays. No address is below `lowest`.
pub Reaches-HasRoot :
    (configs : List NodeConfig) (starts : ℕ → ℕ × ℕ) (net : Network) (lowest i : ℕ)
    (config : NodeConfig)
    → Reaches configs starts net
    → ((j : ℕ) (c : NodeConfig) → load configs j ≡ some c → lowest ≤ c.node_addr)
    → load configs i ≡ some config
    → (s : State) × (load net.states i ≡ some s)
      × HasRoot configs lowest config.node_addr s
      × ((r : Round)
          → Arrives (config.num_neighbors % 2 ^ 8) net r.received
          → (s' : State) × (out : Sends) × (round config s r ≡ some (s', out)))
Reaches-HasRoot configs starts net lowest i config reaches low at =
    let A : ℕ → Type 0 = IsNode configs in
    let rooted = Reaches-AreRooted A configs starts net (λ j c e. (j, c, e, refl)) reaches in
    let (s, there, (sound, root)) = rooted.each i config at in
    (
      s,
      there,
      elim (sound.position) [
        | inl own ↦ inl (own.0, own.1)
        | inr below ↦ inr (root, rw (sym root.3) (low root.0 root.1 root.2), below.0, below.1)
      ],
      (λ r arrives.
          let (input, _) =
            Arrives-IsInput A (config.num_neighbors % 2 ^ 8) net r.received rooted.offers arrives in
          let (s', out, e, _, _, _) = round-IsSound config s r sound input in (s', out, e)),
    )
