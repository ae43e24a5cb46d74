-- ===== src/Framework/Fragment/Receiving.antt =====
-- framework/fragment.cpp, node_recv: the turns of the ports.
use native.Mathlib.Nat.{mod-add-mod, add_assoc, add-zero, mod-eq_of_lt}
use fall23_p.Prelude.{
  refl, inl, inr, ◌⊎◌, ℕ, zero, suc, ◌+◌, ◌%◌, ◌^◌, ◌≤◌, ◌<◌, ◌≡◌, ◌≢◌, true, List, [], ◌∷◌, arith,
  some, load, length, if◌then◌else◌, load-in_bounds, ◌==◌, ℕ_discrete, ap,
}
use native.Mathlib.Numerals.{one-add}
use fall23_p.Mixnet.Wire.{Wire}
use fall23_p.Framework.ErrorCode.{ErrorCode}
use fall23_p.Framework.Fragment.NodeContext.{
  NodeContext, Inputs, Pending, nothing, got, broken, Received, no_packet, packet_on, exited,
  pending_of, user_pending, poll_port, node_recv_from, next_port, node_recv,
}

-- What a port has to offer: the user's port, or a neighbour's whose link is up.
unfoldable pub ready : NodeContext → Inputs → ℕ → Pending
ready ctx inputs p =
    if p == ctx.config.num_neighbors
    then user_pending inputs.user
    else elim (load ctx.link_states p) [ some true ↦ pending_of (inputs.socket p) | _ ↦ nothing ]

-- `k` ports in turn among `n + 1`, from `start`.
pub turns : ℕ → ℕ → ℕ → List ℕ
turns n start zero = []
turns n start (suc k) = start % (n + 1) ∷ turns n (start + 1) k

-- One pass over the ports: the first that offers something decides, and the next call starts behind
-- it.
pub serve : (ℕ → Pending) → ℕ → ℕ → List ℕ → ℕ × Received
serve offers n stop [] = (stop, no_packet)
serve offers n stop (p ∷ ps) =
    let rest = serve offers n stop ps in
    elim (offers p) [
      | nothing ↦ rest
      | got w ↦ ((p + 1) % (n + 1), packet_on (p % 2 ^ 8) w)
      | broken e ↦ (p, exited e)
    ]

poll_port-ready :
    (ctx : NodeContext) (inputs : Inputs) (p : ℕ)
    → ctx.config.num_neighbors ≤ length ctx.link_states
    → p ≤ ctx.config.num_neighbors
    → poll_port ctx inputs p ≡ some (ready ctx inputs p)
unfolding poll_port ready
poll_port-ready ctx inputs p h k = elim (ℕ_discrete p ctx.config.num_neighbors) [
  | yes user ↦ ground arith
  | no other ↦ let (up, l) = load-in_bounds ctx.link_states p (omega arith) in ground (arith, l)
]

-- The turn comes back to the start after `n + 1` steps and not before.
turn_back : (n stop : ℕ) → stop ≤ n → (stop + n + 1) % (n + 1) ≡ stop
turn_back n stop h = grind arith

turn_early : (n stop k : ℕ) → stop ≤ n → k < n → (stop + k + 1) % (n + 1) ≢ stop
turn_early n stop k h l = grind arith

turn_next : (n a : ℕ) → (a % (n + 1) + 1) % (n + 1) ≡ (a + 1) % (n + 1)
turn_next n a = simp mod-add-mod

module _ (ctx : NodeContext) (inputs : Inputs) where
  abbrev n : ℕ
  n = ctx.config.num_neighbors

  node_recv_from-serve :
      (fuel k stop : ℕ)
      → n ≤ length ctx.link_states
      → stop ≤ n
      → k + fuel ≡ n + 1
      → k ≤ n
      → node_recv_from fuel ctx inputs stop ((stop + k) % (n + 1))
        ≡ some (serve (ready ctx inputs) n stop (turns n (stop + k) fuel))
  unfolding node_recv_from serve turns next_port
  node_recv_from-serve zero k stop h s e l = absurd (omega arith)
  node_recv_from-serve (suc zero) k stop h s e l =
      let last : k ≡ n = omega arith in
      ground (
        arith,
        poll_port-ready ctx inputs ((stop + k) % (n + 1)) h (omega arith),
        turn_next n (stop + k),
        turn_back n stop s,
      )
  node_recv_from-serve (suc (suc fuel)) k stop h s e l =
      let p = (stop + k) % (n + 1) in
      let ih = node_recv_from-serve (suc fuel) (k + 1) stop h s (omega arith) (omega arith) in
      ground (
        arith,
        ih,
        add_assoc stop k 1,
        poll_port-ready ctx inputs p h (omega arith),
        turn_next n (stop + k),
        turn_early n stop k s (omega arith),
      )

  -- node_recv returns after at most one turn of each port: it offers what the first port with
  -- something to offer has, counted in turn from the port where it stands, and stands behind that
  -- port afterwards, or on it if the thread ends with an error; a link that is down offers nothing.
  -- There is a link state for each neighbour, and the call starts at one of the ports.
  pub node_recv-serve :
      n ≤ length ctx.link_states
      → ctx.rx_port_idx ≤ n
      → let served = serve (ready ctx inputs) n ctx.rx_port_idx (turns n ctx.rx_port_idx (n + 1)) in
        node_recv ctx inputs ≡ some (record ctx { rx_port_idx = served.0 }, served.1)
  unfolding node_recv
  node_recv-serve h s =
      let e = node_recv_from-serve (n + 1) 0 ctx.rx_port_idx h s (omega arith) (omega arith) in
      let start : (ctx.rx_port_idx + 0) % (n + 1) ≡ ctx.rx_port_idx =
        rw add-zero (mod-eq_of_lt (omega arith)) in
      rw (rw (start, add-zero) at e)

Pending-cases :
    (x : Pending)
    → (x ≡ nothing) ⊎ (((w : Wire) × (x ≡ got w)) ⊎ ((e : ErrorCode) × (x ≡ broken e)))
Pending-cases nothing = inl refl
Pending-cases (got w) = inr (inl (w, refl))
Pending-cases (broken e) = inr (inr (e, refl))

-- Port `q` has its turn `d` turns after port `idx`.
abbrev pub IsAhead : ℕ → ℕ → ℕ → ℕ → Type 0
IsAhead n idx q d = (idx + d) % (n + 1) ≡ q

module _ (offers : ℕ → Pending) (n stop q : ℕ) (w : Wire) (waiting : offers q ≡ got w) where
  serve-waiting :
      (k start d : ℕ)
      → IsAhead n start q d
      → d < k
      → let served = serve offers n stop (turns n start k) in
        (served ≡ ((q + 1) % (n + 1), packet_on (q % 2 ^ 8) w))
        ⊎ (((d' : ℕ) × (d' < d) × IsAhead n served.0 q d')
            ⊎ ((e : ErrorCode) × (served.1 ≡ exited e)))
  unfolding serve turns
  serve-waiting zero start d a h = absurd (omega arith)
  serve-waiting (suc k) start zero a h =
      let here : start % (n + 1) ≡ q = rw add-zero at a in
      let offered : offers (start % (n + 1)) ≡ got w = rw here waiting in
      inl (rw offered (rw here refl))
  serve-waiting (suc k) start (suc d) a h =
      let p = start % (n + 1) in
      let ahead : IsAhead n (start + 1) q d = rw (add_assoc, one-add) a in
      elim (Pending-cases (offers p)) [
        | inl none_here ↦ rw none_here (elim (serve-waiting k (start + 1) d ahead (omega arith)) [
          | inl now ↦ inl now
          | inr (inl (d', less, later)) ↦ inr (inl (d', omega arith, later))
          | inr (inr over) ↦ inr (inr over)
        ])
        | inr (inl (v, first)) ↦
            rw first (inr (inl (d, omega arith, rw (turn_next n start, mod-add-mod) ahead)))
        | inr (inr (e, fails)) ↦ rw fails (inr (inr (e, refl)))
      ]

-- A packet that waits on port `q`, whose turn is `d` turns ahead, is returned by this call of
-- node_recv, or the turn of its port comes closer, or the thread ends with an error. There is a link
-- state for each neighbour, and the call starts at one of the ports.
pub node_recv-waiting :
    (ctx : NodeContext) (inputs : Inputs) (q d : ℕ) (w : Wire)
    → ctx.config.num_neighbors ≤ length ctx.link_states
    → ctx.rx_port_idx ≤ ctx.config.num_neighbors
    → ready ctx inputs q ≡ got w
    → d ≤ ctx.config.num_neighbors
    → IsAhead ctx.config.num_neighbors ctx.rx_port_idx q d
    → (ctx' : NodeContext) × (r : Received) × (node_recv ctx inputs ≡ some (ctx', r))
      × ((r ≡ packet_on (q % 2 ^ 8) w)
          ⊎ (((d' : ℕ) × (d' < d) × IsAhead ctx.config.num_neighbors ctx'.rx_port_idx q d')
              ⊎ ((e : ErrorCode) × (r ≡ exited e))))
node_recv-waiting ctx inputs q d w links idx waiting close ahead =
    let n = ctx.config.num_neighbors in
    let served = serve (ready ctx inputs) n ctx.rx_port_idx (turns n ctx.rx_port_idx (n + 1)) in
    (
      record ctx { rx_port_idx = served.0 },
      served.1,
      node_recv-serve ctx inputs links idx,
      elim (serve-waiting (ready ctx inputs) n ctx.rx_port_idx q w waiting (n + 1) ctx.rx_port_idx d
          ahead (omega arith)) [
            | inl now ↦ inl (ap (λ (r : ℕ × Received). r.1) now)
            | inr later ↦ inr later
          ],
    )
