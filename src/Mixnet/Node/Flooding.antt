-- ===== src/Mixnet/Node/Flooding.antt =====
-- mixnet/node.c: where send_FLOOD and send_STP send.
use fall23_p.Prelude.{
  ℕ, zero, suc, ◌+◌, ◌≤◌, ◌≡◌, refl, Bool, false, not, ◌&&◌, ◌||◌, List, [], ◌∷◌, ◌++◌, none, some,
  arith, ltb, leb, ◌==◌, if◌then◌else◌, load, length, load-in_bounds, ◌≢◌, true, ℕ_discrete, ap,
}
use fall23_p.Mixnet.Packet.{Packet}
use fall23_p.Mixnet.Node.{
  Node, Sends, send_stp, send_stp_from, send_flood, send_flood_from, to_user, stp_packet,
  flood_packet,
}

-- The packets sent on port `p`, in order.
pub sent_on : ℕ → Sends → List Packet
sent_on p [] = []
sent_on p ((q, packet) ∷ out) = let rest = sent_on p out in if q == p then packet ∷ rest else rest

sent_on-append : (p : ℕ) (xs ys : Sends) → sent_on p (xs ++ ys) ≡ sent_on p xs ++ sent_on p ys
unfolding sent_on
sent_on-append p [] ys = refl
sent_on-append p ((q, packet) ∷ xs) ys = ground (arith, sent_on-append p xs ys)

-- The port is that of a neighbour, is not blocked, and is not the one that the flood came from.
abbrev pub forwards : Node → ℕ → ℕ → Bool
forwards node sender_port p =
    elim (load node.neighbors_blocked p) [ none ↦ false | some b ↦ not b ] && not (p == sender_port)

-- `packet` once on each of the ports `i` to `i + k - 1` that `open_port` admits.
unfoldable pub port_list : (ℕ → Bool) → Packet → ℕ → ℕ → Sends
port_list open_port packet i zero = []
port_list open_port packet i (suc k) =
    let rest = port_list open_port packet (i + 1) k in
    if open_port i then (i, packet) ∷ rest else rest

abbrev pub flood_list : Node → ℕ → ℕ → ℕ → Sends
flood_list node s = port_list (forwards node s) (flood_packet node)

window : ℕ → ℕ → ℕ → Bool
window i k p = leb i p && ltb p (i + k)

window-zero : (i p : ℕ) → window i 0 p ≡ false
unfolding window
window-zero i p = ground arith

window-first : (i k : ℕ) → (window i (suc k) i ≡ true) × (window (i + 1) k i ≡ false)
unfolding window
window-first i k = ground arith

window-next : (i k p : ℕ) → i ≢ p → window i (suc k) p ≡ window (i + 1) k p
unfolding window
window-next i k p h = ground arith

sent_on-port_list :
    (f : ℕ → Bool) (packet : Packet) (i k p : ℕ)
    → sent_on p (port_list f packet i k) ≡ (if window i k p && f p then packet ∷ [] else [])
unfolding port_list sent_on
sent_on-port_list f packet i zero p = rw (window-zero i p)
sent_on-port_list f packet i (suc k) p =
    let ih = sent_on-port_list f packet (i + 1) k p in
    elim (ℕ_discrete i p) [
      | yes same ↦ rw (← same) (ground (arith, window-first i k, rw (← same) at ih))
      | no other ↦ ground (arith, window-next i k p other, ih)
    ]

send_flood_from-flood_list :
    (node : Node) (s i k : ℕ)
    → i + k ≤ length node.neighbors_blocked
    → send_flood_from node s i k ≡ some (flood_list node s i k)
unfolding send_flood_from port_list
send_flood_from-flood_list node s i zero h = refl
send_flood_from-flood_list node s i (suc k) h =
    let (b, l) = load-in_bounds node.neighbors_blocked i (omega arith) in
    ground (arith, l, send_flood_from-flood_list node s (i + 1) k)

-- What send_FLOOD sends.
unfoldable pub floods : Node → ℕ → Sends
floods node s = flood_list node s 0 node.num_neighbors ++ to_user node s

pub send_flood-floods :
    (node : Node) (s : ℕ)
    → node.num_neighbors ≤ length node.neighbors_blocked
    → send_flood node s ≡ some (floods node s)
unfolding send_flood floods
send_flood-floods node s h = ground (arith, send_flood_from-flood_list node s 0 node.num_neighbors)

-- A flood goes once to each neighbour whose port is not blocked and is not the sender's, once to the
-- user unless it came from there, and nowhere else. There is a blocked flag for each neighbour.
pub send_flood-sent_on :
    (node : Node) (s p : ℕ)
    → node.num_neighbors ≤ length node.neighbors_blocked
    → (out : Sends) × (send_flood node s ≡ some out)
      × (sent_on p out ≡ (
          if (ltb p node.num_neighbors && forwards node s p)
            || ((p == node.num_neighbors) && not (s == node.num_neighbors))
          then flood_packet node ∷ []
          else []))
send_flood-sent_on node s p h = (
  floods node s,
  send_flood-floods node s h,
  unfold floods to_user sent_on window in
      ground (
        arith,
        sent_on-append p (flood_list node s 0 node.num_neighbors) (to_user node s),
        sent_on-port_list (forwards node s) (flood_packet node) 0 node.num_neighbors p,
      ),
)

send_stp_from-port_list :
    (node : Node) (i k : ℕ) → send_stp_from node i k ≡ port_list (λ _. true) (stp_packet node) i k
unfolding send_stp_from port_list
send_stp_from-port_list node i zero = refl
send_stp_from-port_list node i (suc k) =
    ap (◌∷◌ (i, stp_packet node)) (send_stp_from-port_list node (i + 1) k)

-- An announcement goes once to each neighbour, blocked or not, and not to the user.
pub send_stp-sent_on :
    (node : Node) (p : ℕ)
    → sent_on p (send_stp node) ≡ (if ltb p node.num_neighbors then stp_packet node ∷ [] else [])
unfolding send_stp
send_stp-sent_on node p = rw (send_stp_from-port_list node 0 node.num_neighbors) (
    unfold window in
    ground (arith, sent_on-port_list (λ _. true) (stp_packet node) 0 node.num_neighbors p))
