-- ===== src/Mixnet/Node/Priority.antt =====
-- mixnet/node.c, receive_STP: what becomes of the root, the path length and the next hop.
use fall23_p.Mixnet.Node.Ports.{HasPorts, after_update, receive_stp-known}
use fall23_p.Prelude.{
  some, [], List, Bool, ◌∷◌, ℕ, ◌+◌, ◌<◌, ◌≡◌, ◌⊎◌, arith, ap, zero, suc, refl, if◌then◌else◌, load,
  length, false, true, ◌≢◌,
}
use fall23_p.Mixnet.Packet.{Stp, invalid_address}
use fall23_p.Mixnet.Node.{Node, adopt, send_stp_from, stp_packet, send_stp, Sends, receive_stp}

-- What the protocol compares: the root, then the length of the path to it, then the next hop.
pub record Route : Type 0 where
  pub root : ℕ
  pub len : ℕ
  pub hop : ℕ

abbrev pub route : Node → Route
route node = record { root = node.root_addr; len = node.path_len; hop = node.next_hop }

-- The route that a neighbour's message offers.
abbrev pub offer : Stp → Route
offer u = record { root = u.root_address; len = u.path_length + 1; hop = u.node_address }

-- `a` comes before `b` in the lexicographic order.
infix 50 ◌≺◌
abbrev pub ◌≺◌ : Route → Route → Type 0
a ≺ b =
    (a.root < b.root)
    ⊎ ((a.root ≡ b.root) × (a.len < b.len))
    ⊎ ((a.root ≡ b.root) × (a.len ≡ b.len) × (a.hop < b.hop))

-- The blocked flags do not enter an announcement.
send_stp_from-blocked :
    (node : Node) (bs : List Bool) (i k : ℕ)
    → send_stp_from (record node { neighbors_blocked = bs }) i k ≡ send_stp_from node i k
unfolding send_stp_from
send_stp_from-blocked node bs i zero = refl
send_stp_from-blocked node bs i (suc k) =
    ap (◌∷◌ (i, stp_packet node)) (send_stp_from-blocked node bs (i + 1) k)

pub adopt-cases :
    (node : Node) (u : Stp)
    → ((offer u ≺ route node) × ((adopt node u).1 ≡ true) × (route (adopt node u).0 ≡ offer u))
      ⊎ ((¬ (offer u ≺ route node)) × (adopt node u ≡ (node, false)))
unfolding adopt
adopt-cases node u = ground arith

module _ (node : Node) (port : ℕ) (u : Stp) (v : HasPorts node)
    (h : port < length node.neighbors_blocked) {a : ℕ} (e : load node.neighbors_addy port ≡ some a)
    (known : a ≢ invalid_address) where
  after_update-route :
      (route (after_update node port u) ≡ route (adopt node u).0)
      × (send_stp (after_update node port u) ≡ send_stp (adopt node u).0)
  unfolding after_update send_stp
  after_update-route = (refl, send_stp_from-blocked (adopt node u).0 _ 0 _)

  -- An STP packet on a port whose neighbour's address is known, of a node whose arrays have an entry
  -- for each port, leaves the node with the better of its route and the route offered, in the
  -- lexicographic order of root, distance and next hop. Where the offer is better the node announces
  -- the new route to its neighbours, and otherwise it sends nothing.
  pub receive_stp-IsBest :
      (node' : Node) × (out : Sends) × (receive_stp node port u ≡ some (node', out))
      × (((offer u ≺ route node) × (route node' ≡ offer u) × (out ≡ send_stp node'))
          ⊎ ((¬ (offer u ≺ route node)) × (route node' ≡ route node) × (out ≡ [])))
  receive_stp-IsBest = (
    after_update node port u,
    if (adopt node u).1 then send_stp (adopt node u).0 else [],
    receive_stp-known node port u v h e known,
    ground (arith, adopt-cases node u, after_update-route),
  )
