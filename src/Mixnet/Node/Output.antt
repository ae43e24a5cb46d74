-- ===== src/Mixnet/Node/Output.antt =====
-- mixnet/node.c: what the packets that a node sends look like, and where they go.
use fall23_p.Prelude.{
  ℕ, zero, suc, ◌+◌, ◌≤◌, ◌<◌, ◌≡◌, refl, ◌⊎◌, inl, inr, Bool, true, false, ◌∷◌, arith, All,
  All-append, if◌then◌else◌, ◌==◌, Bool-cases,
}
use fall23_p.Mixnet.PacketType
use fall23_p.Mixnet.Packet.{Packet, initialize_stp_packet, initialize_flood_packet}
use fall23_p.Mixnet.Node.Flooding.{port_list, flood_list, floods, forwards}
use fall23_p.Mixnet.Node.{Node, send_stp, send_stp_from, to_user, flood_packet}

-- An announcement to a neighbour, or a flood to a neighbour or the user.
abbrev pub IsOwnPacket : ℕ → ℕ × Packet → Type 0
IsOwnPacket n (port, p) =
    ((port < n) × (p.type ≡ PacketType.stp) × (p.total_size ≡ 18))
    ⊎ ((port ≤ n) × (p.type ≡ PacketType.flood) × (p.total_size ≡ 12))

send_stp_from-own :
    (node : Node) (n i k : ℕ) → i + k ≤ n → All (IsOwnPacket n) (send_stp_from node i k)
unfolding send_stp_from initialize_stp_packet
send_stp_from-own node n i zero h = tt
send_stp_from-own node n i (suc k) h =
    (inl (omega arith, refl, refl), send_stp_from-own node n (i + 1) k (omega arith))

pub send_stp-own : (node : Node) → All (IsOwnPacket node.num_neighbors) (send_stp node)
unfolding send_stp
send_stp-own node = send_stp_from-own node node.num_neighbors 0 node.num_neighbors (omega arith)

port_list-own :
    (f : ℕ → Bool) (node : Node) (n i k : ℕ)
    → i + k ≤ n
    → All (IsOwnPacket n) (port_list f (flood_packet node) i k)
unfolding port_list initialize_flood_packet
port_list-own f node n i zero h = tt
port_list-own f node n i (suc k) h =
    let rest = port_list-own f node n (i + 1) k (omega arith) in
    elim (f i)
      as (λ b. All (IsOwnPacket n) (
        if b
        then (i, flood_packet node) ∷ port_list f (flood_packet node) (i + 1) k
        else port_list f (flood_packet node) (i + 1) k)) [
          | true ↦ (inr (omega arith, refl, refl), rest)
          | false ↦ rest
        ]

to_user-own : (node : Node) (s : ℕ) → All (IsOwnPacket node.num_neighbors) (to_user node s)
unfolding to_user initialize_flood_packet
to_user-own node s = elim (Bool-cases (s == node.num_neighbors)) [
  | inl user ↦ rw user tt
  | inr other ↦ rw other (inr (omega arith, refl, refl), tt)
]

pub floods-own : (node : Node) (s : ℕ) → All (IsOwnPacket node.num_neighbors) (floods node s)
unfolding floods
floods-own node s =
    All-append (IsOwnPacket node.num_neighbors) (flood_list node s 0 node.num_neighbors)
      (to_user node s)
      (port_list-own (forwards node s) node node.num_neighbors 0 node.num_neighbors (omega arith))
      (to_user-own node s)
