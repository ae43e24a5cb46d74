-- ===== src/Mixnet/Node.antt =====
-- mixnet/node.c: the state of a node, the packets it sends, and what it does with an STP packet.
-- A read or write past the end of an array is the result `none`.
pub mod Loop
pub mod Priority
pub mod Ports
pub mod Blocking
pub mod Flooding
pub mod Output
pub mod Invariant
pub mod Overread
pub mod Run
pub mod Offers
pub mod Timers
pub mod UserPort
use fall23_p.Prelude.{
  ℕ, zero, suc, ◌+◌, Bool, true, false, not, ◌&&◌, List, [], ◌∷◌, ◌++◌, Option, none, some, ltb,
  ◌==◌, if◌then◌else◌, ◌>>=◌, load, store,
}
use fall23_p.Mixnet.Packet.{
  Packet, Stp, initialize_stp_packet, initialize_flood_packet, invalid_address,
}

-- struct node. An entry of `neighbors_addy` is an int16_t, held as its bit pattern: -1 is 0xffff.
pub record Node : Type 0 where
  pub num_neighbors : ℕ
  pub neighbors_addy : List ℕ
  pub neighbors_blocked : List Bool
  pub root_addr : ℕ
  pub my_addr : ℕ
  pub next_hop : ℕ
  pub path_len : ℕ

-- The calls of mixnet_send, in order: port and packet.
abbrev pub Sends : Type 0
Sends = List (ℕ × Packet)

abbrev pub stp_packet : Node → Packet
stp_packet node = initialize_stp_packet node.root_addr node.path_len node.my_addr

abbrev pub flood_packet : Node → Packet
flood_packet node = initialize_flood_packet node.root_addr node.path_len node.my_addr

-- The loop of send_STP, from port `i` with `k` ports left.
unfoldable pub send_stp_from : Node → ℕ → ℕ → Sends
send_stp_from node i zero = []
send_stp_from node i (suc k) = (i, stp_packet node) ∷ send_stp_from node (i + 1) k

unfoldable pub send_stp : Node → Sends
send_stp node = send_stp_from node 0 node.num_neighbors

-- The loop of send_FLOOD.
pub send_flood_from : Node → ℕ → ℕ → ℕ → Option Sends
send_flood_from node sender_port i zero = some []
send_flood_from node sender_port i (suc k) = do
  blocked ← load node.neighbors_blocked i
  rest ← send_flood_from node sender_port (i + 1) k
  some (if not blocked && not (i == sender_port) then (i, flood_packet node) ∷ rest else rest)

unfoldable pub to_user : Node → ℕ → Sends
to_user node sender_port =
    if not (sender_port == node.num_neighbors)
    then (node.num_neighbors, flood_packet node) ∷ []
    else []

pub send_flood : Node → ℕ → Option Sends
send_flood node sender_port = do
  out ← send_flood_from node sender_port 0 node.num_neighbors
  some (out ++ to_user node sender_port)

-- The first three branches of receive_STP: take over the root, path and next hop that `u` offers
-- if they are better, and say whether they were.
pub adopt : Node → Stp → Node × Bool
adopt node u =
    if ltb u.root_address node.root_addr
    then (
      record node {
        root_addr = u.root_address;
        path_len = u.path_length + 1;
        next_hop = u.node_address;
      },
      true,
    )
    else if u.root_address == node.root_addr && ltb (u.path_length + 1) node.path_len
    then (record node { path_len = u.path_length + 1; next_hop = u.node_address }, true)
    else if u.root_address == node.root_addr
        && (u.path_length + 1 == node.path_len)
        && ltb u.node_address node.next_hop
    then (record node { next_hop = u.node_address }, true)
    else (node, false)

-- The loop that blocks every port, from port `i` with `k` ports left.
pub block_from : List Bool → ℕ → ℕ → Option (List Bool)
block_from blocked i zero = some blocked
block_from blocked i (suc k) = do blocked' ← store blocked i true; block_from blocked' (i + 1) k

-- `if (state_changed)`: tell the neighbours, then block every port.
pub announce : Node → Bool → Option (Node × Sends)
announce node false = some (node, [])
announce node true = do
  blocked ← block_from node.neighbors_blocked 0 node.num_neighbors
  some (record node { neighbors_blocked = blocked }, send_stp node)

-- The value that the last three branches write to `neighbors_blocked[port]`.
pub blocks : Node → Stp → Bool
blocks node u =
    if u.node_address == node.next_hop
    then false
    else if u.root_address == node.root_addr && (u.path_length == node.path_len + 1)
    then false
    else true

pub set_port : Node → ℕ → Stp → Option Node
unfolding blocks
set_port node port u = do
  blocked ← store node.neighbors_blocked port (blocks node u)
  some (record node { neighbors_blocked = blocked })

-- The first STP packet on a port is used for the neighbour's address alone.
pub first_contact : Node → ℕ → Stp → Option Node
first_contact node port u = do
  addy ← store node.neighbors_addy port u.node_address
  blocked ← store node.neighbors_blocked port false
  some (record node { neighbors_addy = addy; neighbors_blocked = blocked })

pub update_tree : Node → ℕ → Stp → Option (Node × Sends)
update_tree node port u = do
  (announced, out) ← announce (adopt node u).0 (adopt node u).1
  node' ← set_port announced port u
  some (node', out)

-- The result `true` of receive_STP is not used.
pub receive_stp : Node → ℕ → Stp → Option (Node × Sends)
unfolding first_contact update_tree
receive_stp node port u = do
  addy ← load node.neighbors_addy port
  if addy == invalid_address
      then (first_contact node port u >>= λ node'. some (node', []))
      else update_tree node port u
