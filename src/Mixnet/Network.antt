-- ===== src/Mixnet/Network.antt =====
-- mixnet/node.c: the nodes of a network that run at the same time. A step is one round of one node. The
-- links may lose, delay, reorder and repeat packets: any packet sent so far may arrive at any
-- neighbour's port, and packets of the user at the user's.
pub mod Roots
use fall23_p.Prelude.{
  ℕ, zero, suc, ◌+◌, ◌%◌, ◌^◌, ◌<◌, ◌≡◌, ◌≢◌, List, [], ◌∷◌, ◌++◌, Option, none, some, load, set,
  map,
}
use fall23_p.Mixnet.Config.{NodeConfig}
use fall23_p.Mixnet.Packet.{Packet}
use fall23_p.Mixnet.PacketType
use fall23_p.Mixnet.Node.{Sends, send_stp}
use fall23_p.Mixnet.Node.Loop.{State, Round, initial_node, initial_state, round}

-- The state of each node, and all packets sent so far.
pub record Network : Type 0 where
  pub states : List State
  pub sent : List Packet

-- The packets of a list of calls of mixnet_send.
abbrev pub packets : Sends → List Packet
packets [] = []
packets ((port, p) ∷ out) = p ∷ packets out

-- What mixnet_recv hands over to a node with `n` neighbours.
pub data Arrives (n : ℕ) (net : Network) : Option (ℕ × Packet) → Type 0 where
  nothing : Arrives n net none
  from_neighbor :
      {port : ℕ} {p : Packet} (k : ℕ)
      → port < n
      → load net.sent k ≡ some p
      → Arrives n net (some (port, p))
  from_user :
      {p : Packet}
      → p.type ≢ PacketType.stp
      → p.payload.path_length < 2 ^ 16
      → Arrives n net (some (n, p))

-- The nodes before their loops, the first of which reads the clock as `starts idx` says.
abbrev pub booted : (ℕ → ℕ × ℕ) → ℕ → List NodeConfig → Network
booted starts idx [] = record { states = []; sent = [] }
booted starts idx (config ∷ configs) =
    let rest = booted starts (idx + 1) configs in
    record {
      states = initial_state config (starts idx).0 (starts idx).1 ∷ rest.states;
      sent = packets (send_stp (initial_node config)) ++ rest.sent;
    }

-- The networks that a number of rounds of the nodes leads to.
pub data Reaches (configs : List NodeConfig) (starts : ℕ → ℕ × ℕ) : Network → Type 0 where
  boot : Reaches configs starts (booted starts 0 configs)
  step :
      (net : Network) (i : ℕ) (config : NodeConfig) (s s' : State) (r : Round) (out : Sends)
      → Reaches configs starts net
      → load configs i ≡ some config
      → load net.states i ≡ some s
      → Arrives (config.num_neighbors % 2 ^ 8) net r.received
      → round config s r ≡ some (s', out)
      → Reaches configs starts
          (record { states = set net.states i s'; sent = packets out ++ net.sent })
