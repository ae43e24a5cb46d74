-- ===== src/Mixnet/Node/Ports.antt =====
-- mixnet/node.c: which ports a node has blocked after an STP packet.
use fall23_p.Prelude.{
  ℕ, zero, suc, ◌+◌, ◌≤◌, ◌<◌, ◌≡◌, refl, sym, ap, ◌∙◌, Bool, true, List, [], ◌∷◌, some, arith,
  if◌then◌else◌, false, load, length, set, length-set, lt→ltb, ◌≢◌,
}
use native.Mathlib.Numerals.{add-one}
use fall23_p.Mixnet.Packet.{Stp, invalid_address}
use fall23_p.Mixnet.Node.{
  Node, adopt, announce, set_port, update_tree, send_stp, block_from, blocks, receive_stp,
}

-- The arrays of a node have one entry for each neighbour at least, and equal lengths.
pub record HasPorts (node : Node) : Type 0 where
  pub in_range : node.num_neighbors ≤ length node.neighbors_blocked
  pub same_length : length node.neighbors_addy ≡ length node.neighbors_blocked

-- Entries `i` to `i + k - 1` set.
pub block_range : ℕ → ℕ → List Bool → List Bool
block_range i k [] = []
block_range (suc i) k (b ∷ bs) = b ∷ block_range i k bs
block_range zero zero (b ∷ bs) = b ∷ bs
block_range zero (suc k) (b ∷ bs) = true ∷ block_range zero k bs

block_range-zero : (i : ℕ) (bs : List Bool) → block_range i zero bs ≡ bs
unfolding block_range
block_range-zero i [] = refl
block_range-zero (suc i) (b ∷ bs) = ap (◌∷◌ b) (block_range-zero i bs)
block_range-zero zero (b ∷ bs) = refl

block_range-set :
    (i k : ℕ) (bs : List Bool) → block_range (suc i) k (set bs i true) ≡ block_range i (suc k) bs
unfolding block_range
block_range-set i k [] = refl
block_range-set (suc i) k (b ∷ bs) = ap (◌∷◌ b) (block_range-set i k bs)
block_range-set zero k (b ∷ bs) = refl

pub block_from-range :
    (bs : List Bool) (i k : ℕ) → i + k ≤ length bs → block_from bs i k ≡ some (block_range i k bs)
unfolding block_from
block_from-range bs i zero h = ap some (sym (block_range-zero i bs))
block_from-range bs i (suc k) h = rw (lt→ltb i (length bs) (omega arith)) (
    block_from-range (set bs i true) (i + 1) k (omega (arith, length-set bs i true))
    ∙ ap some (rw add-one (block_range-set i k bs)))

pub length-block_range : (i k : ℕ) (bs : List Bool) → length (block_range i k bs) ≡ length bs
unfolding block_range
length-block_range i k [] = refl
length-block_range (suc i) k (b ∷ bs) = ap suc (length-block_range i k bs)
length-block_range zero zero (b ∷ bs) = refl
length-block_range zero (suc k) (b ∷ bs) = ap suc (length-block_range zero k bs)

pub load-block_range :
    (n j : ℕ) (bs : List Bool) → j < n → n ≤ length bs → load (block_range zero n bs) j ≡ some true
unfolding block_range
load-block_range zero j bs h k = elim h [ ]
load-block_range (suc n) j [] h k = elim k [ ]
load-block_range (suc n) zero (b ∷ bs) h k = refl
load-block_range (suc n) (suc j) (b ∷ bs) h k = load-block_range n j bs (omega arith) (omega arith)

-- The node that an STP packet from a known neighbour leaves behind.
unfoldable pub after_update : Node → ℕ → Stp → Node
after_update node port u =
    let (adopted, changed) = adopt node u in
    record adopted {
      neighbors_blocked =
          set
            (if changed
              then block_range 0 node.num_neighbors node.neighbors_blocked
              else node.neighbors_blocked)
            port (blocks adopted u);
    }

update_tree-after :
    (node : Node) (port : ℕ) (u : Stp)
    → HasPorts node
    → port < length node.neighbors_blocked
    → update_tree node port u
      ≡ some (after_update node port u, if (adopt node u).1 then send_stp (adopt node u).0 else [])
unfolding update_tree after_update announce set_port adopt blocks
update_tree-after node port u v h = ground (
  arith,
  block_from-range node.neighbors_blocked 0 node.num_neighbors (omega arith),
  length-block_range 0 node.num_neighbors node.neighbors_blocked,
)

module _ (node : Node) (port : ℕ) (u : Stp) (v : HasPorts node)
    (h : port < length node.neighbors_blocked) where
  -- A packet on a port whose neighbour is known.
  pub receive_stp-known :
      {a : ℕ}
      → load node.neighbors_addy port ≡ some a
      → a ≢ invalid_address
      → receive_stp node port u
        ≡ some
            (after_update node port u, if (adopt node u).1 then send_stp (adopt node u).0 else [])
  unfolding receive_stp
  receive_stp-known e known = ground (arith, update_tree-after node port u v h)

  -- A packet on a port whose neighbour is not known yet.
  pub receive_stp-unknown :
      load node.neighbors_addy port ≡ some invalid_address
      → receive_stp node port u
        ≡ some (
          record node {
            neighbors_addy = set node.neighbors_addy port u.node_address;
            neighbors_blocked = set node.neighbors_blocked port false;
          },
          [],
        )
  unfolding receive_stp
  receive_stp-unknown e = ground arith

  pub after_update-HasPorts : HasPorts (after_update node port u)
  unfolding after_update adopt
  after_update-HasPorts = ground (
    arith,
    length-block_range 0 node.num_neighbors node.neighbors_blocked,
    length-set node.neighbors_blocked port (blocks (adopt node u).0 u),
    length-set (block_range 0 node.num_neighbors node.neighbors_blocked) port
        (blocks (adopt node u).0 u),
  )
