-- ===== src/Testing/Graph.antt =====
-- testing/common/graph.h and testing/common/graph.cpp: the graph of a test case. A failed assertion is
-- the result `none`.
pub mod Edges
pub mod Addresses
use fall23_p.Prelude.{
  ℕ, zero, suc, ◌+◌, ◌-◌, ◌%◌, ◌>>=◌, Bool, false, true, not, ◌&&◌, ◌||◌, ◌==◌, ltb, List, [], ◌∷◌,
  ◌++◌, Option, some, none, if◌then◌else◌, load, store, length, replicate,
}

-- struct half_edge; `edge` is its conversion from a node.
pub record HalfEdge : Type 0 where
  pub id : ℕ
  pub cost : ℕ

abbrev pub half_edge : ℕ → HalfEdge
half_edge id = record { id = id; cost = 1 }

-- class node
pub record GraphNode : Type 0 where
  pub mixing_factor : ℕ
  pub do_random_routing : Bool
  pub link_costs : List ℕ
  pub mixaddr : ℕ

pub record Graph : Type 0 where
  pub num_nodes : ℕ
  pub nodes : List GraphNode
  pub topology : List (List ℕ)

pub new_nodes : ℕ → ℕ → List GraphNode
new_nodes i zero = []
new_nodes i (suc k) =
    record { mixing_factor = 1; do_random_routing = false; link_costs = []; mixaddr = i }
    ∷ new_nodes (i + 1) k

-- The constructor.
unfoldable pub graph : ℕ → Graph
graph n = record { num_nodes = n; nodes = new_nodes 0 n; topology = replicate n [] }

-- std::find
unfoldable pub contains : List ℕ → ℕ → Bool
contains [] id = false
contains (x ∷ xs) id = (x == id) || contains xs id

add_link_cost : List GraphNode → ℕ → ℕ → Option (List GraphNode)
add_link_cost nodes id cost = do
  node ← load nodes id
  store nodes id (record node { link_costs = node.link_costs ++ cost ∷ [] })

add_neighbor : List (List ℕ) → ℕ → ℕ → Option (List (List ℕ))
add_neighbor topology id neighbor = do
  row ← load topology id
  store topology id (row ++ neighbor ∷ [])

-- The assertions of add_edge. A cost is a uint16_t, so that they leave 0 and 1.
admits : Graph → List ℕ → HalfEdge → HalfEdge → Bool
admits g row src dst =
    ltb src.id g.num_nodes
    && ltb dst.id g.num_nodes
    && not (ltb 1 src.cost)
    && not (ltb 1 dst.cost)
    && not (src.id == dst.id)
    && not (contains row dst.id)

pub add_edge : Graph → HalfEdge → HalfEdge → Option Graph
add_edge g src dst = do
  row ← load g.topology src.id
  if not (admits g row src dst) then none else (do
    nodes ← add_link_cost g.nodes src.id src.cost
    nodes' ← add_link_cost nodes dst.id dst.cost
    topology ← add_neighbor g.topology src.id dst.id
    topology' ← add_neighbor topology dst.id src.id
    some (record g { nodes = nodes'; topology = topology' }))

-- The mutators of a node.
abbrev pub set_mixaddr : ℕ → GraphNode → GraphNode
set_mixaddr v node = record node { mixaddr = v }

abbrev pub set_mixing_factor : ℕ → GraphNode → GraphNode
set_mixing_factor v node = record node { mixing_factor = v }

abbrev pub set_use_random_routing : Bool → GraphNode → GraphNode
set_use_random_routing b node = record node { do_random_routing = b }

-- The loop, which an address for each node keeps in bounds.
unfoldable pub with_mixaddrs : List ℕ → List GraphNode → Option (List GraphNode)
with_mixaddrs [] nodes = some nodes
with_mixaddrs (m ∷ ms) [] = none
with_mixaddrs (m ∷ ms) (node ∷ nodes) = do
  rest ← with_mixaddrs ms nodes
  some (set_mixaddr m node ∷ rest)

unfoldable pub set_mixaddrs : Graph → List ℕ → Option Graph
set_mixaddrs g ms =
    if not (length ms == g.num_nodes)
    then none
    else (with_mixaddrs ms g.nodes >>= λ nodes. some (record g { nodes = nodes }))

-- enum class type
pub data GraphType : Type 0 where
  line ring star full_mesh : GraphType

-- An edge between the nodes at two places of `idxs`.
add_edge_at : Graph → List ℕ → ℕ → ℕ → Option Graph
add_edge_at g idxs i j = do a ← load idxs i; b ← load idxs j; add_edge g (half_edge a) (half_edge b)

-- The loops, from place `i` with `k` rounds left.
line_from : Graph → List ℕ → ℕ → ℕ → Option Graph
line_from g idxs i zero = some g
line_from g idxs i (suc k) = do g' ← add_edge_at g idxs i (i + 1); line_from g' idxs (i + 1) k

ring_from : Graph → List ℕ → ℕ → ℕ → Option Graph
ring_from g idxs i zero = some g
ring_from g idxs i (suc k) = do
  g' ← add_edge_at g idxs i ((i + 1) % length idxs)
  ring_from g' idxs (i + 1) k

star_from : Graph → List ℕ → ℕ → ℕ → Option Graph
star_from g idxs i zero = some g
star_from g idxs i (suc k) = do g' ← add_edge_at g idxs 0 i; star_from g' idxs (i + 1) k

mesh_row : Graph → List ℕ → ℕ → ℕ → ℕ → Option Graph
mesh_row g idxs i j zero = some g
mesh_row g idxs i j (suc k) = do g' ← add_edge_at g idxs i j; mesh_row g' idxs i (j + 1) k

mesh_from : Graph → List ℕ → ℕ → ℕ → Option Graph
mesh_from g idxs i zero = some g
mesh_from g idxs i (suc k) = do
  g' ← mesh_row g idxs i (i + 1) (length idxs - (i + 1))
  mesh_from g' idxs (i + 1) k

-- std::iota
iota : ℕ → ℕ → List ℕ
iota i zero = []
iota i (suc k) = i ∷ iota (i + 1) k

generate : Graph → GraphType → List ℕ → Option Graph
generate g line idxs = line_from g idxs 0 (length idxs - 1)
generate g ring idxs = if ltb 2 (length idxs) then ring_from g idxs 0 (length idxs) else none
generate g star idxs = star_from g idxs 1 (length idxs - 1)
generate g full_mesh idxs = mesh_from g idxs 0 (length idxs)

-- No places given: all nodes.
pub generate_topology : Graph → GraphType → List ℕ → Option Graph
unfolding generate iota
generate_topology g t [] = if ltb g.num_nodes 2 then some g else generate g t (iota 0 g.num_nodes)
generate_topology g t (idx ∷ idxs) = if ltb g.num_nodes 2 then some g else generate g t (idx ∷ idxs)
