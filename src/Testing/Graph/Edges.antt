-- ===== src/Testing/Graph/Edges.antt =====
-- testing/common/graph.cpp, add_edge: the neighbours of each node.
use fall23_p.Prelude.{
  ◌+◌, zero, suc, ap, replicate, length-replicate, ◌>>=◌, ℕ, ◌<◌, ◌≤◌, ◌≡◌, ◌≢◌, refl, sym, ◌∙◌,
  Bool, false, true, ◌&&◌, ◌||◌, ◌==◌, List, [], ◌∷◌, ◌++◌, some, none, load, length, set,
  length-set, load-in_bounds, get_elem?-set_self, get_elem?-set_ne, ℕ_discrete, arith,
}
use fall23_p.Testing.Graph.{
  HalfEdge, GraphNode, Graph, new_nodes, graph, admits, contains, add_link_cost, add_neighbor,
  add_edge,
}

-- `j` is a neighbour of `i`.
abbrev pub adjacent : List (List ℕ) → ℕ → ℕ → Bool
adjacent topology i j = elim (load topology i) [ none ↦ false | some row ↦ contains row j ]

-- Each node has its row, and neighbours are neighbours of each other.
pub record IsUndirected (g : Graph) : Type 0 where
  pub nodes : length g.nodes ≡ g.num_nodes
  pub rows : length g.topology ≡ g.num_nodes
  pub symmetric : (i j : ℕ) → adjacent g.topology i j ≡ adjacent g.topology j i

contains-append :
    (row : List ℕ) (neighbor j : ℕ)
    → contains (row ++ neighbor ∷ []) j ≡ (contains row j || (neighbor == j))
unfolding contains
contains-append [] neighbor j = ground arith
contains-append (x ∷ row) neighbor j = ground (arith, contains-append row neighbor j)

add_neighbor-adjacent :
    (topology : List (List ℕ)) (id neighbor : ℕ)
    → id < length topology
    → (topology' : List (List ℕ)) × (add_neighbor topology id neighbor ≡ some topology')
      × (length topology' ≡ length topology)
      × ((i j : ℕ)
          → adjacent topology' i j ≡ (adjacent topology i j || ((i == id) && (neighbor == j))))
unfolding add_neighbor
add_neighbor-adjacent topology id neighbor h =
    let (row, l) = load-in_bounds topology id h in
    let row' = row ++ neighbor ∷ [] in
    (
      set topology id row',
      ground (arith, l),
      length-set topology id row',
      λ i j. elim (ℕ_discrete i id) [
        | yes same ↦ rw same (
            ground
              (arith, get_elem?-set_self topology id row' h, l, contains-append row neighbor j))
        | no other ↦ ground (arith, get_elem?-set_ne topology {i = id} {j = i} row')
      ],
    )

add_link_cost-length :
    (nodes : List GraphNode) (id cost : ℕ)
    → id < length nodes
    → (nodes' : List GraphNode) × (add_link_cost nodes id cost ≡ some nodes')
      × (length nodes' ≡ length nodes)
unfolding add_link_cost
add_link_cost-length nodes id cost h =
    let (node, l) = load-in_bounds nodes id h in
    let node' = record node { link_costs = node.link_costs ++ cost ∷ [] } in
    (set nodes id node', ground (arith, l), length-set nodes id node')

-- An edge between two places.
abbrev pub joins : HalfEdge → HalfEdge → ℕ → ℕ → Bool
joins src dst i j = ((i == src.id) && (dst.id == j)) || ((i == dst.id) && (src.id == j))

joins-symmetric : (src dst : HalfEdge) (i j : ℕ) → joins src dst i j ≡ joins src dst j i
joins-symmetric src dst i j = ground arith

add_edge-runs :
    (g : Graph) (src dst : HalfEdge) (row : List ℕ) (nodes nodes' : List GraphNode)
    (topology topology' : List (List ℕ))
    → load g.topology src.id ≡ some row
    → admits g row src dst ≡ true
    → add_link_cost g.nodes src.id src.cost ≡ some nodes
    → add_link_cost nodes dst.id dst.cost ≡ some nodes'
    → add_neighbor g.topology src.id dst.id ≡ some topology
    → add_neighbor topology dst.id src.id ≡ some topology'
    → add_edge g src dst ≡ some (record g { nodes = nodes'; topology = topology' })
unfolding add_edge
add_edge-runs g src dst row nodes nodes' topology topology' l admitted costs costs' links links' =
    rw (l, ◌>>=◌)
      (rw admitted
        (rw (costs, ◌>>=◌) (rw (costs', ◌>>=◌) (rw (links, ◌>>=◌) (rw (links', ◌>>=◌) refl)))))

-- An edge between two different nodes that are not neighbours, with costs of at most 1, can be added
-- to a graph whose neighbours are neighbours of each other: no assertion fails, exactly the two nodes
-- become neighbours, and the graph has that property again.
pub add_edge-IsUndirected :
    (g : Graph) (src dst : HalfEdge)
    → IsUndirected g
    → src.id < g.num_nodes
    → dst.id < g.num_nodes
    → src.cost ≤ 1
    → dst.cost ≤ 1
    → src.id ≢ dst.id
    → adjacent g.topology src.id dst.id ≡ false
    → (g' : Graph) × (add_edge g src dst ≡ some g')
      × IsUndirected g'
      × ((i j : ℕ) → adjacent g'.topology i j ≡ (adjacent g.topology i j || joins src dst i j))
add_edge-IsUndirected g src dst u src_in dst_in src_cost dst_cost apart new =
    let (row, l) = load-in_bounds g.topology src.id (omega arith) in
    let (nodes, costs, nodes_length) = add_link_cost-length g.nodes src.id src.cost (omega arith) in
    let (nodes', costs', nodes_length') =
      add_link_cost-length nodes dst.id dst.cost (omega arith) in
    let (topology, links, rows, grown) =
      add_neighbor-adjacent g.topology src.id dst.id (omega arith) in
    let (topology', links', rows', grown') =
      add_neighbor-adjacent topology dst.id src.id (omega arith) in
    let joined : (i j : ℕ)
        → adjacent topology' i j ≡ (adjacent g.topology i j || joins src dst i j) =
      λ i j. ground (arith, grown' i j, grown i j) in
    (
      record g { nodes = nodes'; topology = topology' },
      add_edge-runs g src dst row nodes nodes' topology topology' l (unfold admits in ground arith)
          costs costs' links links',
      record {
        nodes = omega arith;
        rows = omega arith;
        symmetric = λ i j.
            joined i j ∙ (rw (u.symmetric i j, joins-symmetric src dst i j) (sym (joined j i)));
      },
      joined,
    )

length-new_nodes : (i k : ℕ) → length (new_nodes i k) ≡ k
unfolding new_nodes
length-new_nodes i zero = refl
length-new_nodes i (suc k) = ap suc (length-new_nodes (i + 1) k)

adjacent-replicate : (n i j : ℕ) → adjacent (replicate n []) i j ≡ false
unfolding contains
adjacent-replicate zero i j = refl
adjacent-replicate (suc n) zero j = refl
adjacent-replicate (suc n) (suc i) j = adjacent-replicate n i j

-- A new graph has no neighbours at all.
pub graph-IsUndirected : (n : ℕ) → IsUndirected (graph n)
unfolding graph
graph-IsUndirected n = record {
  nodes = length-new_nodes 0 n;
  rows = length-replicate n [];
  symmetric = λ i j. adjacent-replicate n i j ∙ sym (adjacent-replicate n j i);
}
