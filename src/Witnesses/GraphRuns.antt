-- ===== src/Witnesses/GraphRuns.antt =====
-- testing/common/graph.cpp on a new graph.
use fall23_p.Prelude.{ℕ, ◌≡◌, ◌||◌, some, refl, arith}
use fall23_p.Testing.Graph.{Graph, graph, half_edge, add_edge, contains}
use fall23_p.Testing.Graph.Edges.{
  IsUndirected, adjacent, joins, add_edge-IsUndirected, graph-IsUndirected,
}

add_edge-IsUndirected_example :
    (g' : Graph) × (add_edge (graph 3) (half_edge 0) (half_edge 2) ≡ some g')
    × IsUndirected g'
    × ((i j : ℕ)
        → adjacent g'.topology i j
          ≡ (adjacent (graph 3).topology i j || joins (half_edge 0) (half_edge 2) i j))
unfolding graph contains
add_edge-IsUndirected_example =
    add_edge-IsUndirected (graph 3) (half_edge 0) (half_edge 2) (graph-IsUndirected 3) (omega arith)
      (omega arith) (omega arith) (omega arith) (λ e. absurd (omega arith)) refl
