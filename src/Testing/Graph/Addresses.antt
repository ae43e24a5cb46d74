-- ===== src/Testing/Graph/Addresses.antt =====
-- testing/common/graph.cpp: the addresses of the nodes of a graph.
use fall23_p.Prelude.{
  suc, ℕ, ◌==◌, ◌≡◌, ◌>>=◌, ◌∷◌, List, [], some, not, false, length, map, refl, ap, arith,
}
use fall23_p.Testing.Graph.{Graph, GraphNode, with_mixaddrs, set_mixaddrs}
use fall23_p.Testing.Graph.Edges.{IsUndirected}

abbrev pub addresses : List GraphNode → List ℕ
addresses nodes = map GraphNode.mixaddr nodes

with_mixaddrs-addresses :
    (ms : List ℕ) (nodes : List GraphNode)
    → length ms ≡ length nodes
    → (nodes' : List GraphNode) × (with_mixaddrs ms nodes ≡ some nodes')
      × (length nodes' ≡ length nodes)
      × (addresses nodes' ≡ ms)
unfolding with_mixaddrs
with_mixaddrs-addresses [] [] same = ([], refl, refl, refl)
with_mixaddrs-addresses [] (node ∷ nodes) same = absurd (omega (arith, same))
with_mixaddrs-addresses (m ∷ ms) [] same = absurd (omega (arith, same))
with_mixaddrs-addresses (m ∷ ms) (node ∷ nodes) same =
    let (nodes', e, size, addrs) = with_mixaddrs-addresses ms nodes (omega (arith, same)) in
    (record node { mixaddr = m } ∷ nodes', rw (e, ◌>>=◌) refl, ap suc size, ap (◌∷◌ m) addrs)

-- With an address for each node, the nodes of an undirected graph get these addresses in order, and the
-- edges stay.
pub set_mixaddrs-addresses :
    (g : Graph) (ms : List ℕ)
    → IsUndirected g
    → length ms ≡ g.num_nodes
    → (g' : Graph) × (set_mixaddrs g ms ≡ some g')
      × IsUndirected g'
      × (addresses g'.nodes ≡ ms)
      × (g'.topology ≡ g.topology)
unfolding set_mixaddrs
set_mixaddrs-addresses g ms u same =
    let (nodes, e, size, addrs) = with_mixaddrs-addresses ms g.nodes (omega (arith, u.nodes)) in
    let fits : not (length ms == g.num_nodes) ≡ false = ground (arith, same) in
    (
      record g { nodes = nodes },
      rw fits (rw (e, ◌>>=◌) refl),
      record { nodes = omega (arith, size, u.nodes); rows = u.rows; symmetric = u.symmetric },
      addrs,
      refl,
    )
