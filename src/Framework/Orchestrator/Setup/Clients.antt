-- ===== src/Framework/Orchestrator/Setup/Clients.antt =====
-- framework/orchestrator.cpp: the client addresses that each node is told of its neighbours.
use fall23_p.Prelude.{
  All-load, ◌>>=◌, ◌+◌, ◌≡◌, ◌∷◌, zero, suc, true, some, refl, inl, inr, ap, arith, length, load,
  All, Option-cases, load-in_bounds, ℕ_discrete, List, [], ℕ,
}
use mathlib.Core.Path.{subst}
use mathlib.Core.Option.{some-injective}
use fall23_p.Framework.Networking.Addresses.{Netaddr}
use fall23_p.Framework.Arrays.{IsNetaddr}
use fall23_p.Framework.Orchestrator.Commands.{find_from-load}
use fall23_p.Framework.Orchestrator.Fragments.{Fragments, FragmentMetadata}
use fall23_p.Framework.Orchestrator.Setup.{client_of, neighbor_clients, all_clients}
use fall23_p.Testing.Graph.{contains}
use fall23_p.Testing.Graph.Edges.{adjacent}

-- `addr` is the address at which the node `j` gets what the node `idx` sends: `idx` stands at one place
-- of the neighbours of `j`, and the address at the same place of its clients.
pub record Links (topology : List (List ℕ)) (fragments : Fragments) (idx j : ℕ) (addr : Netaddr)
    : Type 0 where
  pub row : List ℕ
  pub nid : ℕ
  pub fragment : FragmentMetadata
  pub neighbors : load topology j ≡ some row
  pub neighbor : load row nid ≡ some idx
  pub metadata : load fragments j ≡ some fragment
  pub client : load fragment.mixnet_client_netaddrs nid ≡ some addr

-- Each node has as many client addresses as neighbours, all fit to be sent.
abbrev pub HasClients : List (List ℕ) → Fragments → Type 0
HasClients topology fragments =
    (j : ℕ) (row : List ℕ)
    → load topology j ≡ some row
    → (f : FragmentMetadata) × (load fragments j ≡ some f)
      × (length f.mixnet_client_netaddrs ≡ length row)
      × All IsNetaddr f.mixnet_client_netaddrs

-- The addresses for the neighbours of the node `idx`, in their order.
pub record AreLinks (topology : List (List ℕ)) (fragments : Fragments) (idx : ℕ) (row : List ℕ)
    (addrs : List Netaddr) : Type 0 where
  pub size : length addrs ≡ length row
  pub fit : All IsNetaddr addrs
  pub links :
      (nid j : ℕ)
      → load row nid ≡ some j
      → (addr : Netaddr) × (load addrs nid ≡ some addr) × Links topology fragments idx j addr

contains-load : (row : List ℕ) (x : ℕ) → contains row x ≡ true → (k : ℕ) × (load row k ≡ some x)
unfolding contains
contains-load [] x h = absurd (ground (arith, h))
contains-load (y ∷ row) x h = elim (ℕ_discrete y x) [
  | yes same ↦ (0, ap some same)
  | no other ↦ let (k, there) = contains-load row x (ground (arith, h)) in (suc k, there)
]

load-contains : (row : List ℕ) (x k : ℕ) → load row k ≡ some x → contains row x ≡ true
unfolding contains
load-contains [] x k h = absurd (cc)
load-contains (y ∷ row) x zero h = ground (arith, h)
load-contains (y ∷ row) x (suc k) h = ground (arith, load-contains row x k h)

module _ (topology : List (List ℕ)) (fragments : Fragments)
    (symmetric : (i j : ℕ) → adjacent topology i j ≡ adjacent topology j i)
    (clients : HasClients topology fragments) where
  client_of-Links :
      (idx j : ℕ)
      → adjacent topology idx j ≡ true
      → (addr : Netaddr) × (client_of topology fragments idx j ≡ some addr)
        × Links topology fragments idx j addr
        × IsNetaddr addr
  unfolding client_of
  client_of-Links idx j h = elim (Option-cases (load topology j)) [
    | inl missing ↦ absurd (ground (arith, h, symmetric idx j))
    | inr (row, at_row) ↦
        let there : contains row idx ≡ true = ground (arith, h, symmetric idx j) in
        let (k, at_k) = contains-load row idx there in
        let (nid, found, neighbor, below) = find_from-load row idx 0 k at_k in
        let (f, metadata, size, good) = clients j row at_row in
        let (addr, client) = load-in_bounds f.mixnet_client_netaddrs nid (omega arith) in
        let zero_first : 0 + nid ≡ nid = omega arith in
        (
          addr,
          rw (at_row, ◌>>=◌) (rw (found, zero_first, ◌>>=◌) (rw (metadata, ◌>>=◌) client)),
          record {
            row = row;
            nid = nid;
            fragment = f;
            neighbors = at_row;
            neighbor = neighbor;
            metadata = metadata;
            client = client;
          },
          All-load IsNetaddr f.mixnet_client_netaddrs nid addr good client,
        )
  ]

  cons-Links :
      (idx x : ℕ) (row : List ℕ) (addr : Netaddr) (addrs : List Netaddr)
      → Links topology fragments idx x addr
      → ((nid j : ℕ)
          → load row nid ≡ some j
          → (a : Netaddr) × (load addrs nid ≡ some a) × Links topology fragments idx j a)
      → (nid j : ℕ) → load (x ∷ row) nid ≡ some j
      → (a : Netaddr) × (load (addr ∷ addrs) nid ≡ some a) × Links topology fragments idx j a
  cons-Links idx x row addr addrs links rest zero j e =
      (addr, refl, subst (λ t. Links topology fragments idx t addr) (some-injective _ _ e) links)
  cons-Links idx x row addr addrs links rest (suc nid) j e = rest nid j e

  loaded-adjacent :
      (k : ℕ) (row : List ℕ) (nid j : ℕ)
      → load topology k ≡ some row
      → load row nid ≡ some j
      → adjacent topology k j ≡ true
  loaded-adjacent k row nid j at_k h = ground (arith, at_k, load-contains row j nid h)

  -- The addresses of the neighbours, in their order.
  neighbor_clients-Links :
      (idx : ℕ) (row : List ℕ)
      → ((nid j : ℕ) → load row nid ≡ some j → adjacent topology idx j ≡ true)
      → (addrs : List Netaddr) × (neighbor_clients topology fragments idx row ≡ some addrs)
        × (length addrs ≡ length row)
        × All IsNetaddr addrs
        × ((nid j : ℕ)
            → load row nid ≡ some j
            → (addr : Netaddr) × (load addrs nid ≡ some addr) × Links topology fragments idx j addr)
  unfolding neighbor_clients
  neighbor_clients-Links idx [] all = ([], refl, refl, tt, (λ nid j h. absurd (cc)))
  neighbor_clients-Links idx (x ∷ row) all =
      let (addr, found, links, good) = client_of-Links idx x (all 0 x refl) in
      let (addrs, found_rest, size, goods, rest) =
        neighbor_clients-Links idx row (λ nid j h. all (suc nid) j h) in
      (
        addr ∷ addrs,
        rw (found, ◌>>=◌) (rw (found_rest, ◌>>=◌) refl),
        ap suc size,
        (good, goods),
        cons-Links idx x row addr addrs links rest,
      )

  cons-AreLinks :
      (k : ℕ) (row : List ℕ) (rows : List (List ℕ)) (addrs : List Netaddr)
      (all : List (List Netaddr))
      → AreLinks topology fragments k row addrs
      → ((i : ℕ) (r : List ℕ)
          → load rows i ≡ some r
          → (as' : List Netaddr) × (load all i ≡ some as')
            × AreLinks topology fragments (k + 1 + i) r as')
      → (i : ℕ) (r : List ℕ) → load (row ∷ rows) i ≡ some r
      → (as' : List Netaddr) × (load (addrs ∷ all) i ≡ some as')
        × AreLinks topology fragments (k + i) r as'
  cons-AreLinks k row rows addrs all first rest zero r e =
      let here : k ≡ k + 0 = omega arith in
      (
        addrs,
        refl,
        subst (λ t. AreLinks topology fragments (k + 0) t addrs) (some-injective _ _ e)
            (subst (λ t. AreLinks topology fragments t row addrs) here first),
      )
  cons-AreLinks k row rows addrs all first rest (suc i) r e =
      let there : k + 1 + i ≡ k + suc i = omega arith in
      let (as', found, links) = rest i r e in
      (as', found, subst (λ t. AreLinks topology fragments t r as') there links)

  -- The addresses for all nodes, from the node `k`.
  pub all_clients-Links :
      (k : ℕ) (rows : List (List ℕ))
      → ((i : ℕ) (row : List ℕ) → load rows i ≡ some row → load topology (k + i) ≡ some row)
      → (all : List (List Netaddr)) × (all_clients topology fragments k rows ≡ some all)
        × (length all ≡ length rows)
        × ((i : ℕ) (row : List ℕ)
            → load rows i ≡ some row
            → (addrs : List Netaddr) × (load all i ≡ some addrs)
              × AreLinks topology fragments (k + i) row addrs)
  unfolding all_clients
  all_clients-Links k [] at = ([], refl, refl, (λ i row h. absurd (cc)))
  all_clients-Links k (row ∷ rows) at =
      let here : k + 0 ≡ k = omega arith in
      let at_k : load topology k ≡ some row = rw (← here) (at 0 row refl) in
      let (addrs, found, size, goods, links) =
        neighbor_clients-Links k row (λ nid j h. loaded-adjacent k row nid j at_k h) in
      let (all, found_rest, sizes, rest) = all_clients-Links (k + 1) rows (λ i r h.
        let there : k + suc i ≡ k + 1 + i = omega arith in
        subst (λ t. load topology t ≡ some r) there (at (suc i) r h)) in
      (
        addrs ∷ all,
        rw (found, ◌>>=◌) (rw (found_rest, ◌>>=◌) refl),
        ap suc sizes,
        cons-AreLinks k row rows addrs all (record { size = size; fit = goods; links = links })
            rest,
      )
