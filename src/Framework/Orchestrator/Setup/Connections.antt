-- ===== src/Framework/Orchestrator/Setup/Connections.antt =====
-- framework/orchestrator.cpp and framework/fragment.cpp: how a fragment finds the connection to each of
-- its neighbours, from the addresses that the orchestrator sends.
use fall23_p.Framework.Orchestrator.Setup.Lookup.{
  accepted-addrs, IsFew, resolve_payload-Fills, Found,
}
use fall23_p.Testing.Graph.Edges.{IsUndirected}
use fall23_p.Testing.Graph.{Graph}
use fall23_p.Framework.Orchestrator.Agreement.{response-check_header}
use fall23_p.Framework.Orchestrator.Setup.Clients.{HasClients, Links, AreLinks, all_clients-Links}
use fall23_p.Framework.Orchestrator.Phases.{ctrl_fds, Sockets, foreach_fragment_send_ctrl}
use fall23_p.Framework.Orchestrator.Fragments.{Fragments}
use mathlib.Core.Path.{subst}
use mathlib.Core.Option.{some-injective}
use fall23_p.Prelude.{
  ◌↔◌, inr, sym, load-in_bounds, in_bounds-load, ◌==◌, ◌>>=◌, ◌∷◌, zero, suc, true, take, ◌+◌, ◌*◌,
  ◌^◌, ◌<◌, ◌≡◌, ◌∙◌, some, refl, arith, length, load, All, Option, List, [], ℕ, All-map2,
}
use fall23_p.Framework.ErrorCode.{ErrorCode, success}
use fall23_p.Framework.Buffer.{Buffer, read16}
use fall23_p.Framework.Arrays.{read_netaddrs}
use fall23_p.Framework.Message.{MessageType, finalize}
use fall23_p.Framework.Message.Length.{payload_bytes}
use fall23_p.Framework.Networking.Addresses.{Netaddr}
use fall23_p.Framework.Networking.Server.{AcceptedState, AcceptArgs}
use fall23_p.Framework.Fragment.Header.{check_header, prepare_header, recv_request, send_response}
use fall23_p.Framework.Fragment.NodeContext.{NodeContext}
use fall23_p.Framework.Fragment.Setup.{
  NodeSockets, find_connection, resolve_all, resolve_lambda, run_state_resolve_mixnet_connections,
}
use fall23_p.Framework.Orchestrator.Broadcast.{
  IsDone, IsBelow, IsAccepted, recipients, numbers_from, foreach_fragment_send_generic-success,
}
use fall23_p.Framework.Orchestrator.Setup.{all_clients, resolve_payload}

cons-found :
    (states : List AcceptedState) (a : Netaddr) (addrs : List Netaddr) (fd : Option ℕ)
    (fds : List (Option ℕ))
    → find_connection states a ≡ some fd
    → ((nid : ℕ) (addr : Netaddr)
        → load addrs nid ≡ some addr
        → (x : Option ℕ) × (find_connection states addr ≡ some x) × (load fds nid ≡ some x))
    → (nid : ℕ) (addr : Netaddr) → load (a ∷ addrs) nid ≡ some addr
    → (x : Option ℕ) × (find_connection states addr ≡ some x) × (load (fd ∷ fds) nid ≡ some x)
cons-found states a addrs fd fds found rest zero addr e =
    (fd, subst (λ t. find_connection states t ≡ some fd) (some-injective _ _ e) found, refl)
cons-found states a addrs fd fds found rest (suc nid) addr e = rest nid addr e

resolve_all-Found :
    (states : List AcceptedState) (addrs : List Netaddr)
    → All (Found states) addrs
    → (fds : List (Option ℕ)) × (resolve_all states addrs ≡ (success, fds))
      × ((nid : ℕ) (addr : Netaddr)
          → load addrs nid ≡ some addr
          → (fd : Option ℕ) × (find_connection states addr ≡ some fd) × (load fds nid ≡ some fd))
unfolding resolve_all
resolve_all-Found states [] h = ([], refl, (λ nid addr e. absurd (cc)))
resolve_all-Found states (a ∷ addrs) ((fd, found), h) =
    let (fds, e, rest) = resolve_all-Found states addrs h in
    (fd ∷ fds, rw (found, e) refl, cons-found states a addrs fd fds found rest)

==-refl : (n : ℕ) → (n == n) ≡ true
==-refl n = ground arith

module _ (i : ℕ) (m response : Buffer) (sends : Buffer → ErrorCode) (ctx : NodeContext)
    (socks : NodeSockets) (args : AcceptArgs) where
  answers_resolve :
      (n : ℕ) (addrs : List Netaddr) (fds : List (Option ℕ))
      → check_header i true true m MessageType.resolve_mixnet_conns ≡ some success
      → finalize (prepare_header m i MessageType.resolve_mixnet_conns success) ≡ some response
      → ctx.config.num_neighbors ≡ n
      → read16 m 8 ≡ n
      → read_netaddrs m 16 n ≡ addrs
      → resolve_all (take n args.states) addrs ≡ (success, fds)
      → run_state_resolve_mixnet_connections i
          (record { received = (success, m); sends = sends })
          ctx
          socks
          args
        ≡ some (sends response, record socks { tx_socket_fds = fds })
  unfolding run_state_resolve_mixnet_connections recv_request send_response resolve_lambda
  answers_resolve n addrs fds checked sealed count count' read resolved =
      rw (checked, ◌>>=◌) (rw (count, count', read) (rw (==-refl n, resolved, sealed, ◌>>=◌) refl))

All-of_load {ℓ κ} :
    {A : Type ℓ} (P : A → Type κ) (xs : List A)
    → ((i : ℕ) (a : A) → load xs i ≡ some a → P a)
    → All P xs
All-of_load P [] h = tt
All-of_load P (x ∷ xs) h = (h 0 x refl, All-of_load P xs (λ i a e. h (suc i) a e))

-- The connections that have been accepted by the fragment of a node with the neighbours `row`.
abbrev pub accepted_by : AcceptArgs → List ℕ → List AcceptedState
accepted_by args row = take (length row) args.states

-- The fragment `i` that receives the message finds, for each neighbour, the first accepted connection
-- from the address at which that neighbour gets what this node sends. It answers, whatever its socket
-- makes of that, with those sockets for sending.
abbrev pub Resolves :
    List (List ℕ) → Fragments → (ℕ → NodeContext) → (ℕ → AcceptArgs) → ℕ × Buffer → Type 0
Resolves topology fragments ctxs args (i, m) =
    (row : List ℕ) × (load topology i ≡ some row)
    × ((socks : NodeSockets) (sends : Buffer → ErrorCode)
        → (response : Buffer) × (fds : List (Option ℕ)) × (run_state_resolve_mixnet_connections i
              (record { received = (success, m); sends = sends }) (ctxs i) socks (args i)
            ≡ some (sends response, record socks { tx_socket_fds = fds }))
          × ((nid j : ℕ)
              → load row nid ≡ some j
              → (addr : Netaddr) × (fd : Option ℕ) × Links topology fragments i j addr
                × (find_connection (accepted_by (args i) row) addr ≡ some fd)
                × (load fds nid ≡ some fd)))

-- Each fragment has its node's number of neighbours.
abbrev pub CountsNeighbors : List (List ℕ) → (ℕ → NodeContext) → Type 0
CountsNeighbors topology ctxs =
    (i : ℕ) (row : List ℕ) → load topology i ≡ some row → (ctxs i).config.num_neighbors ≡ length row

-- Each fragment has accepted a connection from the address at which each neighbour gets its data.
abbrev pub HasConnections : List (List ℕ) → Fragments → (ℕ → AcceptArgs) → Type 0
HasConnections topology fragments args =
    (i : ℕ) (row : List ℕ) (j : ℕ) (addr : Netaddr)
    → load topology i ≡ some row
    → Links topology fragments i j addr
    → Found (accepted_by (args i) row) addr

-- The addresses of the neighbours of a node have connections, if all the neighbours' have.
Links-Found :
    (topology : List (List ℕ)) (fragments : Fragments) (i : ℕ) (row : List ℕ) (addrs : List Netaddr)
    (states : List AcceptedState)
    → AreLinks topology fragments i row addrs
    → ((j : ℕ) (addr : Netaddr) → Links topology fragments i j addr → Found states addr)
    → All (Found states) addrs
Links-Found topology fragments i row addrs states links connected =
    All-of_load (Found states) addrs (λ nid addr e.
      let (j, at) =
        load-in_bounds row nid (omega (arith, links.size, in_bounds-load addrs nid e)) in
      let (addr', found, link) = links.links nid j at in
      subst (Found states) (some-injective _ _ (sym found ∙ e)) (connected j addr' link))

module _ (topology : List (List ℕ)) (fragments : Fragments) (all : List (List Netaddr))
    (few : (i : ℕ) (row : List ℕ) → load topology i ≡ some row → 20 + length row * 16 < 2 ^ 16)
    (links : (i : ℕ) (row : List ℕ)
      → load topology i ≡ some row
      → (addrs : List Netaddr) × (load all i ≡ some addrs)
        × AreLinks topology fragments (0 + i) row addrs) where
  links_at :
      (i : ℕ) (row : List ℕ)
      → load topology i ≡ some row
      → (addrs : List Netaddr) × (load all i ≡ some addrs)
        × AreLinks topology fragments i row addrs
        × IsFew addrs
  links_at i row at =
      let (addrs, found, these) = links i row at in
      let zero_first : 0 + i ≡ i = omega arith in
      (
        addrs,
        found,
        subst (λ t. AreLinks topology fragments t row addrs) zero_first these,
        omega (arith, these.size, few i row at),
      )

  all-IsFew :
      length all ≡ length topology
      → (i : ℕ) (addrs : List Netaddr) → load all i ≡ some addrs
      → IsFew addrs
  all-IsFew sizes i addrs e =
      let (row, at) = load-in_bounds topology i (omega (arith, in_bounds-load all i e)) in
      let (addrs', found, _, small) = links_at i row at in
      subst IsFew (some-injective _ _ (sym found ∙ e)) small

  module _ (ctxs : ℕ → NodeContext) (args : ℕ → AcceptArgs) (counts : CountsNeighbors topology ctxs)
      (connected : HasConnections topology fragments args) (n : ℕ) (range : n < 2 ^ 16)
      (rows : length topology ≡ n) where
    IsAccepted-Resolves :
        (sent : ℕ × Buffer)
        → IsAccepted MessageType.resolve_mixnet_conns (resolve_payload all) sent
        → IsBelow n sent
        → Resolves topology fragments ctxs args sent
    unfolding payload_bytes
    IsAccepted-Resolves (i, m) accepted below =
        let (row, at) = load-in_bounds topology i (omega arith) in
        let (addrs, found, these, small) = links_at i row at in
        let (response, sealed, _, _) =
          response-check_header m true i MessageType.resolve_mixnet_conns (λ b. b) (omega arith)
            (λ j. inr refl) tt (omega arith) in
        let (count, read) = accepted-addrs all i addrs m accepted found small these.fit in
        let states = accepted_by (args i) row in
        let (fds, resolved, finds) = resolve_all-Found states addrs (
          Links-Found topology fragments i row addrs states these
            (λ j addr link. connected i row j addr at link)) in
        (
          row,
          at,
          (λ socks sends. (
            response,
            fds,
            answers_resolve i m response sends (ctxs i) socks (args i) (length row) addrs fds
                accepted.0 sealed (counts i row at) (count ∙ these.size)
                (subst (λ n. read_netaddrs m 16 n ≡ addrs) these.size read) resolved,
            (λ nid j there.
                let (addr, at_addr, link) = these.links nid j there in
                let (fd, connection, assigned) = finds nid addr at_addr in
                (addr, fd, link, connection, assigned)),
          )),
        )

-- Each neighbour's connection is found. The request of RESOLVE_MIXNET_CONNECTIONS always ends with an
-- error code. The messages go to the fragments 0, 1, 2 and so on, one to each, and a fragment to which
-- a message went answers it, and sends from then on, to each
-- neighbour, over the first connection that it accepted from the address at which that neighbour gets
-- this node's data. The code is success exactly if there are as many messages as fragments, so that
-- one went to each, and every socket took its message. The graph is undirected and has a row for each fragment, fewer than 65536; each node
-- has a client address that can be sent for each neighbour, and so few neighbours that the message fits
-- its length; and each fragment knows the number of its neighbours and has accepted a connection from
-- each of them.
pub resolve_connections-Resolves :
    (net : Sockets) (timeout : ℕ) (g : Graph) (fragments : Fragments) (ctxs : ℕ → NodeContext)
    (args : ℕ → AcceptArgs) (b : Buffer)
    → IsUndirected g
    → HasClients g.topology fragments
    → CountsNeighbors g.topology ctxs
    → HasConnections g.topology fragments args
    → ((i : ℕ) (row : List ℕ) → load g.topology i ≡ some row → 20 + length row * 16 < 2 ^ 16)
    → length g.topology ≡ length (ctrl_fds fragments)
    → length (ctrl_fds fragments) < 2 ^ 16
    → (all : List (List Netaddr)) × (out : List (ℕ × Buffer)) × (code : ErrorCode) × (all_clients
          g.topology fragments 0 g.topology
        ≡ some all)
      × (foreach_fragment_send_ctrl net timeout MessageType.resolve_mixnet_conns
            (resolve_payload all)
            fragments
            b
          ≡ some (out, code))
      × All (Resolves g.topology fragments ctxs args) out
      × (recipients out ≡ numbers_from 0 (length out))
      × ((code ≡ success)
          ↔ ((length out ≡ length (ctrl_fds fragments)) × All (IsDone net.sends) out))
unfolding foreach_fragment_send_ctrl
resolve_connections-Resolves net timeout g fragments ctxs args b undirected clients counts connected
      few rows range =
    let n = length (ctrl_fds fragments) in
    let (all, looked_up, sizes, links) =
      all_clients-Links g.topology fragments undirected.symmetric clients 0 g.topology (λ i row at.
        let zero_first : i ≡ 0 + i = omega arith in
        subst (λ t. load g.topology t ≡ some row) zero_first at) in
    let (out, code, e, accepted, below, order, done) =
      foreach_fragment_send_generic-success MessageType.resolve_mixnet_conns (resolve_payload all)
        (resolve_payload-Fills all (all-IsFew g.topology fragments all few links sizes)) net.sends
        net.timers n timeout b range in
    (
      all,
      out,
      code,
      looked_up,
      e,
      All-map2 (IsAccepted MessageType.resolve_mixnet_conns (resolve_payload all)) (IsBelow n)
          (Resolves g.topology fragments ctxs args)
          (IsAccepted-Resolves g.topology fragments all few links ctxs args counts connected n range
            rows)
          out accepted below,
      order,
      done,
    )
