-- ===== src/Witnesses/NetworkRuns.antt =====
-- mixnet/node.c: two connected nodes, the second of which hears the first.
use fall23_p.Prelude.{ℕ, zero, suc, ◌≤◌, ◌≡◌, ◌∷◌, List, [], some, load, set, ◌++◌, refl, arith}
use mathlib.Core.Option.{some-injective}
use mathlib.Core.Path.{subst}
use fall23_p.Mixnet.Config.{NodeConfig, default_config}
use fall23_p.Mixnet.Node.{Sends, send_stp, send_stp_from, stp_packet}
use fall23_p.Mixnet.Node.Loop.{State, Round, initial_node, round}
use fall23_p.Mixnet.Network.{Network, Arrives, from_neighbor, booted, boot, step, packets}
use fall23_p.Mixnet.Network.Roots.{HasRoot, Reaches-HasRoot}

abbrev config_of : ℕ → NodeConfig
config_of address = record default_config { node_addr = address; num_neighbors = 1 }

abbrev pair : List NodeConfig
pair = config_of 3 ∷ config_of 5 ∷ []

abbrev starts : ℕ → ℕ × ℕ
starts i = (0, 0)

abbrev start : Network
start = booted starts 0 pair

-- The first announcement of the node 3, on the only port of the node 5.
abbrev hello : Round
hello = record {
  received = some (0, stp_packet (initial_node (config_of 3)));
  hello_now = 1;
  heartbeat_now = 1;
  hello_re_election_now = 1;
  re_election_now = 1;
  takeover_now = 1;
  parent_now = 1;
}

hello-Arrives : Arrives 1 start hello.received
unfolding send_stp send_stp_from initial_node
hello-Arrives = from_neighbor 0 (omega arith) refl

low : (j : ℕ) (c : NodeConfig) → load pair j ≡ some c → 3 ≤ c.node_addr
low zero c e = subst (λ x. 3 ≤ NodeConfig.node_addr x) (some-injective _ _ e) (omega arith)
low (suc zero) c e = subst (λ x. 3 ≤ NodeConfig.node_addr x) (some-injective _ _ e) (omega arith)
low (suc (suc j)) c e = absurd (cc)

-- The round of the node 5, and the network after it.
heard :
    (s : State) × (s' : State) × (out : Sends) × (load start.states 1 ≡ some s)
    × (round (config_of 5) s hello ≡ some (s', out))
heard =
    let (s, there, _, rounds) = Reaches-HasRoot pair starts start 3 1 (config_of 5) boot low refl in
    let (s', out, e) = rounds hello hello-Arrives in (s, s', out, there, e)

abbrev after_hello : Network
after_hello = record { states = set start.states 1 heard.1; sent = packets heard.2 ++ start.sent }

Reaches-HasRoot_example :
    (s : State) × (load after_hello.states 1 ≡ some s)
    × HasRoot pair 3 5 s
    × ((r : Round)
        → Arrives 1 after_hello r.received
        → (s' : State) × (out : Sends) × (round (config_of 5) s r ≡ some (s', out)))
Reaches-HasRoot_example =
    Reaches-HasRoot pair starts after_hello 3 1 (config_of 5)
      (step start 1 (config_of 5) heard.0 heard.1 hello heard.2 boot refl heard.3 hello-Arrives
        heard.4)
      low refl
