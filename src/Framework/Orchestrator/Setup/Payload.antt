-- ===== src/Framework/Orchestrator/Setup/Payload.antt =====
-- framework/orchestrator.cpp and framework/fragment.cpp: the payload of a TOPOLOGY request, and the
-- configuration that is read from it.
use fall23_p.Framework.Fragment.Setup.{topology_config}
use fall23_p.Framework.Fragment.NodeContext.{NodeContext}
use fall23_p.Prelude.{
  true, false, replicate, ◌≤◌, ◌∙◌, ◌==◌, zero, suc, not, refl, ap, [], ◌+◌, ◌*◌, ◌^◌, ◌<◌, ◌≡◌,
  if◌then◌else◌, arith, length, take, All, List, ℕ, ◌∷◌,
}
use fall23_p.Mixnet.Config.{NodeConfig}
use fall23_p.Framework.Buffer.{Buffer, read16, read32, write16, write32}
use fall23_p.Framework.Arrays.{read16s-write16s, read16s, write8, write16s-before}
use fall23_p.Framework.Orchestrator.Headers.{Keeps}
use fall23_p.Framework.Orchestrator.Setup.{Testcase, topology_payload}
use fall23_p.Testing.Graph.{GraphNode}

-- What the fragment of a node is to have.
abbrev pub node_config : Testcase → GraphNode → List ℕ → NodeConfig
node_config tc node row = record {
  node_addr = node.mixaddr;
  num_neighbors = length row;
  root_hello_interval_ms = tc.root_hello_interval_ms;
  reelection_interval_ms = tc.reelection_interval_ms;
  do_random_routing = node.do_random_routing;
  mixing_factor = node.mixing_factor;
  link_costs = node.link_costs;
}

-- A node whose fields fit their types, with a cost for each neighbour, and few enough of them.
pub record IsSmall (node : GraphNode) (row : List ℕ) : Type 0 where
  pub mixaddr : node.mixaddr < 2 ^ 16
  pub mixing_factor : node.mixing_factor < 2 ^ 16
  pub costs : All (λ x. x < 2 ^ 16) node.link_costs
  pub cost_of_each : length node.link_costs ≡ length row
  pub few : 28 + length row * 2 < 2 ^ 16

-- A new context with a configuration.
abbrev pub fresh_context : NodeConfig → NodeContext
fresh_context config = record {
  config = config;
  rx_port_idx = 0;
  link_states = replicate config.num_neighbors true;
  is_pcap_subscribed = false;
}

-- The fixed part of the payload.
pub fixed_part : Testcase → GraphNode → ℕ → Buffer → Buffer
fixed_part tc node n b =
    write32
      (write32
        (write16
          (write8 (write16 (write16 b 8 node.mixaddr) 10 n) 12
            (if node.do_random_routing then 1 else 0))
          14 node.mixing_factor)
        16 tc.root_hello_interval_ms)
      20 tc.reelection_interval_ms

pub topology_payload-fixed :
    (tc : Testcase) (node : GraphNode) (row : List ℕ) (b : Buffer) (i : ℕ)
    → i < 24
    → topology_payload tc node row b i ≡ fixed_part tc node (length row) b i
unfolding topology_payload fixed_part
topology_payload-fixed tc node row b i below =
    write16s-before (fixed_part tc node (length row) b) 24 (take (length row) node.link_costs) i
      below

module _ (tc : Testcase) (node : GraphNode) (n : ℕ) (b : Buffer) where
  pub fixed_part-Keeps : Keeps b (fixed_part tc node n b)
  unfolding fixed_part write8 write16 write32
  fixed_part-Keeps i = ground arith

  pub fixed_part-count : n < 2 ^ 16 → read16 (fixed_part tc node n b) 10 ≡ n
  unfolding fixed_part write8 write16 write32 read16
  fixed_part-count h = ground arith

  fixed_part-mixaddr : node.mixaddr < 2 ^ 16 → read16 (fixed_part tc node n b) 8 ≡ node.mixaddr
  unfolding fixed_part write8 write16 write32 read16
  fixed_part-mixaddr h = ground arith

  fixed_part-routing : fixed_part tc node n b 12 ≡ (if node.do_random_routing then 1 else 0)
  unfolding fixed_part write8 write16 write32
  fixed_part-routing = ground arith

  fixed_part-mixing :
      node.mixing_factor < 2 ^ 16 → read16 (fixed_part tc node n b) 14 ≡ node.mixing_factor
  unfolding fixed_part write8 write16 write32 read16
  fixed_part-mixing h = ground arith

  fixed_part-hello :
      tc.root_hello_interval_ms < 2 ^ 32
      → read32 (fixed_part tc node n b) 16 ≡ tc.root_hello_interval_ms
  unfolding fixed_part write8 write16 write32 read32
  fixed_part-hello h = ground arith

  fixed_part-reelection :
      tc.reelection_interval_ms < 2 ^ 32
      → read32 (fixed_part tc node n b) 20 ≡ tc.reelection_interval_ms
  unfolding fixed_part write8 write16 write32 read32
  fixed_part-reelection h = ground arith

-- Numbers read below the array are those of the fixed part.
pub read16-fixed :
    (tc : Testcase) (node : GraphNode) (row : List ℕ) (b : Buffer) (o : ℕ)
    → o + 2 ≤ 24
    → read16 (topology_payload tc node row b) o ≡ read16 (fixed_part tc node (length row) b) o
unfolding read16
read16-fixed tc node row b o h =
    ground
      (arith, topology_payload-fixed tc node row b o, topology_payload-fixed tc node row b (o + 1))

read32-fixed :
    (tc : Testcase) (node : GraphNode) (row : List ℕ) (b : Buffer) (o : ℕ)
    → o + 4 ≤ 24
    → read32 (topology_payload tc node row b) o ≡ read32 (fixed_part tc node (length row) b) o
unfolding read32
read32-fixed tc node row b o h = ground (
  arith,
  topology_payload-fixed tc node row b o,
  topology_payload-fixed tc node row b (o + 1),
  topology_payload-fixed tc node row b (o + 2),
  topology_payload-fixed tc node row b (o + 3),
)

take-all {ℓ} : {A : Type ℓ} (xs : List A) (n : ℕ) → length xs ≡ n → take n xs ≡ xs
take-all [] zero h = refl
take-all [] (suc n) h = refl
take-all (x ∷ xs) zero h = absurd (omega (arith, h))
take-all (x ∷ xs) (suc n) h = ap (◌∷◌ x) (take-all xs n (omega arith))

-- The intervals fit their types.
pub record FitsIntervals (tc : Testcase) : Type 0 where
  pub hello : tc.root_hello_interval_ms < 2 ^ 32
  pub reelection : tc.reelection_interval_ms < 2 ^ 32

topology_payload-costs :
    (tc : Testcase) (node : GraphNode) (row : List ℕ) (b : Buffer)
    → IsSmall node row
    → read16s (topology_payload tc node row b) 24 (length row) ≡ node.link_costs
unfolding topology_payload fixed_part
topology_payload-costs tc node row b small =
    rw (take-all node.link_costs (length row) small.cost_of_each, ← small.cost_of_each)
      (read16s-write16s (fixed_part tc node (length node.link_costs) b) 24 node.link_costs
        small.costs)

pub topology_payload-config :
    (tc : Testcase) (node : GraphNode) (row : List ℕ) (b : Buffer)
    → FitsIntervals tc
    → IsSmall node row
    → topology_config (topology_payload tc node row b) ≡ node_config tc node row
unfolding topology_config
topology_payload-config tc node row b fits small =
    let n : length row < 2 ^ 16 = omega (arith, small.few) in
    let costs = topology_payload-costs tc node row b small in
    let routing : not (topology_payload tc node row b 12 == 0) ≡ node.do_random_routing =
      ground (
        arith,
        topology_payload-fixed tc node row b 12,
        fixed_part-routing tc node (length row) b,
      ) in
    rw
      (
        read16-fixed tc node row b 8 (omega arith)
            ∙ fixed_part-mixaddr tc node (length row) b small.mixaddr,
        read16-fixed tc node row b 10 (omega arith) ∙ fixed_part-count tc node (length row) b n,
        read32-fixed tc node row b 16 (omega arith)
            ∙ fixed_part-hello tc node (length row) b fits.hello,
        read32-fixed tc node row b 20 (omega arith)
            ∙ fixed_part-reelection tc node (length row) b fits.reelection,
        routing,
        read16-fixed tc node row b 14 (omega arith)
            ∙ fixed_part-mixing tc node (length row) b small.mixing_factor,
        costs,
      )
      refl
