-- ===== src/Mixnet/Config.antt =====
-- mixnet/config.h: the configuration of a node.
use fall23_p.Prelude.{ℕ, Bool, List, false, []}
use fall23_p.Mixnet.Packet.{invalid_address}

abbrev pub default_root_hello_interval_ms : ℕ
default_root_hello_interval_ms = 2000

abbrev pub default_reelection_interval_ms : ℕ
default_reelection_interval_ms = 20000

-- struct mixnet_node_config; `link_costs` is empty for the null pointer.
pub record NodeConfig : Type 0 where
  pub node_addr : ℕ
  pub num_neighbors : ℕ
  pub root_hello_interval_ms : ℕ
  pub reelection_interval_ms : ℕ
  pub do_random_routing : Bool
  pub mixing_factor : ℕ
  pub link_costs : List ℕ

abbrev pub default_config : NodeConfig
default_config = record {
  node_addr = invalid_address;
  num_neighbors = 0;
  root_hello_interval_ms = default_root_hello_interval_ms;
  reelection_interval_ms = default_reelection_interval_ms;
  do_random_routing = false;
  mixing_factor = 1;
  link_costs = [];
}
