-- ===== src/Mixnet/Node/Timers.antt =====
-- mixnet/node.c, run_node: the hello and re-election timers, over a clock that wraps at 2 ^ 32.
use mathlib.Core.List.{append-nil}
use fall23_p.Prelude.{ℕ, ◌+◌, ◌%◌, ◌^◌, ◌≤◌, ◌<◌, ◌≡◌, ◌≢◌, ◌⊎◌, [], none, some, arith}
use fall23_p.Mixnet.Config.{NodeConfig}
use fall23_p.Mixnet.Node.{send_stp}
use fall23_p.Mixnet.Node.Loop.{
  State, Round, elapsed, root_hello, re_elect, handle, round, make_root,
}

-- The difference of two readings is the time between them, also when the clock wraps in between.
pub elapsed-wrap :
    (since d : ℕ) → since < 2 ^ 32 → d < 2 ^ 32 → elapsed ((since + d) % 2 ^ 32) since ≡ d
unfolding elapsed
elapsed-wrap since d h k = omega arith

module _ (config : NodeConfig) (s : State) (r : Round) (d : ℕ) (short : d < 2 ^ 32) where
  -- A node that is its own root and receives nothing sends its hello in the round in which the hello
  -- interval has passed since the last one, and then restarts both timers; earlier it does nothing.
  -- Fewer than 2 ^ 32 ms have passed; the clock may have wrapped.
  pub root-round :
      s.node.root_addr ≡ s.node.my_addr
      → r.received ≡ none
      → s.heartbeat_time < 2 ^ 32
      → r.hello_now ≡ (s.heartbeat_time + d) % 2 ^ 32
      → ((config.root_hello_interval_ms ≤ d)
          × (round config s r
              ≡ some (
                record s {
                  heartbeat_time = r.heartbeat_now;
                  re_election_time = r.hello_re_election_now;
                },
                send_stp s.node,
              )))
        ⊎ ((d < config.root_hello_interval_ms) × (round config s r ≡ some (s, [])))
  unfolding round root_hello re_elect handle
  root-round root quiet range now =
      ground (arith, elapsed-wrap s.heartbeat_time d, append-nil (send_stp s.node))

  -- A node with another root that receives nothing makes itself the root, at distance 0 and with
  -- itself as the next hop, announces that and restarts its timer in the round in which the
  -- re-election interval has passed since the last hello; earlier it does nothing. Fewer than 2 ^ 32
  -- ms have passed; the clock may have wrapped.
  pub non_root-round :
      s.node.root_addr ≢ s.node.my_addr
      → r.received ≡ none
      → s.re_election_time < 2 ^ 32
      → r.re_election_now ≡ (s.re_election_time + d) % 2 ^ 32
      → ((config.reelection_interval_ms ≤ d)
          × (round config s r
              ≡ some (
                record s { node = make_root s.node; re_election_time = r.takeover_now },
                send_stp (make_root s.node),
              )))
        ⊎ ((d < config.reelection_interval_ms) × (round config s r ≡ some (s, [])))
  unfolding round root_hello re_elect handle
  non_root-round root quiet range now =
      ground (arith, elapsed-wrap s.re_election_time d, append-nil (send_stp (make_root s.node)))
