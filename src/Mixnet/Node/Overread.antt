-- ===== src/Mixnet/Node/Overread.antt =====
-- mixnet/node.c, run_node: the copy of six bytes from behind the header of every packet received.
use mathlib.Core.Path.{subst}
use mathlib.Core.Option.{some-injective}
use fall23_p.Prelude.{ℕ, ◌≤◌, ◌≡◌, ◌∙◌, ◌⊎◌, ◌||◌, ◌↔◌, Bool, false, Option, none, some, arith, sym}
use fall23_p.Mixnet.Config.{NodeConfig}
use fall23_p.Mixnet.Packet.{Packet}
use fall23_p.Mixnet.Node.Loop.{State, Round, root_hello, re_elect, allocated, copies_past_end}

-- A packet that is long enough for the copy of six bytes behind its header, if there is one: it is the
-- user's, or it has at least 18 bytes.
abbrev pub IsWhole : ℕ → Round → Type 0
IsWhole n r =
    (port : ℕ) (packet : Packet)
    → r.received ≡ some (port, packet)
    → (port ≡ n) ⊎ (18 ≤ packet.total_size)

copies-IsWhole :
    (n : ℕ) (port : ℕ) (packet : Packet)
    → (copies_past_end n port packet ≡ false) ↔ ((port ≡ n) ⊎ (18 ≤ packet.total_size))
unfolding copies_past_end allocated
copies-IsWhole n port packet = ground arith

-- Whether a packet has been read past its end, after the copy of the packet received.
abbrev pub has_overread : ℕ → State → Option (ℕ × Packet) → Bool
has_overread n s none = s.overread
has_overread n s (some (port, packet)) = s.overread || copies_past_end n port packet

pub has_overread-IsWhole :
    (n : ℕ) (s : State) (r : Round) (received : Option (ℕ × Packet))
    → r.received ≡ received
    → (has_overread n s received ≡ false) ↔ ((s.overread ≡ false) × IsWhole n r)
has_overread-IsWhole n s r none got = ((λ e. (e, λ port packet arrives. absurd (cc))), (λ x. x.0))
has_overread-IsWhole n s r (some (port, packet)) got =
    let whole = copies-IsWhole n port packet in
    (
      (λ e. (
        ground (arith, e),
        (λ port' packet' arrives.
            subst (λ x. (x.0 ≡ n) ⊎ (18 ≤ x.1.total_size)) (some-injective _ _ (sym got ∙ arrives))
              (whole.0 (ground (arith, e)))),
      )),
      (λ x. let clear = whole.1 (x.1 port packet got) in ground (arith, clear, x.0)),
    )

pub timers-overread :
    (config : NodeConfig) (s : State) (r : Round)
    → (re_elect config (root_hello config s r).0 r).0.overread ≡ s.overread
unfolding root_hello re_elect
timers-overread config s r = ground arith
