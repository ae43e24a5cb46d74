-- ===== src/Framework/Orchestrator/Reset/Closing.antt =====
-- framework/orchestrator.cpp: what the reset closes and what a later run starts from.
use fall23_p.Prelude.{
  ◌∙◌, ◌==◌, if◌then◌else◌, ℕ, List, ◌∷◌, ◌≡◌, ◌++◌, ◌+◌, some, map, none, arith, Bool, true, [],
  refl,
}
use fall23_p.Framework.ErrorCode.{success}
use fall23_p.Framework.Orchestrator.Responses.{Fd}
use fall23_p.Framework.Orchestrator.Fragments.{Fragments, FragmentMetadata}
use fall23_p.Framework.Orchestrator.Phases.{ctrl_fds}
use fall23_p.Framework.Orchestrator.Handshake.Counting.{occurrences}
use fall23_p.Framework.Orchestrator.Reset.{
  Orchestrator, orchestrator, close_before, configure, run_state_init, close_fragments,
  destroy_sockets, run_state_reset,
}

-- The sockets that the orchestrator holds.
abbrev pub held : Orchestrator → List Fd
held o =
    o.listen_fd_ctrl
    ∷ o.listen_fd_pcap
    ∷ (ctrl_fds o.fragments ++ map FragmentMetadata.fd_pcap o.fragments)

-- How often a descriptor is closed.
abbrev pub closed : ℕ → List ℕ → ℕ
closed fd [] = 0
closed fd (x ∷ xs) = (if x == fd then 1 else 0) + closed fd xs

occurrences-append :
    (x : Fd) (xs ys : List Fd) → occurrences x (xs ++ ys) ≡ occurrences x xs + occurrences x ys
occurrences-append x [] ys = omega arith
occurrences-append x (fd ∷ xs) ys = omega (arith, occurrences-append x xs ys)

closed-close_fragments :
    (fd : ℕ) (fs : Fragments) (rest : List ℕ)
    → closed fd (close_fragments fs rest)
      ≡ occurrences (some fd) (ctrl_fds fs)
        + occurrences (some fd) (map FragmentMetadata.fd_pcap fs)
        + closed fd rest
unfolding close_fragments
closed-close_fragments fd [] rest = omega arith
closed-close_fragments fd (f ∷ fs) rest = ground (arith, closed-close_fragments fd fs rest)

closed-listeners :
    (fd : ℕ) (pcap ctrl : Fd)
    → closed fd (close_before pcap (close_before ctrl []))
      ≡ occurrences (some fd) (ctrl ∷ pcap ∷ [])
closed-listeners fd none none = omega arith
closed-listeners fd none (some c) = omega arith
closed-listeners fd (some p) none = omega arith
closed-listeners fd (some p) (some c) = omega arith

-- The state that a run starts from.
abbrev pub IsFresh : Orchestrator → Type 0
IsFresh o =
    (run_state_init o ≡ some success)
    × (o.listen_fd_ctrl ≡ none)
    × (o.listen_fd_pcap ≡ none)
    × (o.pcap_thread_run ≡ true)
    × (o.pcap_thread_error ≡ success)

-- A new orchestrator is ready for a run, and the reset after a run makes it ready for the next one: it
-- closes each socket that is held as often as it is held, so that none is left open, and no other; and
-- the configuration stays.
pub run_state_reset-closes :
    (o : Orchestrator)
    → IsFresh orchestrator
      × IsFresh (run_state_reset o).1
      × ((fd : ℕ) → closed fd (run_state_reset o).0 ≡ occurrences (some fd) (held o))
      × ((run_state_reset o).1.is_configured ≡ o.is_configured)
      × ((bin_dir : List ℕ) (autotest_mode : Bool)
          → configure bin_dir autotest_mode (run_state_reset o).1
            ≡ (run_state_reset (configure bin_dir autotest_mode o)).1)
unfolding run_state_reset run_state_init destroy_sockets orchestrator configure
run_state_reset-closes o = (
  (refl, refl, refl, refl, refl),
  (refl, refl, refl, refl, refl),
  (λ fd.
      closed-close_fragments fd o.fragments
        (close_before o.listen_fd_pcap (close_before o.listen_fd_ctrl []))
      ∙ omega (
        arith,
        closed-listeners fd o.listen_fd_pcap o.listen_fd_ctrl,
        occurrences-append (some fd) (ctrl_fds o.fragments)
            (map FragmentMetadata.fd_pcap o.fragments),
      )),
  refl,
  (λ bin_dir autotest_mode. refl),
)
