-- ===== src/Framework/Orchestrator/Handshake/Matching.antt =====
-- framework/orchestrator.cpp: what the assignment of one ctrl socket to a fragment process changes.
use fall23_p.Prelude.{
  ◌+◌, ◌≡◌, ◌≢◌, ◌⊎◌, ◌==◌, if◌then◌else◌, suc, false, none, some, refl, inl, inr, ap, arith,
  length, map, All, Bool-cases, Option, List, [], ℕ, ◌∷◌,
}
use fall23_p.Framework.ErrorCode.{success}
use fall23_p.Framework.Orchestrator.Responses.{Fd}
use fall23_p.Framework.Orchestrator.Fragments.{
  Fragments, FragmentMetadata, is_set, pid_bits, assign_by_pid,
}
use fall23_p.Framework.Orchestrator.Phases.{ctrl_fds}
use fall23_p.Framework.Orchestrator.Handshake.Counting.{same_fd, occurrences}

abbrev pub pids : Fragments → List (Option ℕ)
pids fs = map FragmentMetadata.pid fs

-- One fragment without a socket, of the process `pid`, has got the socket `y`.
pub record Assigns (y : ℕ) (fs fs' : Fragments) : Type 0 where
  pub size : length fs' ≡ length fs
  pub sockets :
      (x : Fd)
      → occurrences x (ctrl_fds fs') + (if same_fd none x then 1 else 0)
        ≡ occurrences x (ctrl_fds fs) + (if same_fd (some y) x then 1 else 0)
  pub same_pids : pids fs' ≡ pids fs

unset : (fd : Fd) → is_set fd ≡ false → fd ≡ none
unset none h = refl
unset (some n) h = absurd (ground (arith, h))

pub assign_by_pid-cases :
    (pid y : ℕ) (fs : Fragments)
    → (((assign_by_pid pid (some y) fs).0 ≢ success) × ((assign_by_pid pid (some y) fs).1 ≡ fs))
      ⊎ (((assign_by_pid pid (some y) fs).0 ≡ success)
          × Assigns y fs (assign_by_pid pid (some y) fs).1)
unfolding assign_by_pid
assign_by_pid-cases pid y [] = inl ((λ e. cc), refl)
assign_by_pid-cases pid y (f ∷ fs) = elim (Bool-cases (pid_bits f.pid == pid)) [
  | inl found ↦ elim (Bool-cases (is_set f.fd_ctrl)) [
    | inl taken ↦ rw (found, taken) (inl ((λ e. cc), refl))
    | inr free ↦
        rw (found, free)
          (inr (
            refl,
            record {
              size = refl;
              sockets = λ x. ground (arith, unset f.fd_ctrl free);
              same_pids = refl;
            },
          ))
  ]
  | inr other ↦ rw other (elim (assign_by_pid-cases pid y fs) [
    | inl (bad, same) ↦ inl (bad, ap (◌∷◌ f) same)
    | inr (good, assigned) ↦ inr (
      good,
      record {
        size = ap suc assigned.size;
        sockets = λ x. omega (arith, assigned.sockets x);
        same_pids = ap (◌∷◌ f.pid) assigned.same_pids;
      },
    )
  ])
]

-- What holds of each fragment, and of the one that gets the socket.
pub assign_by_pid-All :
    (P : FragmentMetadata → Type 0) (pid y : ℕ) (fs : Fragments)
    → ((f : FragmentMetadata) → pid_bits f.pid ≡ pid → P (record f { fd_ctrl = some y }))
    → All P fs
    → All P (assign_by_pid pid (some y) fs).1
unfolding assign_by_pid
assign_by_pid-All P pid y [] new h = tt
assign_by_pid-All P pid y (f ∷ fs) new h = elim (Bool-cases (pid_bits f.pid == pid)) [
  | inl found ↦ elim (Bool-cases (is_set f.fd_ctrl)) [
    | inl taken ↦ rw (found, taken) h
    | inr free ↦ rw (found, free) (new f (ground (arith, found)), h.1)
  ]
  | inr other ↦ rw other (h.0, assign_by_pid-All P pid y fs new h.1)
]
