-- ===== src/Framework/Orchestrator/Handshake/Assigning.antt =====
-- framework/orchestrator.cpp: which ctrl socket the handshake assigns to which fragment process.
use fall23_p.Framework.Orchestrator.Handshake.Matching.{
  assign_by_pid-cases, assign_by_pid-All, pids, Assigns,
}
use fall23_p.Framework.Orchestrator.Responses.Rounds.{Expires, ArePolls}
use mathlib.Core.Path.{subst}
use fall23_p.Framework.Orchestrator.Responses.Waiting.{
  foreach_fragment_recv_generic-Settles, Settles, IsGood,
}
use fall23_p.Framework.Message.{MessageType}
use mathlib.Core.Quot.{Quot}
use fall23_p.Framework.Orchestrator.Responses.Answers.{answer-keeps, IsReadable}
use fall23_p.Framework.Buffer.{Buffer}
use mathlib.Core.Quot
use fall23_p.Prelude.{
  ◌>>=◌, All-map, ◌<◌, zero, true, sym, ◌∙◌, load, ◌+◌, ◌≡◌, ◌≢◌, ◌⊎◌, if◌then◌else◌, suc, false,
  none, some, refl, inl, inr, arith, length, All, List, [], ℕ, ◌∷◌,
}
use fall23_p.Framework.ErrorCode.{is_success-success, ErrorCode, success}
use fall23_p.Framework.Orchestrator.Responses.{
  foreach_fragment_recv_generic, Round, answers_of, answer, is_positive, Fd,
}
use fall23_p.Framework.Orchestrator.Fragments.{
  setup_ctrl_lambda, response_pid, Fragments, FragmentMetadata, pid_bits, assign_by_pid,
}
use fall23_p.Framework.Orchestrator.Phases.{ctrl_fds}
use fall23_p.Framework.Orchestrator.Handshake.Counting.{
  good_count-length, heard_on-All, good_count, heard_on, same_fd, occurrences,
}

-- Two lists hold the same sockets, as often.
abbrev pub SameSockets : List Fd → List Fd → Type 0
SameSockets xs ys = (x : Fd) → occurrences x xs ≡ occurrences x ys

-- The sockets regardless of their order.
abbrev pub SocketBag : Type 0
SocketBag = Quot SameSockets

-- A fragment that has no socket yet, or the socket over which its process number came.
abbrev pub HasOwnSocket : List Fd → (ℕ → ℕ) → FragmentMetadata → Type 0
HasOwnSocket fds pid_of f =
    (f.fd_ctrl ≡ none) ⊎ ((i : ℕ) × (load fds i ≡ some f.fd_ctrl) × (pid_bits f.pid ≡ pid_of i))

-- An answer whose header can be checked, with the process number of its socket's fragment.
abbrev pub Introduces : (ℕ → ℕ) → ℕ → ErrorCode × Buffer → Type 0
Introduces pid_of i (code, m) =
    IsReadable false MessageType.setup_ctrl i (code, m)
    × (code ≡ success → response_pid m ≡ pid_of i)

positive-load :
    (fds : List Fd) (i : ℕ)
    → All (λ fd. is_positive fd ≡ true) fds
    → i < length fds
    → (y : ℕ) × (load fds i ≡ some (some y))
positive-load [] i h below = absurd (omega arith)
positive-load (some y ∷ fds) zero h below = (y, refl)
positive-load (none ∷ fds) zero h below = absurd (ground (arith, h.0))
positive-load (fd ∷ fds) (suc i) h below = positive-load fds i h.1 (omega arith)

unassigned-occurrences :
    (x : Fd) (fs : Fragments)
    → All (λ f. f.fd_ctrl ≡ none) fs
    → occurrences x (ctrl_fds fs) + (if same_fd none x then 0 else 0)
      ≡ (if same_fd none x then length fs else 0) + 0
unassigned-occurrences x [] h = ground arith
unassigned-occurrences x (f ∷ fs) h = rw (h.0) (ground (arith, unassigned-occurrences x fs h.1))

module _ (fds : List Fd) (pid_of : ℕ → ℕ) (fragments : Fragments) where
  -- What the answers have assigned.
  record IsAssigned (log : List (ℕ × ErrorCode)) (fs : Fragments) : Type 0 where
    sockets :
        (x : Fd)
        → occurrences x (ctrl_fds fs) + (if same_fd none x then good_count log else 0)
          ≡ (if same_fd none x then length fragments else 0) + heard_on 0 fds x log
    own : All (HasOwnSocket fds pid_of) fs
    same_pids : pids fs ≡ pids fragments

  bad-IsAssigned :
      (log : List (ℕ × ErrorCode)) (fs : Fragments) (i : ℕ) (c : ErrorCode)
      → c ≢ success
      → IsAssigned log fs
      → IsAssigned ((i, c) ∷ log) fs
  unfolding heard_on good_count
  bad-IsAssigned log fs i c bad h = record {
    sockets = λ x. ground (arith, h.sockets x, bad, is_success-success c);
    own = h.own;
    same_pids = h.same_pids;
  }

  good-IsAssigned :
      (log : List (ℕ × ErrorCode)) (fs fs' : Fragments) (i y : ℕ)
      → load fds i ≡ some (some y)
      → Assigns y fs fs'
      → All (HasOwnSocket fds pid_of) fs'
      → IsAssigned log fs
      → IsAssigned ((i, success) ∷ log) fs'
  unfolding heard_on good_count
  good-IsAssigned log fs fs' i y at a own h = record {
    sockets = λ x. ground (arith, h.sockets x, a.sockets x, at);
    own = own;
    same_pids = a.same_pids ∙ h.same_pids;
  }

  setup_ctrl_lambda-found :
      (i y : ℕ) (m : Buffer) (fs : Fragments)
      → load fds i ≡ some (some y)
      → setup_ctrl_lambda true fds i m fs ≡ some (assign_by_pid (response_pid m) (some y) fs)
  unfolding setup_ctrl_lambda
  setup_ctrl_lambda-found i y m fs at = rw (at, ◌>>=◌) refl

  lambda-IsAssigned :
      (log : List (ℕ × ErrorCode)) (fs : Fragments) (i y : ℕ) (m : Buffer)
      → load fds i ≡ some (some y)
      → response_pid m ≡ pid_of i
      → IsAssigned log fs
      → (c : ErrorCode) × (fs' : Fragments) × (setup_ctrl_lambda true fds i m fs ≡ some (c, fs'))
        × IsAssigned ((i, c) ∷ log) fs'
  lambda-IsAssigned log fs i y m at introduced h =
      let r = assign_by_pid (response_pid m) (some y) fs in
      let own =
        assign_by_pid-All (HasOwnSocket fds pid_of) (response_pid m) y fs
          (λ f e. inr (i, at, e ∙ introduced)) h.own in
      elim (assign_by_pid-cases (response_pid m) y fs) [
        | inl (bad, same) ↦ (
          r.0,
          r.1,
          setup_ctrl_lambda-found i y m fs at,
          bad-IsAssigned log r.1 i r.0 bad (subst (λ t. IsAssigned log t) (sym same) h),
        )
        | inr (good, assigned) ↦ (
          r.0,
          r.1,
          setup_ctrl_lambda-found i y m fs at,
          subst (λ c. IsAssigned ((i, c) ∷ log) r.1) (sym good)
              (good-IsAssigned log fs r.1 i y at assigned own h),
        )
      ]

  answer-IsAssigned :
      All (λ fd. is_positive fd ≡ true) fds
      → (i : ℕ) (r : ErrorCode × Buffer) (log : List (ℕ × ErrorCode)) (fs : Fragments)
      → i < length fds
      → Introduces pid_of i r
      → IsAssigned log fs
      → (c : ErrorCode) × (fs' : Fragments) × (answer false MessageType.setup_ctrl
            (setup_ctrl_lambda true fds)
            i
            r
            fs
          ≡ some (c, fs'))
        × IsAssigned ((i, c) ∷ log) fs'
  answer-IsAssigned positive i (code, m) log fs below (readable, introduced) h =
      let (y, at) = positive-load fds i positive below in
      answer-keeps false MessageType.setup_ctrl (setup_ctrl_lambda true fds) i m fs code
        (λ c fs'. IsAssigned ((i, c) ∷ log) fs') readable (λ c bad. bad-IsAssigned log fs i c bad h)
        (λ received checked. lambda-IsAssigned log fs i y m at (introduced received) h)

  start-IsAssigned : All (λ f. f.fd_ctrl ≡ none) fragments → IsAssigned [] fragments
  unfolding heard_on good_count
  start-IsAssigned fresh = record {
    sockets = λ x. unassigned-occurrences x fragments fresh;
    own = All-map (λ f. f.fd_ctrl ≡ none) (HasOwnSocket fds pid_of) (λ f e. inl e) fragments fresh;
    same_pids = refl;
  }

  -- When every fragment has given a good answer, the sockets are assigned, each as often as it is there.
  finished-SameSockets :
      (log : List (ℕ × ErrorCode)) (fs : Fragments)
      → length fds ≡ length fragments
      → length log ≡ length fds
      → All IsGood log
      → ((i : ℕ) → i < length fds → answers_of i log ≡ 1)
      → IsAssigned log fs
      → SameSockets (ctrl_fds fs) fds
  finished-SameSockets log fs sizes count good once h x =
      let heard = heard_on-All 0 fds x log good (λ i below. once i (omega arith)) in
      ground (arith, h.sockets x, heard, good_count-length log good)

-- The wait of the SETUP_CTRL handshake in autotest mode always ends, and its answers settle the error
-- code. Each fragment then has no ctrl socket, or the accepted one over which its process number came;
-- the process numbers are as they were; and after a success the sockets of the fragments are the
-- accepted sockets, each once, in whatever order. No fragment has a socket before, there are as many
-- accepted sockets as fragments, all positive; every answer received has a header that can be checked
-- and the process number of its socket's peer; poll reports events on no more sockets than it polls; and
-- the time is over in one of the rounds.
pub setup_ctrl-assigns :
    (fds : List Fd) (pid_of : ℕ → ℕ) (fragments : Fragments) (timeout : ℕ) (rounds : List Round)
    → length fds ≡ length fragments
    → All (λ fd. is_positive fd ≡ true) fds
    → All (λ f. f.fd_ctrl ≡ none) fragments
    → All (λ r. (i : ℕ) → Introduces pid_of i (r.receives i)) rounds
    → ArePolls rounds fds
    → (timeout ≡ 0) ⊎ Expires rounds
    → (log : List (ℕ × ErrorCode)) × (code : ErrorCode) × (fs : Fragments)
      × (foreach_fragment_recv_generic false MessageType.setup_ctrl
            (setup_ctrl_lambda true fds)
            fds
            timeout
            rounds
            fragments
          ≡ some (log, code, fs))
      × Settles (length fds) log code
      × (pids fs ≡ pids fragments)
      × All (HasOwnSocket fds pid_of) fs
      × (code ≡ success → ◌≡◌ {A = SocketBag} (Quot.mk (ctrl_fds fs)) (Quot.mk fds))
setup_ctrl-assigns fds pid_of fragments timeout rounds sizes positive fresh introduces polls ends =
    let (log, code, fs, received, h, settled) =
      foreach_fragment_recv_generic-Settles false MessageType.setup_ctrl
        (setup_ctrl_lambda true fds) fds (IsAssigned fds pid_of fragments) (Introduces pid_of)
        (λ i r log fs below. answer-IsAssigned fds pid_of fragments positive i r log fs below)
        timeout rounds fragments positive introduces polls ends
        (start-IsAssigned fds pid_of fragments fresh) in
    (
      log,
      code,
      fs,
      received,
      settled,
      h.same_pids,
      h.own,
      (λ done.
          let (count, good) = settled.finished.0 done in
          Quot.sound (
            finished-SameSockets fds pid_of fragments log fs sizes count good
              (settled.everyone done) h)),
    )
