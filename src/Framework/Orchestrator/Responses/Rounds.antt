-- ===== src/Framework/Orchestrator/Responses/Rounds.antt =====
-- framework/orchestrator.cpp: the wait for an answer of every fragment, round by round.
use fall23_p.Prelude.{
  ℕ, suc, ◌+◌, ◌-◌, ◌==◌, ◌≤◌, ◌<◌, ◌≡◌, ◌⊎◌, inl, inr, ◌&&◌, Bool, true, false, List, [], ◌∷◌,
  Option, none, some, if◌then◌else◌, length, arith, refl, Bool-cases, ap,
}
use fall23_p.Framework.ErrorCode.{ErrorCode}
use fall23_p.Framework.Buffer.{Buffer}
use fall23_p.Framework.Message.{MessageType}
use fall23_p.Framework.Orchestrator.Machine.{first_error}
use fall23_p.Framework.Orchestrator.Responses.{
  Fd, is_positive, Poll, events, Round, Progress, answer, serve_from, oldest_error, answers_of,
}

-- The descriptors that are polled.
abbrev pub open_count : List Fd → ℕ
open_count [] = 0
open_count (fd ∷ fds) = (if is_positive fd then 1 else 0) + open_count fds

-- Whether the descriptor `i` is polled, in a list that starts at `idx`.
abbrev pub polled : ℕ → List Fd → ℕ → ℕ
polled idx [] i = 0
polled idx (fd ∷ fds) i = (if idx == i && is_positive fd then 1 else 0) + polled (idx + 1) fds i

-- The descriptors that are still polled after a round.
abbrev pub served : (ℕ → Bool) → ℕ → List Fd → List Fd
served readable idx [] = []
served readable idx (fd ∷ fds) =
    (if readable idx && is_positive fd then none else fd) ∷ served readable (idx + 1) fds

abbrev pub left_by : Poll → List Fd → List Fd
left_by (events rc readable) fds = served readable 0 fds
left_by _ fds = fds

-- poll reports events on no more descriptors than it is given.
abbrev pub IsPoll : Poll → List Fd → Type 0
IsPoll (events rc readable) fds = rc ≤ open_count fds
IsPoll _ fds = Unit

abbrev pub ArePolls : List Round → List Fd → Type 0
ArePolls [] fds = Unit
ArePolls (r ∷ rounds) fds = IsPoll r.poll fds × ArePolls rounds (left_by r.poll fds)

-- The time is over after one of the rounds.
abbrev pub Expires : List Round → Type 0
Expires [] = ⊥
Expires (r ∷ rounds) = (r.timer ≡ 0) ⊎ Expires rounds

pub polled-le : (idx : ℕ) (fds : List Fd) (i : ℕ) → polled idx fds i ≤ open_count fds
polled-le idx [] i = omega arith
polled-le idx (fd ∷ fds) i = ground (arith, polled-le (idx + 1) fds i)

-- Where one loop over the descriptors leads from `p`, which has `e` pending answers besides those of
-- `fds`.
pub record Serves {S : Type 0} (e idx : ℕ) (readable : ℕ → Bool) (fds : List Fd) (p q : Progress S)
    : Type 0 where
  pub pending : q.num_pending ≡ e + open_count q.pfds
  pub left : q.pfds ≡ served readable idx fds
  pub size : length q.pfds ≡ length fds
  pub total : length q.log + q.num_pending ≡ length p.log + p.num_pending
  pub each :
      (i : ℕ) → answers_of i q.log + polled idx q.pfds i ≡ answers_of i p.log + polled idx fds i
  pub code : q.code ≡ oldest_error q.log

-- The progress after the answer `code` of the fragment `idx`, which left the state `s`.
abbrev pub answered : {S : Type 0} → Progress S → ℕ → ErrorCode → S → Progress S
answered p idx code s = record p {
  num_pending = p.num_pending - 1;
  code = first_error p.code code;
  state = s;
  log = (idx, code) ∷ p.log;
}

module _ {S : Type 0} (e idx : ℕ) (readable : ℕ → Bool) (fd : Fd) (fds : List Fd)
    (p q : Progress S) where
  ready-Serves :
      (c : ErrorCode) (s : S)
      → (readable idx && is_positive fd) ≡ true
      → 0 < p.num_pending
      → Serves e (idx + 1) readable fds (answered p idx c s) q
      → Serves e idx readable (fd ∷ fds) p (record q { pfds = none ∷ q.pfds })
  unfolding answers_of
  ready-Serves c s ready some_pending h = record {
    pending = ground (arith, h.pending);
    left = rw ready (ap (◌∷◌ none) h.left);
    size = ap suc h.size;
    total = ground (arith, h.total);
    each = λ i. ground (arith, h.each i, ready);
    code = h.code;
  }

  other-Serves :
      (readable idx && is_positive fd) ≡ false
      → Serves (e + (if is_positive fd then 1 else 0)) (idx + 1) readable fds p q
      → Serves e idx readable (fd ∷ fds) p (record q { pfds = fd ∷ q.pfds })
  other-Serves other h = record {
    pending = omega (arith, h.pending);
    left = rw other (ap (◌∷◌ fd) h.left);
    size = ap suc h.size;
    total = h.total;
    each = λ i. omega (arith, h.each i);
    code = h.code;
  }

module _ {S : Type 0} (check_ids : Bool) (type : MessageType)
    (lambda : ℕ → Buffer → S → Option (ErrorCode × S)) (n : ℕ)
    (P : List (ℕ × ErrorCode) → S → Type 0) (Received : ℕ → ErrorCode × Buffer → Type 0)
    (keeps : (i : ℕ) (r : ErrorCode × Buffer) (log : List (ℕ × ErrorCode)) (s : S)
      → i < n
      → Received i r
      → P log s
      → (c : ErrorCode) × (s' : S) × (answer check_ids type lambda i r s ≡ some (c, s'))
        × P ((i, c) ∷ log) s') where
  serve_ready :
      (readable : ℕ → Bool) (receives : ℕ → ErrorCode × Buffer) (idx : ℕ) (fd : Fd) (fds : List Fd)
      (p q : Progress S) (c : ErrorCode) (s : S)
      → (readable idx && is_positive fd) ≡ true
      → answer check_ids type lambda idx (receives idx) p.state ≡ some (c, s)
      → serve_from check_ids type lambda readable receives (idx + 1) (answered p idx c s) fds
        ≡ some q
      → serve_from check_ids type lambda readable receives idx p (fd ∷ fds)
        ≡ some (record q { pfds = none ∷ q.pfds })
  unfolding serve_from
  serve_ready readable receives idx fd fds p q c s ready handled rest =
      rw (serve_from, ready, handled, rest) refl

  serve_other :
      (readable : ℕ → Bool) (receives : ℕ → ErrorCode × Buffer) (idx : ℕ) (fd : Fd) (fds : List Fd)
      (p q : Progress S)
      → (readable idx && is_positive fd) ≡ false
      → serve_from check_ids type lambda readable receives (idx + 1) p fds ≡ some q
      → serve_from check_ids type lambda readable receives idx p (fd ∷ fds)
        ≡ some (record q { pfds = fd ∷ q.pfds })
  unfolding serve_from
  serve_other readable receives idx fd fds p q other rest = rw (serve_from, other, rest) refl

  pub serve_from-Serves :
      (readable : ℕ → Bool) (receives : ℕ → ErrorCode × Buffer)
      → ((i : ℕ) → Received i (receives i))
      → (fds : List Fd) (idx e : ℕ) (p : Progress S) → idx + length fds ≤ n
      → p.num_pending ≡ e + open_count fds
      → p.code ≡ oldest_error p.log
      → P p.log p.state
      → (q : Progress S) × (serve_from check_ids type lambda readable receives idx p fds ≡ some q)
        × P q.log q.state
        × Serves e idx readable fds p q
  unfolding serve_from oldest_error answers_of
  serve_from-Serves readable receives ok [] idx e p range pending code holds = (
    record p { pfds = [] },
    refl,
    holds,
    record {
      pending = pending;
      left = refl;
      size = refl;
      total = refl;
      each = λ i. refl;
      code = code;
    },
  )
  serve_from-Serves readable receives ok (fd ∷ fds) idx e p range pending code holds =
      elim (Bool-cases (readable idx && is_positive fd)) [
        | inl ready ↦
            let (c, s', handled, holds') =
              keeps idx (receives idx) p.log p.state (omega arith) (ok idx) holds in
            let (q, rest, holds'', s) =
              serve_from-Serves readable receives ok fds (idx + 1) e (answered p idx c s')
                (omega arith) (ground (arith, ready)) (rw code refl) holds' in
            (
              record q { pfds = none ∷ q.pfds },
              serve_ready readable receives idx fd fds p q c s' ready handled rest,
              holds'',
              ready-Serves e idx readable fd fds p q c s' ready (ground (arith, ready)) s,
            )
        | inr other ↦
            let (q, rest, holds'', s) =
              serve_from-Serves readable receives ok fds (idx + 1)
                (e + (if is_positive fd then 1 else 0)) p (omega arith) (omega arith) code holds in
            (
              record q { pfds = fd ∷ q.pfds },
              serve_other readable receives idx fd fds p q other rest,
              holds'',
              other-Serves e idx readable fd fds p q other s,
            )
      ]
