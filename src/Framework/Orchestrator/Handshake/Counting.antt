-- ===== src/Framework/Orchestrator/Handshake/Counting.antt =====
-- framework/orchestrator.cpp: how often a socket stands among the accepted ones, and among those whose
-- fragments have answered.
use fall23_p.Prelude.{
  suc, ℕ_discrete, dec_lt, ◌&&◌, ◌+◌, ◌-◌, ◌<◌, ◌≡◌, ◌∙◌, ◌∷◌, ◌==◌, if◌then◌else◌, true, false,
  none, some, refl, arith, leb, length, load, All, Bool, List, [], ℕ,
}
use fall23_p.Framework.ErrorCode.{ErrorCode, is_success}
use fall23_p.Framework.Orchestrator.Responses.{Fd, answers_of}
use fall23_p.Framework.Orchestrator.Responses.Waiting.{IsGood}

abbrev pub same_fd : Fd → Fd → Bool
same_fd none none = true
same_fd (some a) (some b) = a == b
same_fd _ _ = false

abbrev pub occurrences : Fd → List Fd → ℕ
occurrences x [] = 0
occurrences x (fd ∷ fds) = (if same_fd fd x then 1 else 0) + occurrences x fds

abbrev pub is_at : List Fd → ℕ → Fd → Bool
is_at fds i x = elim (load fds i) [ none ↦ false | some fd ↦ same_fd fd x ]

-- How often the socket `x` has given a good answer, among the sockets `fds` from the place `idx`.
unfoldable pub heard_on : ℕ → List Fd → Fd → List (ℕ × ErrorCode) → ℕ
heard_on idx fds x [] = 0
heard_on idx fds x ((i, code) ∷ log) =
    (if is_success code && (leb idx i && is_at fds (i - idx) x) then 1 else 0)
    + heard_on idx fds x log

unfoldable pub good_count : List (ℕ × ErrorCode) → ℕ
good_count [] = 0
good_count ((i, code) ∷ log) = (if is_success code then 1 else 0) + good_count log

pub good_count-length : (log : List (ℕ × ErrorCode)) → All IsGood log → good_count log ≡ length log
unfolding good_count
good_count-length [] h = refl
good_count-length ((i, code) ∷ log) h = rw (h.0) (omega (arith, good_count-length log h.1))

heard_on-nil : (idx : ℕ) (x : Fd) (log : List (ℕ × ErrorCode)) → heard_on idx [] x log ≡ 0
unfolding heard_on
heard_on-nil idx x [] = refl
heard_on-nil idx x ((i, code) ∷ log) = ground (arith, heard_on-nil idx x log)

-- One answer, with `n` others of the fragment `idx`.
answer_at :
    (idx : ℕ) (fd : Fd) (fds : List Fd) (x : Fd) (i n : ℕ)
    → (if leb idx i && is_at (fd ∷ fds) (i - idx) x then 1 else 0) + (if same_fd fd x then n else 0)
      ≡ (if same_fd fd x then (if i == idx then 1 else 0) + n else 0)
        + (if leb (idx + 1) i && is_at fds (i - (idx + 1)) x then 1 else 0)
answer_at idx fd fds x i n = elim (ℕ_discrete i idx) [
  | yes same ↦ let here : i - idx ≡ 0 = omega arith in rw here (ground (arith, same))
  | no other ↦ elim (dec_lt idx i) [
    | yes later ↦ let there : i - idx ≡ suc (i - (idx + 1)) = omega arith in rw there (ground arith)
    | no earlier ↦ ground (arith, earlier, other)
  ]
]

-- The answers over the first socket, and those over the others.
heard_on-cons :
    (idx : ℕ) (fd : Fd) (fds : List Fd) (x : Fd) (log : List (ℕ × ErrorCode))
    → All IsGood log
    → heard_on idx (fd ∷ fds) x log
      ≡ (if same_fd fd x then answers_of idx log else 0) + heard_on (idx + 1) fds x log
unfolding heard_on answers_of
heard_on-cons idx fd fds x [] h = ground arith
heard_on-cons idx fd fds x ((i, code) ∷ log) h = rw (h.0) (
    omega
      (arith, answer_at idx fd fds x i (answers_of idx log), heard_on-cons idx fd fds x log h.1))

-- If each fragment has given one good answer, each socket has been heard as often as it stands there.
pub heard_on-All :
    (idx : ℕ) (fds : List Fd) (x : Fd) (log : List (ℕ × ErrorCode))
    → All IsGood log
    → ((i : ℕ) → i < idx + length fds → answers_of i log ≡ 1)
    → heard_on idx fds x log ≡ occurrences x fds
heard_on-All idx [] x log good once = heard_on-nil idx x log
heard_on-All idx (fd ∷ fds) x log good once =
    heard_on-cons idx fd fds x log good
    ∙ ground (
      arith,
      once idx (omega arith),
      heard_on-All (idx + 1) fds x log good (λ i below. once i (omega arith)),
    )
