-- ===== src/Prelude/Memory.antt =====
-- Reads and writes of an array that fault out of bounds, and the chain of steps that may fault.
use Prim.Native.Nat.{ℕ, zero, suc, ◌<◌}
use mathlib.Core.Path.{◌≡◌, refl, subst}
use mathlib.Core.List.{List, [], ◌∷◌}
use mathlib.Core.Option.{Option, none, some, some-injective}
use native.Mathlib.Omega.{arith}
use fall23_p.Prelude.Lists.{All, length, get_elem?, set}
use fall23_p.Prelude.Tests.{ltb, if◌then◌else◌}

infixl 5 ◌>>=◌ ◌>>◌
abbrev pub ◌>>=◌ {ℓ κ} : {A : Type ℓ} {B : Type κ} → Option A → (A → Option B) → Option B
none >>= f = none
some a >>= f = f a

abbrev pub ◌>>◌ {ℓ κ} : {A : Type ℓ} {B : Type κ} → Option A → Option B → Option B
m >> k = m >>= λ _. k

module _ {ℓ} {A : Type ℓ} where
  abbrev pub load : List A → ℕ → Option A
  load = get_elem?

  abbrev pub store : List A → ℕ → A → Option (List A)
  store xs i v = if ltb i (length xs) then some (set xs i v) else none

  -- A read in bounds gives a value.
  pub load-in_bounds : (xs : List A) (i : ℕ) → i < length xs → (a : A) × (load xs i ≡ some a)
  load-in_bounds [] i h = elim h [ ]
  load-in_bounds (x ∷ xs) zero h = (x, refl)
  load-in_bounds (x ∷ xs) (suc i) h = load-in_bounds xs i (omega arith)

  -- A value is only read in bounds.
  pub in_bounds-load : (xs : List A) (i : ℕ) {a : A} → load xs i ≡ some a → i < length xs
  in_bounds-load [] i h = cc
  in_bounds-load (x ∷ xs) zero h = omega arith
  in_bounds-load (x ∷ xs) (suc i) h = omega (arith, in_bounds-load xs i h)

pub All-load {ℓ κ} :
    {A : Type ℓ} (P : A → Type κ) (xs : List A) (i : ℕ) (a : A)
    → All P xs
    → load xs i ≡ some a
    → P a
All-load P [] i a h e = absurd (cc)
All-load P (x ∷ xs) zero a h e = subst P (some-injective _ _ e) h.0
All-load P (x ∷ xs) (suc i) a h e = All-load P xs i a h.1 e
