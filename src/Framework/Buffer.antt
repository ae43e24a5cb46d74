-- ===== src/Framework/Buffer.antt =====
-- The byte buffer under a message: little-endian numbers read and written at an offset.
use fall23_p.Prelude.{
  refl, ℕ, ◌+◌, ◌*◌, ◌/◌, ◌%◌, ◌^◌, ◌<◌, ◌≤◌, ◌≡◌, ◌⊎◌, ◌==◌, if◌then◌else◌, arith,
}

-- The byte at each offset.
abbrev pub Buffer : Type 0
Buffer = ℕ → ℕ

unfoldable pub read16 : Buffer → ℕ → ℕ
read16 b o = b o + 256 * b (o + 1)

unfoldable pub read32 : Buffer → ℕ → ℕ
read32 b o = b o + 256 * b (o + 1) + 65536 * b (o + 2) + 16777216 * b (o + 3)

unfoldable pub write16 : Buffer → ℕ → ℕ → Buffer
write16 b o v i = if i == o then v % 256 else if i == o + 1 then v / 256 % 256 else b i

unfoldable pub write32 : Buffer → ℕ → ℕ → Buffer
write32 b o v i =
    if i == o
    then v % 256
    else if i == o + 1
    then v / 256 % 256
    else if i == o + 2
    then v / 65536 % 256
    else if i == o + 3
    then v / 16777216 % 256
    else b i

pub read16-write16 : (b : Buffer) (o v : ℕ) → v < 2 ^ 16 → read16 (write16 b o v) o ≡ v
unfolding read16 write16
read16-write16 b o v h = ground arith

pub read32-write32 : (b : Buffer) (o v : ℕ) → v < 2 ^ 32 → read32 (write32 b o v) o ≡ v
unfolding read32 write32
read32-write32 b o v h = ground arith

-- A write leaves the numbers alone that it does not overlap.
pub read16-write16_apart :
    (b : Buffer) (o p v : ℕ) → (p + 2 ≤ o) ⊎ (o + 2 ≤ p) → read16 (write16 b o v) p ≡ read16 b p
unfolding read16 write16
read16-write16_apart b o p v h = ground arith

pub read16-write32_apart :
    (b : Buffer) (o p v : ℕ) → (p + 2 ≤ o) ⊎ (o + 4 ≤ p) → read16 (write32 b o v) p ≡ read16 b p
unfolding read16 write32
read16-write32_apart b o p v h = ground arith

-- A number depends on its bytes.
pub read16-agree :
    (c m : Buffer) (o : ℕ) → m o ≡ c o → m (o + 1) ≡ c (o + 1) → read16 m o ≡ read16 c o
unfolding read16
read16-agree c m o e f = rw (e, f) refl

pub read32-agree :
    (c m : Buffer) (o : ℕ)
    → m o ≡ c o
    → m (o + 1) ≡ c (o + 1)
    → m (o + 2) ≡ c (o + 2)
    → m (o + 3) ≡ c (o + 3)
    → read32 m o ≡ read32 c o
unfolding read32
read32-agree c m o e f g h = rw (e, f, g, h) refl
