-- ===== src/Framework/Arrays.antt =====
-- framework/message.h: the arrays at the end of a payload, of 16-bit numbers and of network addresses.
use fall23_p.Prelude.{
  ◌%◌, ◌==◌, if◌then◌else◌, ◌+◌, ◌*◌, ◌^◌, ◌≤◌, ◌<◌, ◌≡◌, ◌∙◌, ◌∷◌, zero, suc, refl, arith, length,
  All, List, [], ℕ,
}
use fall23_p.Framework.Buffer.{
  read16-write16_apart, read16-write32_apart, read32-write32, Buffer, read16, write16, write32,
  read32, read16-write16,
}
use fall23_p.Framework.Networking.Addresses.{Netaddr, netaddr_at}

unfoldable pub read16s : Buffer → ℕ → ℕ → List ℕ
read16s b o zero = []
read16s b o (suc n) = read16 b o ∷ read16s b (o + 2) n

unfoldable pub write16s : Buffer → ℕ → List ℕ → Buffer
write16s b o [] = b
write16s b o (x ∷ xs) = write16s (write16 b o x) (o + 2) xs

unfoldable pub write_netaddr : Buffer → ℕ → Netaddr → Buffer
write_netaddr b o a =
    write32 (write16 (write16 b o a.sin_family) (o + 2) a.sin_port) (o + 4) a.s_addr

unfoldable pub read_netaddrs : Buffer → ℕ → ℕ → List Netaddr
read_netaddrs b o zero = []
read_netaddrs b o (suc n) = netaddr_at b o ∷ read_netaddrs b (o + 16) n

unfoldable pub write_netaddrs : Buffer → ℕ → List Netaddr → Buffer
write_netaddrs b o [] = b
write_netaddrs b o (a ∷ as') = write_netaddrs (write_netaddr b o a) (o + 16) as'

-- The fields of an address fit their types.
pub record IsNetaddr (a : Netaddr) : Type 0 where
  pub family : a.sin_family < 2 ^ 16
  pub port : a.sin_port < 2 ^ 16
  pub address : a.s_addr < 2 ^ 32

-- A write leaves the bytes before it alone.
pub write16s-before : (b : Buffer) (o : ℕ) (xs : List ℕ) (i : ℕ) → i < o → write16s b o xs i ≡ b i
unfolding write16s write16
write16s-before b o [] i h = refl
write16s-before b o (x ∷ xs) i h =
    write16s-before (write16 b o x) (o + 2) xs i (omega arith) ∙ ground arith

pub write_netaddrs-before :
    (b : Buffer) (o : ℕ) (as' : List Netaddr) (i : ℕ) → i < o → write_netaddrs b o as' i ≡ b i
unfolding write_netaddrs write_netaddr write32 write16
write_netaddrs-before b o [] i h = refl
write_netaddrs-before b o (a ∷ as') i h =
    write_netaddrs-before (write_netaddr b o a) (o + 16) as' i (omega arith) ∙ ground arith

pub read16s-write16s :
    (b : Buffer) (o : ℕ) (xs : List ℕ)
    → All (λ x. x < 2 ^ 16) xs
    → read16s (write16s b o xs) o (length xs) ≡ xs
unfolding read16s write16s read16
read16s-write16s b o [] h = refl
read16s-write16s b o (x ∷ xs) h =
    let first : read16 (write16s (write16 b o x) (o + 2) xs) o ≡ x = ground (
      arith,
      write16s-before (write16 b o x) (o + 2) xs o,
      write16s-before (write16 b o x) (o + 2) xs (o + 1),
      read16-write16 b o x h.0,
    ) in
    rw (first, read16s-write16s (write16 b o x) (o + 2) xs h.1) refl

netaddr_at-write_netaddr :
    (b : Buffer) (o : ℕ) (a : Netaddr) → IsNetaddr a → netaddr_at (write_netaddr b o a) o ≡ a
unfolding netaddr_at write_netaddr
netaddr_at-write_netaddr b o a h =
    let with_family = write16 b o a.sin_family in
    let with_port = write16 with_family (o + 2) a.sin_port in
    rw
      (
        read16-write32_apart with_port (o + 4) o a.s_addr (omega arith)
            ∙ (read16-write16_apart with_family (o + 2) o a.sin_port (omega arith)
                ∙ read16-write16 b o a.sin_family h.family),
        read16-write32_apart with_port (o + 4) (o + 2) a.s_addr (omega arith)
            ∙ read16-write16 with_family (o + 2) a.sin_port h.port,
        read32-write32 with_port (o + 4) a.s_addr h.address,
      )
      refl

-- An address depends on its eight bytes.
netaddr_at-agree :
    (b c : Buffer) (o : ℕ) → ((i : ℕ) → i < o + 16 → b i ≡ c i) → netaddr_at b o ≡ netaddr_at c o
unfolding netaddr_at read16 read32
netaddr_at-agree b c o h =
    ground (arith, h o, h (o + 1), h (o + 2), h (o + 3), h (o + 4), h (o + 5), h (o + 6), h (o + 7))

pub read_netaddrs-write_netaddrs :
    (b : Buffer) (o : ℕ) (as' : List Netaddr)
    → All IsNetaddr as'
    → read_netaddrs (write_netaddrs b o as') o (length as') ≡ as'
unfolding read_netaddrs write_netaddrs
read_netaddrs-write_netaddrs b o [] h = refl
read_netaddrs-write_netaddrs b o (a ∷ as') h =
    rw
      (
        netaddr_at-agree (write_netaddrs (write_netaddr b o a) (o + 16) as') (write_netaddr b o a) o
              (λ i below. write_netaddrs-before (write_netaddr b o a) (o + 16) as' i below)
            ∙ netaddr_at-write_netaddr b o a h.0,
        read_netaddrs-write_netaddrs (write_netaddr b o a) (o + 16) as' h.1,
      )
      refl

-- The arrays depend on their own bytes alone.
pub read16s-agree :
    (b c : Buffer) (o n : ℕ)
    → ((i : ℕ) → o ≤ i → i < o + n * 2 → b i ≡ c i)
    → read16s b o n ≡ read16s c o n
unfolding read16s read16
read16s-agree b c o zero h = refl
read16s-agree b c o (suc n) h =
    let rest = read16s-agree b c (o + 2) n (λ i low high. h i (omega arith) (omega arith)) in
    ground (arith, h o, h (o + 1), rest)

pub read_netaddrs-agree :
    (b c : Buffer) (o n : ℕ)
    → ((i : ℕ) → o ≤ i → i < o + n * 16 → b i ≡ c i)
    → read_netaddrs b o n ≡ read_netaddrs c o n
unfolding read_netaddrs netaddr_at read16 read32
read_netaddrs-agree b c o zero h = refl
read_netaddrs-agree b c o (suc n) h =
    let rest = read_netaddrs-agree b c (o + 16) n (λ i low high. h i (omega arith) (omega arith)) in
    ground (
      arith,
      h o,
      h (o + 1),
      h (o + 2),
      h (o + 3),
      h (o + 4),
      h (o + 5),
      h (o + 6),
      h (o + 7),
      rest,
    )

unfoldable pub write8 : Buffer → ℕ → ℕ → Buffer
write8 b o v i = if i == o then v % 256 else b i

-- The count at the start of a payload, and the addresses after its padding.
unfoldable pub netaddrs_payload : List Netaddr → Buffer → Buffer
netaddrs_payload as' b = write_netaddrs (write16 b 8 (length as')) 16 as'
