-- ===== src/Framework/Networking.antt =====
-- framework/networking.h and framework/networking.cpp: how messages are framed on a TCP socket.
pub mod Send
pub mod Sending
pub mod Receive
pub mod Framed
pub mod Branches
pub mod Rounds
pub mod Framing
pub mod TryOnce
pub mod Addresses
pub mod Server
pub mod Connect
use fall23_p.Prelude.{
  ℕ, ◌+◌, ◌*◌, Bool, true, false, not, ◌&&◌, Option, none, some, if◌then◌else◌, ◌≡◌, ◌⊎◌, inl, inr,
  refl, List, [], ◌∷◌, arith,
}
use fall23_p.Framework.ErrorCode.{ErrorCode, success, socket_options_failed, socket_bad_operation}

-- enum class mode
pub data Mode : Type 0 where
  rx_tx_blocking rx_tx_timeout rx_try_once : Mode

-- class config
pub record Config : Type 0 where
  pub mode : Mode
  pub timeout_ms : ℕ

abbrev is_blocking : Mode → Bool
is_blocking rx_tx_blocking = true
is_blocking _ = false

abbrev is_timeout : Mode → Bool
is_timeout rx_tx_timeout = true
is_timeout _ = false

abbrev is_try_once : Mode → Bool
is_try_once rx_try_once = true
is_try_once _ = false

abbrev pub block : Config → Bool
block c = is_blocking c.mode

abbrev pub use_timeout : Config → Bool
use_timeout c = is_timeout c.mode

abbrev pub try_once : Config → Bool
try_once c = is_try_once c.mode

polls-cases_of : (m : Mode) → is_blocking m ≡ false → (is_timeout m ≡ true) ⊎ (is_try_once m ≡ true)
polls-cases_of rx_tx_blocking h = absurd (ground arith)
polls-cases_of rx_tx_timeout h = inl refl
polls-cases_of rx_try_once h = inr refl

pub polls-cases : (c : Config) → block c ≡ false → (use_timeout c ≡ true) ⊎ (try_once c ≡ true)
polls-cases c = polls-cases_of c.mode

blocks-exclusive_of :
    (m : Mode) → is_blocking m ≡ true → (is_timeout m ≡ false) × (is_try_once m ≡ false)
blocks-exclusive_of rx_tx_blocking h = (refl, refl)
blocks-exclusive_of rx_tx_timeout h = absurd (ground arith)
blocks-exclusive_of rx_try_once h = absurd (ground arith)

pub blocks-exclusive :
    (c : Config) → block c ≡ true → (use_timeout c ≡ false) × (try_once c ≡ false)
blocks-exclusive c = blocks-exclusive_of c.mode

timeout-exclusive_of : (m : Mode) → is_timeout m ≡ true → is_try_once m ≡ false
timeout-exclusive_of rx_tx_blocking h = absurd (ground arith)
timeout-exclusive_of rx_tx_timeout h = refl
timeout-exclusive_of rx_try_once h = absurd (ground arith)

pub timeout-exclusive : (c : Config) → use_timeout c ≡ true → try_once c ≡ false
timeout-exclusive c = timeout-exclusive_of c.mode

-- `nonblocking` is what fcntl says of the socket, `none` where the call fails.
unfoldable pub validate : Option Bool → Config → Bool → ErrorCode
validate none c is_tx = socket_options_failed
validate (some nonblocking) c is_tx =
    if not nonblocking && not (block c)
    then socket_bad_operation
    else if is_tx && try_once c
    then socket_bad_operation
    else success

-- The length field: the first two bytes, little-endian. A shorter buffer has no length.
abbrev pub leading_length : List ℕ → ℕ
leading_length [] = 0
leading_length (a ∷ []) = 0
leading_length (a ∷ b ∷ bytes) = a + 256 * b
