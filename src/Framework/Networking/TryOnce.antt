-- ===== src/Framework/Networking/TryOnce.antt =====
-- framework/networking.cpp, recv_generic in the try-once mode.
use fall23_p.Prelude.{
  if◌then◌else◌, ◌&&◌, ℕ, ◌≡◌, ◌≤◌, true, false, Bool, List, ◌∷◌, Option, some, not, arith, ◌==◌,
  [], refl, take, Bool-cases, leb, inl, inr,
}
use fall23_p.Framework.ErrorCode.{ErrorCode, is_success}
use fall23_p.Framework.Networking.{Config, try_once, validate, use_timeout}
use fall23_p.Framework.Networking.Receive.{
  RecvAnswer, yields, again, failure, Rx, Outcome, goes_on, returns, recv_generic, recv_loop,
  recv_step, start, recv_bytes, await_message, decode_length, timed_out,
}

-- An outcome that returns, or goes on with a state of which the test holds.
abbrev after : (Rx → Bool) → Outcome → Bool
after test (goes_on s) = test s
after test (returns _ _) = true

-- How far the loop has come: the length is known; the bytes are being taken; nowhere.
abbrev knows_length : Rx → Bool
knows_length s = not (s.msg_length == 0)

abbrev takes_bytes : Rx → Bool
takes_bytes s = s.recv_started && not (s.msg_length == 0)

abbrev never : Rx → Bool
never s = false

-- The loop ends where the outcome returns, or where it ends from the state it goes on with.
after-ends :
    (test : Rx → Bool) (next : Rx → Option (ErrorCode × Rx)) (o : Outcome)
    → after test o ≡ true
    → ((s : Rx) → test s ≡ true → (r : ErrorCode × Rx) × (next s ≡ some r))
    → (r : ErrorCode × Rx) × (elim o [ returns code s' ↦ some (code, s') | goes_on s' ↦ next s' ]
        ≡ some r)
after-ends test next (goes_on s) h ends = ends s h
after-ends test next (returns code s) h ends = ((code, s), refl)

module _ (c : Config) (e : ErrorCode) (min_len max_len : ℕ) (once : try_once c ≡ true)
    (has_length : 1 ≤ min_len) where
  bytes-decoded :
      (s : Rx) (bytes : List ℕ)
      → s.msg_length ≡ 0
      → after knows_length (recv_bytes c e min_len max_len s bytes) ≡ true
  unfolding recv_bytes decode_length
  bytes-decoded s [] h = refl
  bytes-decoded s (b ∷ bytes) h = ground arith

  bytes-started :
      (s : Rx) (bytes : List ℕ)
      → knows_length s ≡ true
      → after takes_bytes (recv_bytes c e min_len max_len s bytes) ≡ true
  unfolding recv_bytes await_message
  bytes-started s [] h = refl
  bytes-started s (b ∷ bytes) h = ground arith

  bytes-returned :
      (s : Rx) (bytes : List ℕ)
      → takes_bytes s ≡ true
      → after never (recv_bytes c e min_len max_len s bytes) ≡ true
  unfolding recv_bytes await_message
  bytes-returned s [] h = refl
  bytes-returned s (b ∷ bytes) h = ground arith

  step-decoded :
      (s : Rx) (answer : RecvAnswer)
      → s.msg_length ≡ 0
      → after knows_length (recv_step c e min_len max_len s answer) ≡ true
  unfolding recv_step
  step-decoded s (yields k) h = bytes-decoded s (take k (take s.expected_size s.stream)) h
  step-decoded s again h = rw once refl
  step-decoded s failure h = refl

  step-started :
      (s : Rx) (answer : RecvAnswer)
      → knows_length s ≡ true
      → after takes_bytes (recv_step c e min_len max_len s answer) ≡ true
  unfolding recv_step
  step-started s (yields k) h = bytes-started s (take k (take s.expected_size s.stream)) h
  step-started s again h = rw once refl
  step-started s failure h = refl

  step-returned :
      (s : Rx) (answer : RecvAnswer)
      → takes_bytes s ≡ true
      → after never (recv_step c e min_len max_len s answer) ≡ true
  unfolding recv_step
  step-returned s (yields k) h = bytes-returned s (take k (take s.expected_size s.stream)) h
  step-returned s again h = rw once refl
  step-returned s failure h = refl

  -- One round of the loop, where the rest of it ends.
  loop-ends :
      (test : Rx → Bool) (s : Rx) (delta : ℕ) (answer : RecvAnswer) (now : ℕ)
      (steps : List (RecvAnswer × ℕ))
      → after test (recv_step c e min_len max_len s answer) ≡ true
      → ((s' : Rx) (delta' : ℕ)
          → test s' ≡ true
          → (r : ErrorCode × Rx) × (recv_loop c e min_len max_len s' delta' steps ≡ some r))
      → (r : ErrorCode × Rx) × (recv_loop c e min_len max_len s delta ((answer, now) ∷ steps)
          ≡ some r)
  unfolding recv_loop
  loop-ends test s delta answer now steps h ends =
      elim (Bool-cases (use_timeout c && leb c.timeout_ms delta)) [
        | inl late ↦ rw late ((timed_out s, s), refl)
        | inr early ↦ rw early (
            after-ends test
              (λ s'. recv_loop c e min_len max_len s' (if use_timeout c then now else delta) steps)
              (recv_step c e min_len max_len s answer) h
              (λ s' t. ends s' (if use_timeout c then now else delta) t))
      ]

-- In the try-once mode recv_generic returns within three calls of recv, whatever they answer: it
-- never waits for the peer. A message has at least one byte.
pub recv_generic-ends :
    (c : Config) (nonblocking : Option Bool) (e : ErrorCode) (min_len max_len : ℕ) (all : List ℕ)
    (x y z : RecvAnswer × ℕ) (steps : List (RecvAnswer × ℕ))
    → try_once c ≡ true
    → 1 ≤ min_len
    → (r : ErrorCode × Rx) × (recv_generic c nonblocking e min_len max_len all (x ∷ y ∷ z ∷ steps)
        ≡ some r)
unfolding recv_generic
recv_generic-ends c nonblocking e min_len max_len all (x, t) (y, u) (z, v) steps once has_length =
    elim (Bool-cases (is_success (validate nonblocking c false))) [
      | inl ok ↦ rw ok (
          loop-ends c e min_len max_len once has_length knows_length (start all) 0 x t
            ((y, u) ∷ (z, v) ∷ steps)
            (step-decoded c e min_len max_len once has_length (start all) x refl)
            (λ s delta known.
              loop-ends c e min_len max_len once has_length takes_bytes s delta y u ((z, v) ∷ steps)
                (step-started c e min_len max_len once has_length s y known)
                (λ s' delta' taking.
                  loop-ends c e min_len max_len once has_length never s' delta' z v steps
                    (step-returned c e min_len max_len once has_length s' z taking)
                    (λ s'' delta'' f. absurd (ground (arith, f))))))
      | inr fails ↦ rw fails ((validate nonblocking c false, start all), refl)
    ]
