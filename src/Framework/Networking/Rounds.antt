-- ===== src/Framework/Networking/Rounds.antt =====
-- framework/networking.cpp, recv_generic: one round of the loop.
use fall23_p.Prelude.{
  ℕ, zero, suc, ◌≤◌, ◌≡◌, ◌≢◌, refl, sym, ap, ◌∙◌, ◌⊎◌, inl, inr, true, false, List, [], ◌∷◌, ◌++◌,
  arith, length, take, Bool-cases, not, ◌&&◌,
}
use fall23_p.Framework.ErrorCode.{ErrorCode, success, recv_zero_pending}
use fall23_p.Framework.Networking.{
  Config, polls-cases, use_timeout, try_once, blocks-exclusive, timeout-exclusive,
}
use fall23_p.Framework.Networking.Receive.{
  Rx, decode_length, await_message, consume, left, recv_bytes, recv_step, RecvAnswer, yields, again,
  failure,
}
use fall23_p.Framework.Networking.Framed.{
  waiting, taking_at_once, taking, taking_in_time, Holds, undecoded, decoded, Framed, untouched,
  failed, Good, untaken,
}
use fall23_p.Framework.Networking.Branches.{
  decode_length-Good, await_message-waiting, await_message-taking, consume-Good,
}

-- The part of `stream` that recv yields, and what is behind it.
take_prefix :
    (k e : ℕ) (stream : List ℕ)
    → (rest : List ℕ) × (stream ≡ take k (take e stream) ++ rest)
      × (length (take k (take e stream)) ≤ e)
take_prefix zero e stream = (stream, refl, omega arith)
take_prefix (suc k) zero stream = (stream, refl, omega arith)
take_prefix (suc k) (suc e) [] = ([], refl, omega arith)
take_prefix (suc k) (suc e) (x ∷ stream) =
    let (rest, split, bound) = take_prefix k e stream in (rest, ap (◌∷◌ x) split, omega arith)

module _ (c : Config) (e : ErrorCode) (min_len max_len : ℕ) (not_ok : e ≢ success)
    (not_pending : e ≢ recv_zero_pending) (has_length : 2 ≤ min_len) (all : List ℕ) where
  some_bytes-undecoded :
      (s : Rx) (b : ℕ) (bytes : List ℕ)
      → s.msg_length ≡ 0
      → recv_bytes c e min_len max_len s (b ∷ bytes)
        ≡ decode_length c min_len max_len (record s { stream = left s (b ∷ bytes) }) (b ∷ bytes)
  unfolding recv_bytes
  some_bytes-undecoded s b bytes undec = rw undec refl

  some_bytes-polled :
      (s : Rx) (b : ℕ) (bytes : List ℕ)
      → 2 ≤ s.msg_length
      → (try_once c ≡ true) ⊎ ((use_timeout c ≡ true) × (s.recv_started ≡ false))
      → recv_bytes c e min_len max_len s (b ∷ bytes) ≡ await_message c e s (b ∷ bytes)
  unfolding recv_bytes
  some_bytes-polled s b bytes known polls = ground arith

  some_bytes-consumed :
      (s : Rx) (b : ℕ) (bytes : List ℕ)
      → 2 ≤ s.msg_length
      → try_once c ≡ false
      → (use_timeout c && not s.recv_started) ≡ false
      → recv_bytes c e min_len max_len s (b ∷ bytes) ≡ consume s (b ∷ bytes)
  unfolding recv_bytes
  some_bytes-consumed s b bytes known other started = ground arith

  some_bytes-Good :
      (s : Rx) (b : ℕ) (bytes rest : List ℕ)
      → Holds c min_len max_len all s
      → s.stream ≡ (b ∷ bytes) ++ rest
      → length (b ∷ bytes) ≤ s.expected_size
      → Good c min_len max_len all (recv_bytes c e min_len max_len s (b ∷ bytes))
  some_bytes-Good s b bytes rest (undecoded undec whole empty peeks two fresh) split fits =
      rw (some_bytes-undecoded s b bytes undec) (
        decode_length-Good c e min_len max_len not_ok not_pending has_length all
          (record s { stream = left s (b ∷ bytes) }) (b ∷ bytes) rest undec (rw peeks whole) empty
          peeks two fresh (sym whole ∙ split))
  some_bytes-Good s b bytes rest (decoded len whole low high size (waiting peeks fresh empty polls))
        split fits =
      rw
        (some_bytes-polled s b bytes (omega arith)
          (elim (polls-cases c polls) [ inl t ↦ inr (t, fresh) | inr once ↦ inl once ]))
        (await_message-waiting c e min_len max_len not_ok not_pending has_length all s (b ∷ bytes)
          rest len whole low high size split fits peeks fresh empty polls)
  some_bytes-Good s b bytes rest
        (decoded len whole low high size (taking_at_once peeks started empty once)) split fits =
      rw (some_bytes-polled s b bytes (omega arith) (inl once)) (
        await_message-taking c e min_len max_len not_ok not_pending has_length all s (b ∷ bytes)
          rest len whole low high size split fits peeks started empty once)
  some_bytes-Good s b bytes rest (decoded len whole low high size (taking peeks blocks)) split
        fits =
      let (untimed, other) = blocks-exclusive c blocks in
      rw (some_bytes-consumed s b bytes (omega arith) other (ground arith)) (
        consume-Good c e min_len max_len not_ok not_pending has_length all s (b ∷ bytes) rest len
          whole low high size split fits peeks (inl blocks))
  some_bytes-Good s b bytes rest (decoded len whole low high size (taking_in_time peeks started t))
        split fits =
      rw (some_bytes-consumed s b bytes (omega arith) (timeout-exclusive c t) (ground arith)) (
        consume-Good c e min_len max_len not_ok not_pending has_length all s (b ∷ bytes) rest len
          whole low high size split fits peeks (inr t))

  bytes-Good :
      (s : Rx) (bytes rest : List ℕ)
      → Holds c min_len max_len all s
      → s.stream ≡ bytes ++ rest
      → length bytes ≤ s.expected_size
      → Good c min_len max_len all (recv_bytes c e min_len max_len s bytes)
  unfolding recv_bytes
  bytes-Good s [] rest holds split fits = failed not_ok not_pending (untaken s holds)
  bytes-Good s (b ∷ bytes) rest holds split fits = some_bytes-Good s b bytes rest holds split fits

  pub pending-Good :
      (s : Rx)
      → try_once c ≡ true
      → Holds c min_len max_len all s
      → Framed min_len max_len all s recv_zero_pending
  pending-Good s once (undecoded undec whole empty peeks two fresh) = untouched whole
  pending-Good s once (decoded len whole low high size (waiting peeks fresh empty polls)) =
      untouched (sym (rw empty refl) ∙ whole)
  pending-Good s once (decoded len whole low high size (taking_at_once peeks started empty _)) =
      untouched (sym (rw empty refl) ∙ whole)
  pending-Good s once (decoded len whole low high size (taking peeks blocks)) =
      absurd (ground (arith, blocks-exclusive c blocks))
  pending-Good s once (decoded len whole low high size (taking_in_time peeks started t)) =
      absurd (ground (arith, timeout-exclusive c t))

  pub step-Good :
      (s : Rx) (answer : RecvAnswer)
      → Holds c min_len max_len all s
      → Good c min_len max_len all (recv_step c e min_len max_len s answer)
  unfolding recv_step
  step-Good s (yields k) holds =
      let (rest, split, fits) = take_prefix k s.expected_size s.stream in
      bytes-Good s (take k (take s.expected_size s.stream)) rest holds split fits
  step-Good s again holds = elim (Bool-cases (try_once c)) [
    | inl once ↦ rw once (pending-Good s once holds)
    | inr other ↦ rw other holds
  ]
  step-Good s failure holds = failed not_ok not_pending (untaken s holds)
