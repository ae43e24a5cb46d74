-- ===== src/Framework/Networking/Branches.antt =====
-- framework/networking.cpp, recv_generic: the three branches of a round.
use mathlib.Core.List.{append_assoc}
use fall23_p.Prelude.{
  ℕ, ◌+◌, ◌-◌, ◌≤◌, ◌≡◌, ◌≢◌, refl, sym, ◌∙◌, ◌⊎◌, inl, inr, true, false, List, [], ◌∷◌, ◌++◌,
  arith, length, drop, length-append, Bool-cases, ◌==◌, ltb, ◌||◌,
}
use fall23_p.Framework.ErrorCode.{ErrorCode, success, recv_zero_pending}
use fall23_p.Framework.Networking.{
  Config, polls-cases, use_timeout, block, try_once, leading_length,
}
use fall23_p.Framework.Networking.Receive.{Rx, decode_length, await_message, consume, left}
use fall23_p.Framework.Networking.Framed.{
  waiting, taking_at_once, taking, taking_in_time, undecoded, decoded, message, untouched, failed,
  Good,
}

drop-append : (bytes rest : List ℕ) → drop (length bytes) (bytes ++ rest) ≡ rest
drop-append [] rest = refl
drop-append (x ∷ bytes) rest = drop-append bytes rest

leading_length-append :
    (bytes rest : List ℕ) → length bytes ≡ 2 → leading_length (bytes ++ rest) ≡ leading_length bytes
leading_length-append [] rest h = absurd (omega arith)
leading_length-append (a ∷ []) rest h = absurd (omega arith)
leading_length-append (a ∷ b ∷ bytes) rest h = refl

module _ (c : Config) (e : ErrorCode) (min_len max_len : ℕ) (not_ok : e ≢ success)
    (not_pending : e ≢ recv_zero_pending) (has_length : 2 ≤ min_len) (all : List ℕ) where
  pub decode_length-Good :
      (s : Rx) (bytes rest : List ℕ)
      → s.msg_length ≡ 0
      → s.stream ≡ all
      → s.buffer ≡ []
      → s.peek ≡ true
      → s.expected_size ≡ 2
      → s.recv_started ≡ false
      → all ≡ bytes ++ rest
      → Good c min_len max_len all (decode_length c min_len max_len s bytes)
  unfolding decode_length
  decode_length-Good s bytes rest undec whole empty peeks two fresh split =
      elim (Bool-cases (length bytes == s.expected_size)) [
        | inl full ↦
            let same : leading_length bytes ≡ leading_length all =
              rw split (sym (leading_length-append bytes rest (ground arith))) in
            elim (Bool-cases
              (ltb (leading_length bytes) min_len || ltb max_len (leading_length bytes))) [
                | inl bad ↦ rw (full, bad) (failed (λ p. cc) (λ p. cc) (rw (empty, whole)))
                | inr good ↦
                    rw (full, good)
                      (decoded same (rw (empty, whole)) (ground (arith, good))
                        (ground (arith, good)) (rw empty (omega arith))
                        (elim (Bool-cases (block c)) [
                          | inl blocks ↦ taking (ground arith) blocks
                          | inr polls ↦ waiting (ground arith) fresh empty polls
                        ]))
              ]
        | inr short ↦ elim (Bool-cases (try_once c)) [
          | inl once ↦ rw (short, once) (untouched whole)
          | inr other ↦ rw (short, other) (undecoded undec whole empty peeks two fresh)
        ]
      ]

  module _ (s : Rx) (bytes rest : List ℕ) (len : s.msg_length ≡ leading_length all)
      (whole : s.buffer ++ s.stream ≡ all) (low : min_len ≤ s.msg_length)
      (high : s.msg_length ≤ max_len) (size : s.expected_size + length s.buffer ≡ s.msg_length)
      (split : s.stream ≡ bytes ++ rest) (fits : length bytes ≤ s.expected_size) where
    left-rest : s.peek ≡ false → left s bytes ≡ rest
    left-rest p = rw p (rw split (drop-append bytes rest))

    still_whole : (s.buffer ++ bytes) ++ rest ≡ all
    still_whole = append_assoc s.buffer bytes rest ∙ (rw (← split) whole)

    now_whole : (s.buffer ++ bytes) ++ drop (length bytes) s.stream ≡ all
    now_whole = rw split (rw (drop-append bytes rest) still_whole)

    pub await_message-waiting :
        s.peek ≡ true
        → s.recv_started ≡ false
        → s.buffer ≡ []
        → block c ≡ false
        → Good c min_len max_len all (await_message c e s bytes)
    unfolding await_message
    await_message-waiting peeks fresh empty polls =
        elim (Bool-cases (length bytes == s.expected_size)) [
          | inl full ↦
              rw (full, fresh, peeks)
                (decoded len whole low high size (elim (polls-cases c polls) [
                  | inl t ↦ taking_in_time refl refl t
                  | inr once ↦ taking_at_once refl refl empty once
                ]))
          | inr short ↦ elim (Bool-cases (try_once c)) [
            | inl once ↦ rw (short, once, fresh, peeks) (untouched (sym (rw empty refl) ∙ whole))
            | inr other ↦
                rw (short, other, peeks)
                  (decoded len whole low high size (waiting refl fresh empty polls))
          ]
        ]

    pub await_message-taking :
        s.peek ≡ false
        → s.recv_started ≡ true
        → s.buffer ≡ []
        → try_once c ≡ true
        → Good c min_len max_len all (await_message c e s bytes)
    unfolding await_message
    await_message-taking peeks started empty once =
        elim (Bool-cases (length bytes == s.expected_size)) [
          | inl full ↦
              let is_full : length bytes ≡ s.expected_size = ground arith in
              rw (full, started, peeks)
                (message now_whole (omega (arith, length-append s.buffer bytes))
                  (omega (arith, length-append s.buffer bytes))
                  (omega (arith, length-append s.buffer bytes)))
          | inr short ↦ rw (short, once, started, peeks) (failed not_ok not_pending now_whole)
        ]

    pub consume-Good :
        s.peek ≡ false
        → (block c ≡ true) ⊎ (use_timeout c ≡ true)
        → Good c min_len max_len all (consume s bytes)
    unfolding consume
    consume-Good peeks mode = elim (Bool-cases (s.expected_size - length bytes == 0)) [
      | inl last ↦ rw last (
          message (rw (left-rest peeks) still_whole)
            (ground (arith, length-append s.buffer bytes, last))
            (ground (arith, length-append s.buffer bytes, last))
            (ground (arith, length-append s.buffer bytes, last)))
      | inr more ↦ rw more (
          decoded len (rw (left-rest peeks) still_whole) low high
            (ground (arith, length-append s.buffer bytes, more))
            (elim mode [ inl blocks ↦ taking peeks blocks | inr t ↦ taking_in_time peeks refl t ]))
    ]
