-- ===== src/Framework/Networking/Framing.antt =====
-- framework/networking.cpp, recv_generic: what has been taken from the socket when the loop ends.
use mathlib.Core.Path.{subst}
use fall23_p.Prelude.{
  if◌then◌else◌, ℕ, ◌≤◌, ◌≡◌, ◌≢◌, refl, sym, ◌∙◌, inl, inr, true, false, List, [], ◌∷◌, arith,
  Bool-cases, ◌&&◌, Option, some, none, leb, Bool,
}
use fall23_p.Framework.ErrorCode.{
  ErrorCode, success, recv_zero_pending, recv_wait_timeout, is_success, fails-not_success,
}
use fall23_p.Framework.Networking.{Config, use_timeout, blocks-exclusive, validate}
use fall23_p.Framework.Networking.Receive.{
  Rx, Outcome, goes_on, returns, recv_step, RecvAnswer, timed_out, recv_generic, recv_loop, start,
}
use fall23_p.Framework.Networking.Framed.{
  waiting, taking_at_once, taking, taking_in_time, Holds, undecoded, decoded, Framed, untouched,
  failed, Good, EndsFramed, untaken,
}
use fall23_p.Framework.Networking.Rounds.{step-Good}

module _ (c : Config) (e : ErrorCode) (min_len max_len : ℕ) (not_ok : e ≢ success)
    (not_pending : e ≢ recv_zero_pending) (has_length : 2 ≤ min_len) (all : List ℕ) where
  unstarted :
      (s : Rx)
      → use_timeout c ≡ true
      → s.recv_started ≡ false
      → Holds c min_len max_len all s
      → Framed min_len max_len all s recv_zero_pending
  unstarted s t fresh (undecoded _ whole _ _ _ _) = untouched whole
  unstarted s t fresh (decoded _ whole _ _ _ (waiting _ _ empty _)) =
      untouched (sym (rw empty refl) ∙ whole)
  unstarted s t fresh (decoded _ whole _ _ _ (taking_at_once _ _ empty _)) =
      untouched (sym (rw empty refl) ∙ whole)
  unstarted s t fresh (decoded _ _ _ _ _ (taking _ blocks)) =
      absurd (ground (arith, blocks-exclusive c blocks))
  unstarted s t fresh (decoded _ _ _ _ _ (taking_in_time _ started _)) = absurd (ground arith)

  timed_out-started : (s : Rx) → s.recv_started ≡ true → timed_out s ≡ recv_wait_timeout
  timed_out-started s h = rw h refl

  timed_out-fresh : (s : Rx) → s.recv_started ≡ false → timed_out s ≡ recv_zero_pending
  timed_out-fresh s h = rw h refl

  timed_out-Framed :
      (s : Rx)
      → use_timeout c ≡ true
      → Holds c min_len max_len all s
      → Framed min_len max_len all s (timed_out s)
  timed_out-Framed s t holds = elim (Bool-cases s.recv_started) [
    | inl started ↦
        subst (Framed min_len max_len all s) (sym (timed_out-started s started))
          (failed (λ p. cc) (λ p. cc) (untaken s holds))
    | inr fresh ↦
        subst (Framed min_len max_len all s) (sym (timed_out-fresh s fresh))
          (unstarted s t fresh holds)
  ]

  -- The loop goes on with an outcome.
  outcome-Framed :
      (next : Rx → Option (ErrorCode × Rx)) (o : Outcome)
      → ((s : Rx) → Holds c min_len max_len all s → EndsFramed min_len max_len all (next s))
      → Good c min_len max_len all o
      → EndsFramed min_len max_len all
          (elim o [ returns code s' ↦ some (code, s') | goes_on s' ↦ next s' ])
  outcome-Framed next (goes_on s) ends holds = ends s holds
  outcome-Framed next (returns code s) ends framed = framed

  loop-Framed :
      (s : Rx) (delta : ℕ) (steps : List (RecvAnswer × ℕ))
      → Holds c min_len max_len all s
      → EndsFramed min_len max_len all (recv_loop c e min_len max_len s delta steps)
  unfolding recv_loop
  loop-Framed s delta [] holds = elim (Bool-cases (use_timeout c && leb c.timeout_ms delta)) [
    | inl late ↦ rw late (timed_out-Framed s (ground arith) holds)
    | inr early ↦ rw early tt
  ]
  loop-Framed s delta ((answer, now) ∷ steps) holds =
      elim (Bool-cases (use_timeout c && leb c.timeout_ms delta)) [
        | inl late ↦ rw late (timed_out-Framed s (ground arith) holds)
        | inr early ↦ rw early (
            outcome-Framed
              (λ s'. recv_loop c e min_len max_len s' (if use_timeout c then now else delta) steps)
              (recv_step c e min_len max_len s answer)
              (λ s' holds'. loop-Framed s' (if use_timeout c then now else delta) steps holds')
              (step-Good c e min_len max_len not_ok not_pending has_length all s answer holds))
      ]

EndsFramed-some :
    (min_len max_len : ℕ) (all : List ℕ) {o : Option (ErrorCode × Rx)} {code : ErrorCode} {s : Rx}
    → o ≡ some (code, s)
    → EndsFramed min_len max_len all o
    → Framed min_len max_len all s code
EndsFramed-some min_len max_len all ends framed = subst (EndsFramed min_len max_len all) ends framed

validate-not_pending :
    (nonblocking : Option Bool) (c : Config) → validate nonblocking c false ≢ recv_zero_pending
unfolding validate
validate-not_pending none c e = cc
validate-not_pending (some nonblocking) c e = ground arith

-- Where recv_generic returns, in any mode, whatever recv answers, it has taken from the socket a
-- whole message or nothing that is lost: on success the buffer holds the first bytes of the peer's
-- stream, as many as its leading two bytes say and within the limits, and the rest still waits; when
-- no message is pending the stream is untouched; after any other error the bytes in the buffer and
-- the ones that wait make up the stream. The connection's error code is neither success nor the
-- pending code, and a message has at least two bytes.
pub recv_generic-Framed :
    (c : Config) (nonblocking : Option Bool) (e : ErrorCode) (min_len max_len : ℕ) (all : List ℕ)
    (steps : List (RecvAnswer × ℕ)) (code : ErrorCode) (s : Rx)
    → e ≢ success
    → e ≢ recv_zero_pending
    → 2 ≤ min_len
    → recv_generic c nonblocking e min_len max_len all steps ≡ some (code, s)
    → Framed min_len max_len all s code
unfolding recv_generic validate
recv_generic-Framed c nonblocking e min_len max_len all steps code s not_ok not_pending has_length
      ends =
    EndsFramed-some min_len max_len all ends
      (elim (Bool-cases (is_success (validate nonblocking c false))) [
        | inl ok ↦ rw ok (
            loop-Framed c e min_len max_len not_ok not_pending has_length all (start all) 0 steps
              (undecoded refl refl refl refl refl refl))
        | inr fails ↦
            rw fails (failed (fails-not_success fails) (validate-not_pending nonblocking c) refl)
      ])
