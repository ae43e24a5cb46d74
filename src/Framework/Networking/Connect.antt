-- ===== src/Framework/Networking/Connect.antt =====
-- framework/networking.cpp, connect_with_timeout. What the system calls give is an argument.
use fall23_p.Prelude.{
  ℕ, ◌&&◌, not, leb, Bool, true, false, List, [], ◌∷◌, Option, none, some, if◌then◌else◌, ◌>>=◌,
  ◌≡◌, ◌↔◌, ◌⊎◌, inl, inr, arith, ◌<◌, ◌≢◌, ◌≤◌, Bool-cases, refl,
}

-- What connect gives: 0, EAGAIN, EWOULDBLOCK or EINPROGRESS, or another error.
pub data Connect : Type 0 where
  connected in_progress connect_error : Connect

-- What poll and getsockopt give: the time is over; EINTR; another error; or the socket is ready, with
-- no error reported (also when getsockopt fails), with EINTR, or with another error.
pub data Ready : Type 0 where
  timed_out interrupted poll_error ready ready_interrupted ready_error : Ready

-- One turn of the loop: the time since the start, and what poll gives.
pub record Wait : Type 0 where
  pub elapsed_ms : ℕ
  pub poll : Ready

-- The calls of fcntl before and after, and connect.
pub record ConnectCalls : Type 0 where
  pub gets_flags : Bool
  pub sets_flags : Bool
  pub connect : Connect
  pub restores : Bool

-- The value returned: -1, 0, or the positive value of poll.
pub data ReturnCode : Type 0 where
  minus_one zero_code one : ReturnCode

abbrev is_retry : Ready → Bool
is_retry interrupted = true
is_retry ready_interrupted = true
is_retry _ = false

abbrev poll_code : Ready → ReturnCode
poll_code ready = one
poll_code _ = minus_one

-- The loop over the turns; `none` is a loop that outlives them.
pub wait_turns : ℕ → List Wait → Option ReturnCode
wait_turns timeout_ms [] = none
wait_turns timeout_ms (w ∷ waits) =
    let rest = wait_turns timeout_ms waits in
    if leb timeout_ms w.elapsed_ms
    then some minus_one
    else if is_retry w.poll
    then rest
    else some (poll_code w.poll)

abbrev after_connect : Connect → ℕ → List Wait → Option ReturnCode
after_connect connected timeout_ms waits = some zero_code
after_connect in_progress timeout_ms waits = wait_turns timeout_ms waits
after_connect connect_error timeout_ms waits = some minus_one

unfoldable pub connect_with_timeout : ConnectCalls → ℕ → List Wait → Option ReturnCode
connect_with_timeout calls timeout_ms waits =
    if not (calls.gets_flags && calls.sets_flags)
    then some minus_one
    else (after_connect calls.connect timeout_ms waits >>= λ rc.
        some (if calls.restores then rc else minus_one))

-- The socket gets ready without an error before the time is over, after interruptions alone.
pub GetsReady : ℕ → List Wait → Type 0
GetsReady timeout_ms [] = ⊥
GetsReady timeout_ms (w ∷ waits) =
    (w.elapsed_ms < timeout_ms)
    × ((w.poll ≡ ready) ⊎ ((is_retry w.poll ≡ true) × GetsReady timeout_ms waits))

-- The time is over in one of the turns.
abbrev pub Expires : ℕ → List Wait → Type 0
Expires timeout_ms [] = ⊥
Expires timeout_ms (w ∷ waits) = (timeout_ms ≤ w.elapsed_ms) ⊎ Expires timeout_ms waits

poll_code-one : (p : Ready) → (poll_code p ≡ one) ↔ (p ≡ ready)
poll_code-one timed_out = ((λ e. cc), (λ e. cc))
poll_code-one interrupted = ((λ e. cc), (λ e. cc))
poll_code-one poll_error = ((λ e. cc), (λ e. cc))
poll_code-one ready = ((λ e. refl), (λ e. refl))
poll_code-one ready_interrupted = ((λ e. cc), (λ e. cc))
poll_code-one ready_error = ((λ e. cc), (λ e. cc))

poll_code-nonzero : (p : Ready) → poll_code p ≢ zero_code
poll_code-nonzero ready e = cc
poll_code-nonzero _ e = cc

retry-not_ready : (p : Ready) → is_retry p ≡ true → p ≢ ready
retry-not_ready ready h e = absurd (ground (arith, h))
retry-not_ready _ h e = cc

wait_turns-total :
    (timeout_ms : ℕ) (waits : List Wait)
    → Expires timeout_ms waits
    → (rc : ReturnCode) × (wait_turns timeout_ms waits ≡ some rc)
      × ((rc ≡ one) ↔ GetsReady timeout_ms waits)
      × (rc ≢ zero_code)
unfolding wait_turns GetsReady
wait_turns-total timeout_ms [] h = absurd h
wait_turns-total timeout_ms (w ∷ waits) h = elim (Bool-cases (leb timeout_ms w.elapsed_ms)) [
  | inl late ↦
      (minus_one, rw late refl, ((λ e. cc), (λ x. absurd (ground (arith, late)))), (λ e. cc))
  | inr early ↦ elim (Bool-cases (is_retry w.poll)) [
    | inl retry ↦
        let later : Expires timeout_ms waits = elim h [
          | inl now ↦ absurd (ground (arith, early))
          | inr later ↦ later
        ] in
        let (rc, e, comes, nonzero) = wait_turns-total timeout_ms waits later in
        (
          rc,
          rw (early, retry) e,
          (
            (λ x. (ground (arith, early), inr (retry, comes.0 x))),
            (λ x. elim (x.1) [
              | inl now ↦ absurd (retry-not_ready w.poll retry now)
              | inr next ↦ comes.1 next.1
            ]),
          ),
          nonzero,
        )
    | inr once ↦ (
      poll_code w.poll,
      rw (early, once) refl,
      (
        (λ x. (ground (arith, early), inl ((poll_code-one w.poll).0 x))),
        (λ x. elim (x.1) [
          | inl now ↦ (poll_code-one w.poll).1 now
          | inr next ↦ absurd (ground (arith, once, next.0))
        ]),
      ),
      poll_code-nonzero w.poll,
    )
  ]
]

-- The connection is made at once, or the socket gets ready in time.
abbrev pub Connects : Connect → ℕ → List Wait → Type 0
Connects connected timeout_ms waits = Unit {0}
Connects in_progress timeout_ms waits = GetsReady timeout_ms waits
Connects connect_error timeout_ms waits = ⊥

not_minus_one : (rc : ReturnCode) → rc ≢ zero_code → (rc ≢ minus_one) ↔ (rc ≡ one)
not_minus_one minus_one h = ((λ x. absurd (x refl)), (λ e. absurd (cc)))
not_minus_one zero_code h = absurd (h refl)
not_minus_one one h = ((λ x. refl), (λ x e. cc))

after_connect-total :
    (c : Connect) (timeout_ms : ℕ) (waits : List Wait)
    → Expires timeout_ms waits
    → (rc : ReturnCode) × (after_connect c timeout_ms waits ≡ some rc)
      × ((rc ≢ minus_one) ↔ Connects c timeout_ms waits)
      × ((rc ≡ zero_code) ↔ (c ≡ connected))
after_connect-total connected timeout_ms waits h =
    (zero_code, refl, ((λ x. tt), (λ x e. cc)), ((λ e. refl), (λ e. refl)))
after_connect-total in_progress timeout_ms waits h =
    let (rc, e, comes, nonzero) = wait_turns-total timeout_ms waits h in
    (
      rc,
      e,
      (
        (λ x. comes.0 ((not_minus_one rc nonzero).0 x)),
        (λ x. (not_minus_one rc nonzero).1 (comes.1 x)),
      ),
      ((λ x. absurd (nonzero x)), (λ x. cc)),
    )
after_connect-total connect_error timeout_ms waits h =
    (minus_one, refl, ((λ x. absurd (x refl)), (λ x. absurd x)), ((λ e. cc), (λ e. cc)))

-- An attempt to connect ends when the time is over. It fails, with -1, unless every call of fcntl
-- succeeds and the connection is made at once or the socket gets ready in time. It returns 0 only for a
-- connection that is made at once.
pub connect_with_timeout-Connects :
    (calls : ConnectCalls) (timeout_ms : ℕ) (waits : List Wait)
    → Expires timeout_ms waits
    → (rc : ReturnCode) × (connect_with_timeout calls timeout_ms waits ≡ some rc)
      × ((rc ≢ minus_one) ↔ (
          (calls.gets_flags ≡ true)
          × (calls.sets_flags ≡ true)
          × (calls.restores ≡ true)
          × Connects calls.connect timeout_ms waits))
      × (rc ≡ zero_code → calls.connect ≡ connected)
unfolding connect_with_timeout
connect_with_timeout-Connects calls timeout_ms waits h =
    let (rc, e, comes, zero_only) = after_connect-total calls.connect timeout_ms waits h in
    elim (Bool-cases (calls.gets_flags && calls.sets_flags)) [
      | inr unset ↦ (
        minus_one,
        rw unset refl,
        ((λ x. absurd (x refl)), (λ x. absurd (ground (arith, unset)))),
        (λ x. cc),
      )
      | inl set ↦ elim (Bool-cases (calls.restores)) [
        | inr lost ↦ (
          minus_one,
          rw (set, e, lost) refl,
          ((λ x. absurd (x refl)), (λ x. absurd (ground (arith, lost)))),
          (λ x. cc),
        )
        | inl restored ↦ (
          rc,
          rw (set, e, restored) refl,
          (
            (λ x. (ground (arith, set), ground (arith, set), restored, comes.0 x)),
            (λ x. comes.1 x.3),
          ),
          zero_only.0,
        )
      ]
    ]
