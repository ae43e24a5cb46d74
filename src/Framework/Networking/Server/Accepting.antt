-- ===== src/Framework/Networking/Server/Accepting.antt =====
-- framework/networking.cpp: what the loop that accepts connections leaves in its arguments.
use mathlib.Core.Path.{subst}
use mathlib.Core.List.{append-nil, append_assoc}
use fall23_p.Prelude.{
  ◌&&◌, ◌∙◌, inl, inr, sym, ◌||◌, ℕ, suc, ◌-◌, ◌≤◌, ◌<◌, ◌≡◌, ◌⊎◌, not, Bool, true, false, List, [],
  ◌∷◌, ◌++◌, some, length, set, replicate, arith, refl, ap, length-append, ◌↔◌, Bool-cases, All,
  leb,
}
use fall23_p.Framework.Networking.Server.{
  AcceptedState, no_connection, AcceptArgs, Accept, connection, would_block, accept_error, Turn,
  accept_one, accept_turns, server_accept, accept_args,
}

-- The connection that accept gives.
abbrev pub connection_of : Accept → List AcceptedState
connection_of (connection fd address _) = record { connection_fd = some fd; address = address } ∷ []
connection_of would_block = []
connection_of accept_error = []

abbrev pub connections : List Turn → List AcceptedState
connections [] = []
connections (t ∷ turns) = connection_of t.accept ++ connections turns

abbrev is_error : Accept → Bool
is_error (connection _ _ nonblocking) = not nonblocking
is_error would_block = false
is_error accept_error = true

-- A turn without an error.
abbrev pub IsFine : Turn → Type 0
IsFine t = is_error t.accept ≡ false

-- The loop is told to stop, or its time is over, in one of the turns.
abbrev pub Stops : Bool → ℕ → List Turn → Type 0
Stops use_timeout timeout_ms [] = ⊥
Stops use_timeout timeout_ms (t ∷ turns) =
    (t.keep_running ≡ false)
    ⊎ (((use_timeout ≡ true) × (timeout_ms ≤ t.elapsed_ms)) ⊎ Stops use_timeout timeout_ms turns)

-- Why the loop ends before a turn: all clients are there, an error occurred, it is told to stop, or
-- its time is over.
abbrev pub Leaves : AcceptArgs → Turn → Type 0
Leaves args t =
    (args.num_accepted ≡ args.max_clients)
    ⊎ ((args.failed ≡ true)
        ⊎ ((t.keep_running ≡ false)
            ⊎ ((args.use_timeout ≡ true) × (args.timeout_ms ≤ t.elapsed_ms))))

-- Turns for which the loop goes on after the connections `got`: at each of them there was no error
-- before, clients are missing, the loop is to keep running, and its time is not over.
abbrev pub GoOn : Bool → ℕ → ℕ → Bool → List AcceptedState → List Turn → Type 0
GoOn use_timeout timeout_ms max failed got [] = Unit
GoOn use_timeout timeout_ms max failed got (t ∷ turns) =
    (failed ≡ false)
    × (length got < max)
    × (t.keep_running ≡ true)
    × ((use_timeout ≡ false) ⊎ (t.elapsed_ms < timeout_ms))
    × GoOn use_timeout timeout_ms max (is_error t.accept) (got ++ connection_of t.accept) turns

-- The arguments after the connections `got`, in order.
pub record Accepts (use_timeout : Bool) (timeout_ms max : ℕ) (got : List AcceptedState)
    (args : AcceptArgs) : Type 0 where
  pub use_timeout_kept : args.use_timeout ≡ use_timeout
  pub timeout_kept : args.timeout_ms ≡ timeout_ms
  pub max_kept : args.max_clients ≡ max
  pub counted : args.num_accepted ≡ length got
  pub bounded : length got ≤ max
  pub stored : args.states ≡ got ++ replicate (max - length got) no_connection

set-append :
    (got : List AcceptedState) (k : ℕ) (v : AcceptedState)
    → set (got ++ replicate (suc k) no_connection) (length got) v
      ≡ (got ++ v ∷ []) ++ replicate k no_connection
set-append [] k v = refl
set-append (x ∷ got) k v = ap (◌∷◌ x) (set-append got k v)

accept_one-Accepts :
    (use_timeout : Bool) (timeout_ms max : ℕ) (got : List AcceptedState) (args : AcceptArgs)
    (a : Accept)
    → length got < max
    → args.failed ≡ false
    → Accepts use_timeout timeout_ms max got args
    → Accepts use_timeout timeout_ms max (got ++ connection_of a) (accept_one args a)
      × ((accept_one args a).failed ≡ is_error a)
unfolding accept_one
accept_one-Accepts use_timeout timeout_ms max got args (connection fd address nonblocking) below ok
      h =
    let v : AcceptedState = record { connection_fd = some fd; address = address } in
    let k : ℕ = max - length got - 1 in
    let more : max - length got ≡ suc k = omega arith in
    let less : max - length (got ++ v ∷ []) ≡ k = omega (arith, length-append got (v ∷ [])) in
    (
      record {
        use_timeout_kept = h.use_timeout_kept;
        timeout_kept = h.timeout_kept;
        max_kept = h.max_kept;
        counted = omega (arith, h.counted, length-append got (v ∷ []));
        bounded = omega (arith, length-append got (v ∷ []));
        stored = rw (h.stored, h.counted, more, less) (set-append got k v);
      },
      refl,
    )
accept_one-Accepts use_timeout timeout_ms max got args would_block below ok h =
    (rw (append-nil got) h, ok)
accept_one-Accepts use_timeout timeout_ms max got args accept_error below ok h = (
  rw (append-nil got) (record {
    use_timeout_kept = h.use_timeout_kept;
    timeout_kept = h.timeout_kept;
    max_kept = h.max_kept;
    counted = h.counted;
    bounded = h.bounded;
    stored = h.stored;
  }),
  refl,
)

module _ (use_timeout : Bool) (timeout_ms max : ℕ) where
  -- Where the loop leads from `args`, which has the connections `got`.
  record Ends (got : List AcceptedState) (args : AcceptArgs) (turns consumed rest : List Turn)
      (args' : AcceptArgs) : Type 0 where
    split : turns ≡ consumed ++ rest
    accepts : Accepts use_timeout timeout_ms max (got ++ connections consumed) args'
    is_done : args'.done ≡ true
    taken : GoOn use_timeout timeout_ms max args.failed got consumed
    left : (t : Turn) × (turns' : List Turn) × (rest ≡ t ∷ turns') × Leaves args' t
    fine : (args'.failed ≡ false) ↔ ((args.failed ≡ false) × All IsFine consumed)

  done-Ends :
      (got : List AcceptedState) (args : AcceptArgs) (t : Turn) (turns : List Turn)
      → Accepts use_timeout timeout_ms max got args
      → Leaves args t
      → Ends got args (t ∷ turns) [] (t ∷ turns) (record args { done = true })
  done-Ends got args t turns h why = record {
    split = refl;
    accepts = rw (append-nil got) (record {
      use_timeout_kept = h.use_timeout_kept;
      timeout_kept = h.timeout_kept;
      max_kept = h.max_kept;
      counted = h.counted;
      bounded = h.bounded;
      stored = h.stored;
    });
    is_done = refl;
    taken = tt;
    left = (t, turns, refl, why);
    fine = ((λ e. (e, tt)), (λ x. x.0));
  }

  accept_turns-Ends :
      (turns : List Turn) (got : List AcceptedState) (args : AcceptArgs)
      → Stops use_timeout timeout_ms turns
      → Accepts use_timeout timeout_ms max got args
      → (args' : AcceptArgs) × (consumed : List Turn) × (rest : List Turn) × (accept_turns args
            turns
          ≡ some args')
        × Ends got args turns consumed rest args'
  unfolding accept_turns
  accept_turns-Ends [] got args stops h = absurd stops
  accept_turns-Ends (t ∷ turns) got args stops h =
      elim (Bool-cases (
        (leb args.max_clients args.num_accepted || args.failed || not t.keep_running)
        || (args.use_timeout && leb args.timeout_ms t.elapsed_ms))) [
          | inl over ↦ (
            record args { done = true },
            [],
            t ∷ turns,
            rw over refl,
            done-Ends got args t turns h (ground (arith, over, h.max_kept, h.counted, h.bounded)),
          )
          | inr on ↦
              let later : Stops use_timeout timeout_ms turns = elim stops [
                | inl told ↦ absurd (ground (arith, on, told))
                | inr (inl late) ↦
                    absurd (ground (arith, on, late.0, late.1, h.use_timeout_kept, h.timeout_kept))
                | inr (inr later) ↦ later
              ] in
              let ok : args.failed ≡ false = ground (arith, on) in
              let (accepts, error) =
                accept_one-Accepts use_timeout timeout_ms max got args t.accept
                  (ground (arith, on, h.max_kept, h.counted)) ok h in
              let (args', consumed, rest, e, ends) =
                accept_turns-Ends turns (got ++ connection_of t.accept) (accept_one args t.accept)
                  later accepts in
              (
                args',
                t ∷ consumed,
                rest,
                rw on e,
                record {
                  split = rw ends.split refl;
                  accepts =
                      rw (← append_assoc got (connection_of t.accept) (connections consumed))
                        ends.accepts;
                  is_done = ends.is_done;
                  taken = (
                    ok,
                    ground (arith, on, h.max_kept, h.counted),
                    ground (arith, on),
                    ground (arith, on, h.use_timeout_kept, h.timeout_kept),
                    subst
                        (λ f.
                          GoOn use_timeout timeout_ms max f (got ++ connection_of t.accept)
                            consumed)
                        error ends.taken,
                  );
                  left = ends.left;
                  fine = (
                    (λ x. (ok, (sym error ∙ (ends.fine.0 x).0, (ends.fine.0 x).1))),
                    (λ x. ends.fine.1 (error ∙ x.1.0, x.1.1)),
                  );
                },
              )
        ]

-- The loop that accepts connections ends when it is told to stop or its time is over. It has then
-- taken the turns `consumed`, and at each of them no error had occurred, clients were missing, and it was
-- neither told to stop nor late; at the next turn all clients were there, an error had occurred, it was
-- told to stop, or its time was over. The accepted sockets are the connections of the turns taken, in
-- order, not more than the clients expected, and all other entries are empty; and it reports a failure
-- exactly if one of those turns had an error.
pub server_accept-Accepts :
    (use_timeout : Bool) (timeout_ms max : ℕ) (turns : List Turn)
    → Stops use_timeout timeout_ms turns
    → (args : AcceptArgs) × (consumed : List Turn) × (rest : List Turn) × (server_accept
          (accept_args use_timeout timeout_ms max)
          turns
        ≡ some args)
      × (turns ≡ consumed ++ rest)
      × Accepts use_timeout timeout_ms max (connections consumed) args
      × (args.done ≡ true)
      × GoOn use_timeout timeout_ms max false [] consumed
      × ((t : Turn) × (turns' : List Turn) × (rest ≡ t ∷ turns') × Leaves args t)
      × ((args.failed ≡ false) ↔ All IsFine consumed)
unfolding server_accept accept_args
server_accept-Accepts use_timeout timeout_ms max turns stops =
    let all : max ≡ max - 0 = omega arith in
    let (args, consumed, rest, e, ends) =
      accept_turns-Ends use_timeout timeout_ms max turns []
        (record (accept_args use_timeout timeout_ms max) { started = true }) stops
        (record {
          use_timeout_kept = refl;
          timeout_kept = refl;
          max_kept = refl;
          counted = refl;
          bounded = omega arith;
          stored = ap (λ n. replicate n no_connection) all;
        }) in
    (
      args,
      consumed,
      rest,
      e,
      ends.split,
      ends.accepts,
      ends.is_done,
      ends.taken,
      ends.left,
      ((λ x. (ends.fine.0 x).1), (λ x. ends.fine.1 (refl, x))),
    )
