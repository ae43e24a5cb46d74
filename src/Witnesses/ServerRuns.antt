-- ===== src/Witnesses/ServerRuns.antt =====
-- framework/networking.cpp: one client of two that connects in time, and an attempt to connect.
use fall23_p.Prelude.{
  ◌≡◌, ◌≢◌, ◌↔◌, ◌∷◌, ◌++◌, true, false, some, refl, inl, inr, arith, All, List, [],
}
use fall23_p.Framework.Networking.Addresses.{Netaddr}
use fall23_p.Framework.Networking.Server.{
  Turn, connection, would_block, AcceptArgs, accept_args, server_accept,
}
use fall23_p.Framework.Networking.Server.Accepting.{
  Accepts, GoOn, Leaves, IsFine, connections, server_accept-Accepts,
}
use fall23_p.Framework.Networking.Connect.{
  ConnectCalls, Wait, ReturnCode, connected, in_progress, interrupted, ready, minus_one, zero_code,
  Connects, connect_with_timeout, connect_with_timeout-Connects,
}

abbrev client : Netaddr
client = record { sin_family = 2; sin_port = 4000; s_addr = 16777343 }

abbrev one_client : List Turn
one_client =
    record { keep_running = true; elapsed_ms = 3; accept = would_block }
    ∷ record { keep_running = true; elapsed_ms = 5; accept = connection 7 client true }
    ∷ record { keep_running = true; elapsed_ms = 5000; accept = would_block }
    ∷ []

server_accept-Accepts_example :
    (args : AcceptArgs) × (consumed : List Turn) × (rest : List Turn) × (server_accept
        (accept_args true 5000 2)
        one_client
      ≡ some args)
    × (one_client ≡ consumed ++ rest)
    × Accepts true 5000 2 (connections consumed) args
    × (args.done ≡ true)
    × GoOn true 5000 2 false [] consumed
    × ((t : Turn) × (turns' : List Turn) × (rest ≡ t ∷ turns') × Leaves args t)
    × ((args.failed ≡ false) ↔ All IsFine consumed)
server_accept-Accepts_example =
    server_accept-Accepts true 5000 2 one_client
      (inr (inr (inr (inr (inr (inl (refl, omega arith)))))))

-- Every call of fcntl succeeds, and the connection takes its time.
abbrev calls : ConnectCalls
calls = record { gets_flags = true; sets_flags = true; connect = in_progress; restores = true }

abbrev two_waits : List Wait
two_waits =
    record { elapsed_ms = 1; poll = interrupted }
    ∷ record { elapsed_ms = 20; poll = ready }
    ∷ record { elapsed_ms = 600; poll = ready }
    ∷ []

connect_with_timeout-Connects_example :
    (rc : ReturnCode) × (connect_with_timeout calls 500 two_waits ≡ some rc)
    × ((rc ≢ minus_one)
        ↔ ((true ≡ true) × (true ≡ true) × (true ≡ true) × Connects in_progress 500 two_waits))
    × (rc ≡ zero_code → in_progress ≡ connected)
connect_with_timeout-Connects_example =
    connect_with_timeout-Connects calls 500 two_waits (inr (inr (inl (omega arith))))
