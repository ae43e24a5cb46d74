-- ===== src/Framework/Networking/Server.antt =====
-- framework/networking.h and framework/networking.cpp: opening a socket, listening on it, and the loop
-- that accepts connections. What the system calls give is an argument.
pub mod Accepting
use fall23_p.Prelude.{
  ℕ, ◌+◌, ◌==◌, ◌&&◌, ◌||◌, not, ltb, leb, Bool, true, false, List, [], ◌∷◌, Option, none, some,
  if◌then◌else◌, replicate, set,
}
use fall23_p.Framework.ErrorCode.{
  ErrorCode, success, socket_create_failed, socket_bind_failed, socket_listen_failed,
}
use fall23_p.Framework.Networking.Addresses.{Netaddr, no_netaddr}

-- What the calls in socket() give: the descriptor, the flags, and whether each call succeeds.
pub record SocketCalls : Type 0 where
  pub socket_fd : Option ℕ
  pub gets_flags : Bool
  pub sets_flags : Bool
  pub reuses : Bool

-- The descriptor, or `none` for -1.
unfoldable pub socket : SocketCalls → Bool → Bool → Option ℕ
socket calls reuse_addr is_blocking = elim (calls.socket_fd) [
  | none ↦ none
  | some fd ↦
      if (is_blocking || (calls.gets_flags && calls.sets_flags)) && (not reuse_addr || calls.reuses)
      then some fd
      else none
]

-- What the calls in server_setup give; `bound` is the address that getsockname reports.
pub record ServerCalls : Type 0 where
  pub opens : SocketCalls
  pub binds : Bool
  pub bound : Option Netaddr
  pub listens : Bool

abbrev named : Option Netaddr → Netaddr → Netaddr
named none addr = addr
named (some bound) addr = bound

abbrev is_named : Option Netaddr → Bool
is_named none = false
is_named (some _) = true

-- The error code, the descriptor and the address. Only a positive descriptor is a socket here.
unfoldable pub server_setup :
    ServerCalls → Netaddr → ℕ → Bool → Option ℕ → ErrorCode × Option ℕ × Netaddr
server_setup calls addr queue reuse_addr old_fd =
    let fd = socket calls.opens reuse_addr false in
    let fresh = addr.sin_port == 0 in
    let addr' = if fresh then named calls.bound addr else addr in
    if queue == 0
    then (success, old_fd, addr)
    else if not (elim fd [ none ↦ false | some n ↦ ltb 0 n ])
    then (socket_create_failed, fd, addr)
    else if not calls.binds
    then (socket_bind_failed, fd, addr)
    else if not ((not fresh || is_named calls.bound) && calls.listens)
    then (socket_listen_failed, fd, addr')
    else (success, fd, addr')

-- struct accepted_state
pub record AcceptedState : Type 0 where
  pub connection_fd : Option ℕ
  pub address : Netaddr

abbrev pub no_connection : AcceptedState
no_connection = record { connection_fd = none; address = no_netaddr }

-- struct accept_args, without its listening socket. `failed` says that rc is -1; `keep_running` is
-- what another thread writes, and stands in the turns of the loop.
pub record AcceptArgs : Type 0 where
  pub use_timeout : Bool
  pub timeout_ms : ℕ
  pub max_clients : ℕ
  pub failed : Bool
  pub num_accepted : ℕ
  pub done : Bool
  pub started : Bool
  pub states : List AcceptedState

unfoldable pub accept_args : Bool → ℕ → ℕ → AcceptArgs
accept_args use_timeout timeout_ms max_clients = record {
  use_timeout = use_timeout;
  timeout_ms = timeout_ms;
  max_clients = max_clients;
  failed = false;
  num_accepted = 0;
  done = false;
  started = false;
  states = replicate max_clients no_connection;
}

-- What accept gives: a connection, and whether it could be made non-blocking; EAGAIN or EWOULDBLOCK;
-- or another error.
pub data Accept : Type 0 where
  connection : ℕ → Netaddr → Bool → Accept
  would_block accept_error : Accept

-- One turn of the loop: the value of keep_running, the time since the start, and what accept gives.
pub record Turn : Type 0 where
  pub keep_running : Bool
  pub elapsed_ms : ℕ
  pub accept : Accept

unfoldable pub accept_one : AcceptArgs → Accept → AcceptArgs
accept_one args (connection fd address nonblocking) = record args {
  failed = not nonblocking;
  num_accepted = args.num_accepted + 1;
  states =
      set args.states args.num_accepted (record { connection_fd = some fd; address = address });
}
accept_one args would_block = args
accept_one args accept_error = record args { failed = true }

-- The loop over the turns; `none` is a loop that outlives them.
pub accept_turns : AcceptArgs → List Turn → Option AcceptArgs
accept_turns args [] =
    if leb args.max_clients args.num_accepted || args.failed
    then some (record args { done = true })
    else none
accept_turns args (t ∷ turns) =
    let rest = accept_turns (accept_one args t.accept) turns in
    if (leb args.max_clients args.num_accepted || args.failed || not t.keep_running)
      || (args.use_timeout && leb args.timeout_ms t.elapsed_ms)
    then some (record args { done = true })
    else rest

unfoldable pub server_accept : AcceptArgs → List Turn → Option AcceptArgs
server_accept args turns = accept_turns (record args { started = true }) turns
