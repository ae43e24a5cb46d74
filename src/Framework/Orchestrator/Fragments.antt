-- ===== src/Framework/Orchestrator/Fragments.antt =====
-- framework/orchestrator.h and framework/orchestrator.cpp: what the orchestrator knows of its
-- fragments, how it learns it in the two handshakes, and how it ends them. A read or write out of
-- bounds is the result `none`.
use fall23_p.Prelude.{
  ℕ, ◌-◌, ◌^◌, ◌==◌, leb, Bool, true, false, List, [], ◌∷◌, Option, none, some, if◌then◌else◌,
  ◌>>=◌, length, load, store,
}
use fall23_p.Framework.ErrorCode.{ErrorCode, success, fragment_exception, bad_fragment_id}
use fall23_p.Framework.Buffer.{Buffer, read32}
use fall23_p.Framework.Message.{get_fragment_id}
use fall23_p.Framework.Networking.Addresses.{Netaddr, no_netaddr}
use fall23_p.Framework.Orchestrator.Responses.{Fd}

-- struct fragment_metadata; `none` is -1.
pub record FragmentMetadata : Type 0 where
  pub pid : Option ℕ
  pub fd_ctrl : Fd
  pub fd_pcap : Fd
  pub is_pcap_subscribed : Bool
  pub mixnet_server_netaddr : Netaddr
  pub mixnet_client_netaddrs : List Netaddr

abbrev pub new_fragment : FragmentMetadata
new_fragment = record {
  pid = none;
  fd_ctrl = none;
  fd_pcap = none;
  is_pcap_subscribed = false;
  mixnet_server_netaddr = no_netaddr;
  mixnet_client_netaddrs = [];
}

abbrev pub Fragments : Type 0
Fragments = List FragmentMetadata

abbrev pub is_set : Option ℕ → Bool
is_set none = false
is_set (some _) = true

-- A process number as the 32 bits of an int.
abbrev pub pid_bits : Option ℕ → ℕ
pid_bits none = 2 ^ 32 - 1
pid_bits (some pid) = pid

-- The payload of a SETUP_CTRL response.
unfoldable pub response_pid : Buffer → ℕ
response_pid m = read32 m 8

-- The loop of the SETUP_CTRL lambda in autotest mode.
unfoldable pub assign_by_pid : ℕ → Fd → Fragments → ErrorCode × Fragments
assign_by_pid pid fd [] = (fragment_exception, [])
assign_by_pid pid fd (f ∷ fs) =
    let rest = assign_by_pid pid fd fs in
    if pid_bits f.pid == pid
    then (if is_set f.fd_ctrl
        then (fragment_exception, f ∷ fs)
        else (success, record f { fd_ctrl = fd } ∷ fs))
    else (rest.0, f ∷ rest.1)

-- The lambda that maps the accepted ctrl sockets `fds` to fragments.
unfoldable pub setup_ctrl_lambda :
    Bool → List Fd → ℕ → Buffer → Fragments → Option (ErrorCode × Fragments)
setup_ctrl_lambda autotest_mode fds idx m fragments = do
  fd ← load fds idx
  if autotest_mode
      then some (assign_by_pid (response_pid m) fd fragments)
      else (load fragments idx >>= λ f.
          if is_set f.fd_ctrl
          then some (fragment_exception, fragments)
          else (store fragments idx (record f { fd_ctrl = fd }) >>= λ fs. some (success, fs)))

-- The lambda that maps the accepted pcap sockets to fragments.
unfoldable pub setup_pcap_lambda : List Fd → ℕ → Buffer → Fragments → Option (ErrorCode × Fragments)
setup_pcap_lambda fds idx m fragments =
    if leb (length fragments) (get_fragment_id m) then some (bad_fragment_id, fragments) else (do
      f ← load fragments (get_fragment_id m)
      fd ← load fds idx
      if is_set f.fd_pcap
          then some (bad_fragment_id, fragments)
          else (store fragments (get_fragment_id m) (record f { fd_pcap = fd }) >>= λ fs.
              some (success, fs)))

-- The lambda of the graceful shutdown.
unfoldable pub shutdown_lambda : ℕ → Buffer → Fragments → Option (ErrorCode × Fragments)
shutdown_lambda idx m fragments = do
  f ← load fragments idx
  fs ← store fragments idx (record f { pid = none })
  some (success, fs)

-- The processes that destroy_fragments signals, in order.
unfoldable pub destroy_fragments : Fragments → List ℕ
destroy_fragments [] = []
destroy_fragments (f ∷ fs) =
    let rest = destroy_fragments fs in elim (f.pid) [ none ↦ rest | some pid ↦ pid ∷ rest ]
