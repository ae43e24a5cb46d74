-- ===== src/Framework/Orchestrator/Setup/Lookup.antt =====
-- framework/orchestrator.cpp and framework/fragment.cpp: the addresses in a message, and the first
-- connection from an address.
use mathlib.Core.Path.{subst}
use fall23_p.Prelude.{
  ◌+◌, ◌*◌, ◌^◌, ◌≤◌, ◌<◌, ◌≡◌, ◌∙◌, none, some, refl, arith, length, load, All, Option, List, [],
  ℕ,
}
use fall23_p.Framework.Buffer.{read16-agree, Buffer, read16, write16}
use fall23_p.Framework.Arrays.{
  IsNetaddr, netaddrs_payload, read_netaddrs, read_netaddrs-agree, read_netaddrs-write_netaddrs,
  write_netaddrs-before,
}
use fall23_p.Framework.Message.{MessageType}
use fall23_p.Framework.Message.Length.{payload_bytes}
use fall23_p.Framework.Networking.Addresses.{Netaddr}
use fall23_p.Framework.Networking.Server.{AcceptedState}
use fall23_p.Framework.Fragment.Setup.{find_connection}
use fall23_p.Framework.Orchestrator.Headers.{Keeps}
use fall23_p.Framework.Orchestrator.Broadcast.{Carries, Fills, IsAccepted}
use fall23_p.Framework.Orchestrator.Setup.{resolve_payload, clients_payload}

module _ (addrs : List Netaddr) (b : Buffer) where
  netaddrs_payload-Keeps : Keeps b (netaddrs_payload addrs b)
  unfolding netaddrs_payload write16
  netaddrs_payload-Keeps i =
      ground (arith, write_netaddrs-before (write16 b 8 (length addrs)) 16 addrs i)

  netaddrs_payload-count :
      length addrs < 2 ^ 16 → read16 (netaddrs_payload addrs b) 8 ≡ length addrs
  unfolding netaddrs_payload read16 write16
  netaddrs_payload-count few = ground (
    arith,
    write_netaddrs-before (write16 b 8 (length addrs)) 16 addrs 8,
    write_netaddrs-before (write16 b 8 (length addrs)) 16 addrs 9,
  )

  netaddrs_payload-addrs :
      All IsNetaddr addrs → read_netaddrs (netaddrs_payload addrs b) 16 (length addrs) ≡ addrs
  unfolding netaddrs_payload
  netaddrs_payload-addrs fit =
      read_netaddrs-write_netaddrs (write16 b 8 (length addrs)) 16 addrs fit

-- Few enough addresses for a message.
abbrev pub IsFew : List Netaddr → Type 0
IsFew addrs = 20 + length addrs * 16 < 2 ^ 16

clients_payload-fits :
    (o : Option (List Netaddr)) (b : Buffer)
    → ((addrs : List Netaddr) → o ≡ some addrs → IsFew addrs)
    → Keeps b (clients_payload o b) × (20 + read16 (clients_payload o b) 8 * 16 < 2 ^ 16)
clients_payload-fits none b few =
    (netaddrs_payload-Keeps [] b, omega (arith, netaddrs_payload-count [] b (omega arith)))
clients_payload-fits (some addrs) b few =
    let small = few addrs refl in
    (
      netaddrs_payload-Keeps addrs b,
      omega (arith, netaddrs_payload-count addrs b (omega (arith, small)), small),
    )

pub resolve_payload-Fills :
    (all : List (List Netaddr))
    → ((i : ℕ) (addrs : List Netaddr) → load all i ≡ some addrs → IsFew addrs)
    → Fills MessageType.resolve_mixnet_conns (resolve_payload all)
unfolding resolve_payload payload_bytes
resolve_payload-Fills all few i b =
    let (keeps, size) = clients_payload-fits (load all i) b (few i) in
    (keeps, tt, omega (arith, size))

resolve_payload-found :
    (all : List (List Netaddr)) (i : ℕ) (addrs : List Netaddr) (b : Buffer)
    → load all i ≡ some addrs
    → resolve_payload all i b ≡ netaddrs_payload addrs b
unfolding resolve_payload
resolve_payload-found all i addrs b at = rw at refl

carried :
    (addrs : List Netaddr) (b m : Buffer)
    → Carries MessageType.resolve_mixnet_conns (netaddrs_payload addrs b) m
    → IsFew addrs
    → (j : ℕ) → 8 ≤ j
    → j < 16 + length addrs * 16
    → m j ≡ netaddrs_payload addrs b j
unfolding payload_bytes
carried addrs b m carries few j low high = ground (arith, carries j, netaddrs_payload-count addrs b)

-- The fragment reads the addresses that were filled in.
pub accepted-addrs :
    (all : List (List Netaddr)) (i : ℕ) (addrs : List Netaddr) (m : Buffer)
    → IsAccepted MessageType.resolve_mixnet_conns (resolve_payload all) (i, m)
    → load all i ≡ some addrs
    → IsFew addrs
    → All IsNetaddr addrs
    → (read16 m 8 ≡ length addrs) × (read_netaddrs m 16 (length addrs) ≡ addrs)
accepted-addrs all i addrs m (passes, (b, layout, carries)) at few fit =
    let filled = netaddrs_payload addrs b in
    let found = resolve_payload-found all i addrs b at in
    let same =
      carried addrs b m (subst (λ c. Carries MessageType.resolve_mixnet_conns c m) found carries)
        few in
    (
      read16-agree filled m 8 (same 8 (omega arith) (omega arith))
            (same 9 (omega arith) (omega arith))
          ∙ netaddrs_payload-count addrs b (omega (arith, few)),
      read_netaddrs-agree m filled 16 (length addrs) (λ j low high. same j (omega arith) high)
          ∙ netaddrs_payload-addrs addrs b fit,
    )

-- Every neighbour finds its connection.
abbrev pub Found : List AcceptedState → Netaddr → Type 0
Found states addr = (fd : Option ℕ) × (find_connection states addr ≡ some fd)
