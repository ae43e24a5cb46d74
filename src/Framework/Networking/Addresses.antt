-- ===== src/Framework/Networking/Addresses.antt =====
-- framework/networking.h and framework/networking.cpp: network addresses as they stand in a message.
use fall23_p.Prelude.{ℕ, ◌+◌, Bool, ◌==◌, ◌&&◌}
use fall23_p.Framework.Buffer.{Buffer, read16, read32}

-- sockaddr_in, its port and its address in network byte order.
pub record Netaddr : Type 0 where
  pub sin_family : ℕ
  pub sin_port : ℕ
  pub s_addr : ℕ

-- sockaddr_in{}
abbrev pub no_netaddr : Netaddr
no_netaddr = record { sin_family = 0; sin_port = 0; s_addr = 0 }

-- AF_INET of sys/socket.h
abbrev pub af_inet : ℕ
af_inet = 2

unfoldable pub equal_netaddrs : Netaddr → Netaddr → Bool
equal_netaddrs a b =
    (a.sin_port == b.sin_port) && (a.sin_family == b.sin_family) && (a.s_addr == b.s_addr)

unfoldable pub netaddr_at : Buffer → ℕ → Netaddr
netaddr_at b o = record {
  sin_family = read16 b o;
  sin_port = read16 b (o + 2);
  s_addr = read32 b (o + 4);
}
