-- ===== src/Mixnet/PacketType.antt =====
-- mixnet/packet.h: enum mixnet_packet_type_enum. The type field of a packet is a uint16_t, so it may
-- hold another value.
use fall23_p.Prelude.{ℕ}

abbrev pub stp : ℕ
stp = 0

abbrev pub flood : ℕ
flood = 1

abbrev pub lsa : ℕ
lsa = 2

abbrev pub packet_data : ℕ
packet_data = 3

abbrev pub ping : ℕ
ping = 4
