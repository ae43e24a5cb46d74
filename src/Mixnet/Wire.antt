-- ===== src/Mixnet/Wire.antt =====
-- mixnet/packet.h: a packet as it is laid out in memory, and the STP payload in it.
use fall23_p.Prelude.{ℕ, ◌^◌, ◌<◌, ◌≡◌, arith}
use fall23_p.Framework.Buffer.{Buffer, read16, write16}
use fall23_p.Mixnet.Packet.{Packet, Stp}

-- struct mixnet_packet: the header fields, and the bytes of the payload.
pub record Wire : Type 0 where
  pub total_size : ℕ
  pub type : ℕ
  pub reserved : ℕ
  pub payload : Buffer

-- Fields of the payload structures, at their offsets.
abbrev pub lsa_neighbor_count : Wire → ℕ
lsa_neighbor_count p = read16 p.payload 2

abbrev pub route_length : Wire → ℕ
route_length p = read16 p.payload 4

-- memcpy from a mixnet_packet_stp into the payload, and back.
unfoldable pub put_stp : Stp → Buffer → Buffer
put_stp u b = write16 (write16 (write16 b 0 u.root_address) 2 u.path_length) 4 u.node_address

unfoldable pub get_stp : Buffer → Stp
get_stp b = record {
  root_address = read16 b 0;
  path_length = read16 b 2;
  node_address = read16 b 4;
}

-- The packet that the node's initialisation functions lay out in fresh memory `b`.
unfoldable pub wire : Packet → Buffer → ℕ → Wire
wire p b reserved = record {
  total_size = p.total_size;
  type = p.type;
  reserved = reserved;
  payload = put_stp p.payload b;
}

-- The STP payload that is copied into a packet is the one that is copied out of it, where the fields
-- are 16-bit numbers.
pub get-put_stp :
    (u : Stp) (b : Buffer)
    → u.root_address < 2 ^ 16
    → u.path_length < 2 ^ 16
    → u.node_address < 2 ^ 16
    → get_stp (put_stp u b) ≡ u
unfolding get_stp put_stp read16 write16
get-put_stp u b hr hp hn = ground arith
