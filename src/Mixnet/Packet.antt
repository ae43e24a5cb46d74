-- ===== src/Mixnet/Packet.antt =====
-- mixnet/packet.h, mixnet/address.h and mixnet/packet_init.c: packet types, sizes, and the two
-- packets that a node builds. A uint16_t field is a number below 2 ^ 16.
use fall23_p.Prelude.{ℕ, ◌+◌, ◌*◌, ◌-◌, ◌^◌, ◌%◌}
use fall23_p.Mixnet.PacketType

-- uint16_t: conversion to it keeps the low 16 bits.
abbrev pub u16 : ℕ → ℕ
u16 n = n % 2 ^ 16

-- sizeof of the packed structures, as the static assertions fix them.
abbrev pub sizeof_packet : ℕ
sizeof_packet = 12

abbrev pub sizeof_stp : ℕ
sizeof_stp = 6

abbrev pub sizeof_link_params : ℕ
sizeof_link_params = 4

abbrev pub sizeof_lsa : ℕ
sizeof_lsa = 4

abbrev pub sizeof_routing_header : ℕ
sizeof_routing_header = 8

abbrev pub sizeof_ping : ℕ
sizeof_ping = 10

abbrev pub sizeof_address : ℕ
sizeof_address = 2

abbrev pub min_packet_size : ℕ
min_packet_size = sizeof_packet

abbrev pub max_packet_size : ℕ
max_packet_size = 4096

abbrev pub max_route_length : ℕ
max_route_length = 256

abbrev pub max_data_size : ℕ
max_data_size =
    max_packet_size - sizeof_packet - (sizeof_routing_header + sizeof_address * max_route_length)

-- INVALID_MIXADDR
abbrev pub invalid_address : ℕ
invalid_address = 0xffff

-- struct mixnet_packet_stp
pub record Stp : Type 0 where
  pub root_address : ℕ
  pub path_length : ℕ
  pub node_address : ℕ

-- struct mixnet_packet with the STP payload that the node's code reads and writes.
pub record Packet : Type 0 where
  pub total_size : ℕ
  pub type : ℕ
  pub payload : Stp

-- `path_length` is an int at the call and a u_int16_t parameter.
unfoldable pub initialize_stp_packet : ℕ → ℕ → ℕ → Packet
initialize_stp_packet root path_length address = record {
  total_size = 18;
  type = PacketType.stp;
  payload = record { root_address = root; path_length = u16 path_length; node_address = address };
}

unfoldable pub initialize_flood_packet : ℕ → ℕ → ℕ → Packet
initialize_flood_packet root path_length address = record {
  total_size = 12;
  type = PacketType.flood;
  payload = record { root_address = root; path_length = u16 path_length; node_address = address };
}
