-- ===== src/Witnesses/MessageRuns.antt =====
-- framework/message.cpp and the payload of a packet on small buffers.
use fall23_p.Prelude.{ℕ, if◌then◌else◌, true, ◌≡◌, some, ◌==◌, arith, ◌+◌, ◌<◌, ◌⊎◌, ◌≤◌}
use fall23_p.Mixnet.Packet.{Stp}
use fall23_p.Framework.Buffer.{Buffer, read16, write16}
use fall23_p.Framework.Message.{send_packet, set_code, get_total_length, finalize, validate}
use fall23_p.Framework.Message.Codes.{get-set_code}
use fall23_p.Framework.Message.Length.{payload_bytes, finalize-validate}

abbrev zeros : Buffer
zeros i = 0

-- A SEND_PACKET request with five bytes of data.
abbrev five_bytes : Buffer
five_bytes i = if i == 14 then 5 else 0

abbrev request : Buffer
request = set_code five_bytes true send_packet

finalize-validate_example :
    (c : Buffer) × (finalize request ≡ some c)
    × (validate c ≡ some true)
    × (get_total_length c ≡ 12 + payload_bytes true send_packet request)
    × ((i : ℕ) → (i < 2) ⊎ ((8 + payload_bytes true send_packet request ≤ i) ⊎ (c i ≡ request i)))
unfolding payload_bytes set_code write16 read16
finalize-validate_example =
    finalize-validate request true send_packet (get-set_code five_bytes true send_packet).0
      (get-set_code five_bytes true send_packet).1 tt (omega arith)

abbrev hello : Stp
hello = record { root_address = 4; path_length = 300; node_address = 65535 }
