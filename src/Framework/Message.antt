-- ===== src/Framework/Message.antt =====
-- framework/message.h and framework/message.cpp: the header, the code and the length of a message.
-- A failed assertion is the result `none`.
pub mod Codes
pub mod Length
use Prim.Native.Nat.{bit_and, bit_or}
use fall23_p.Prelude.{
  ℕ, ◌+◌, ◌*◌, ◌-◌, ◌%◌, ◌^◌, Bool, true, false, Option, none, some, ltb, leb, ◌==◌, ◌||◌,
  if◌then◌else◌, ◌>>=◌, List, [], ◌∷◌, get_elem?, ◌&&◌,
}
use fall23_p.Mixnet.Packet.{u16}
use fall23_p.Framework.ErrorCode.{ErrorCode, error_number, error_of_number}
use fall23_p.Framework.Buffer.{Buffer, read16, read32, write16, write32}

abbrev pub canary : ℕ
canary = 0xdeadbeef

-- enum class type
pub data MessageType : Type 0 where
  noop setup_ctrl setup_pcap topology start_mixnet_server start_mixnet_clients : MessageType
  resolve_mixnet_conns change_link_state pcap_data pcap_subscription send_packet : MessageType
  start_testcase end_testcase shutdown : MessageType

pub MessageType-discrete : Discrete MessageType
MessageType-discrete = hlevel

abbrev pub type_number : MessageType → ℕ
type_number noop = 0
type_number setup_ctrl = 1
type_number setup_pcap = 2
type_number topology = 3
type_number start_mixnet_server = 4
type_number start_mixnet_clients = 5
type_number resolve_mixnet_conns = 6
type_number change_link_state = 7
type_number pcap_data = 8
type_number pcap_subscription = 9
type_number send_packet = 10
type_number start_testcase = 11
type_number end_testcase = 12
type_number shutdown = 13

abbrev pub all_types : List MessageType
all_types =
    noop ∷ setup_ctrl ∷ setup_pcap ∷ topology ∷ start_mixnet_server ∷ start_mixnet_clients
    ∷ resolve_mixnet_conns ∷ change_link_state ∷ pcap_data ∷ pcap_subscription ∷ send_packet
    ∷ start_testcase ∷ end_testcase ∷ shutdown ∷ []

-- Sizes of the header and of the payload structures.
abbrev pub sizeof_header : ℕ
sizeof_header = 8

abbrev pub sizeof_canary : ℕ
sizeof_canary = 4

abbrev pub sizeof_sockaddr_in : ℕ
sizeof_sockaddr_in = 16

abbrev pub sizeof_topology : ℕ
sizeof_topology = 16

abbrev pub sizeof_clients : ℕ
sizeof_clients = 8

abbrev pub sizeof_send_packet : ℕ
sizeof_send_packet = 8

abbrev pub min_message_length : ℕ
min_message_length = sizeof_header + sizeof_canary

abbrev pub max_message_length : ℕ
max_message_length = 2 ^ 16 - 1

unfoldable pub code_create : Bool → MessageType → ℕ
code_create is_request type =
    u16 (bit_or (if is_request then 0 else 2 ^ 15) (bit_and (type_number type) 0x7fff))

unfoldable pub code_is_request : ℕ → Bool
code_is_request code = bit_and code 0x8000 == 0

-- A number that is no message type fails the assertion.
unfoldable pub code_to_type : ℕ → Option MessageType
code_to_type code = get_elem? all_types (bit_and code 0x7fff)

-- The fields of the header.
unfoldable pub get_total_length : Buffer → ℕ
get_total_length b = read16 b 0

unfoldable pub is_request : Buffer → Bool
is_request b = code_is_request (read16 b 2)

unfoldable pub get_type : Buffer → Option MessageType
get_type b = code_to_type (read16 b 2)

unfoldable pub get_fragment_id : Buffer → ℕ
get_fragment_id b = read16 b 4

unfoldable pub get_error_code : Buffer → Option ErrorCode
get_error_code b = error_of_number (read16 b 6)

unfoldable pub set_code : Buffer → Bool → MessageType → Buffer
set_code b is_request type = write16 b 2 (code_create is_request type)

unfoldable pub set_fragment_id : Buffer → ℕ → Buffer
set_fragment_id b fragment_id = write16 b 4 fragment_id

unfoldable pub set_error_code : Buffer → ErrorCode → Buffer
set_error_code b e = write16 b 6 (error_number e)

pub clear : Buffer → Buffer
clear b i = if ltb i sizeof_header then 0 else b i

-- The switch of compute_total_length: each length() is a length_t. The lengths of the payloads that
-- end in an array come from the payload's own count: num_neighbors of a topology at offset 10, of the
-- client lists at offset 8, data_length at offset 14, and total_size of a packet at offset 8.
unfoldable pub payload_length : Bool → MessageType → Buffer → Option ℕ
payload_length request noop b = none
payload_length request setup_ctrl b = some (if request then 1 else 4)
payload_length request setup_pcap b = some (if request then sizeof_sockaddr_in else 0)
payload_length request topology b =
    some (if request then u16 (sizeof_topology + read16 b 10 * 2) else 0)
payload_length request start_mixnet_server b = some (if request then 0 else sizeof_sockaddr_in)
payload_length request start_mixnet_clients b =
    some (u16 (sizeof_clients + read16 b 8 * sizeof_sockaddr_in))
payload_length request resolve_mixnet_conns b =
    some (if request then u16 (sizeof_clients + read16 b 8 * sizeof_sockaddr_in) else 0)
payload_length request change_link_state b = some (if request then 4 else 0)
payload_length request pcap_data b = some (if request then 0 else read16 b 8)
payload_length request pcap_subscription b = some (if request then 1 else 0)
payload_length request send_packet b =
    some (if request then u16 (sizeof_send_packet + read16 b 14) else 0)
payload_length request start_testcase b = some 0
payload_length request end_testcase b = some 0
payload_length request shutdown b = some 0

unfoldable pub compute_total_length : Buffer → Option ℕ
compute_total_length b = do
  type ← get_type b
  length ← payload_length (is_request b) type b
  some (u16 (sizeof_header + length + sizeof_canary))

unfoldable pub validate : Buffer → Option Bool
validate b = do
  length ← compute_total_length b
  some (
      if ltb length min_message_length || ltb max_message_length length
      then false
      else read32 b (length - sizeof_canary) == canary)

unfoldable pub finalize : Buffer → Option Buffer
finalize b = do
  length ← compute_total_length b
  if leb min_message_length length && leb length max_message_length
      then some (write32 (write16 b 0 length) (length - sizeof_canary) canary)
      else none
