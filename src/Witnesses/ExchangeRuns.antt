-- ===== src/Witnesses/ExchangeRuns.antt =====
-- framework/orchestrator.cpp in exchange with fragments that answer.
use fall23_p.Prelude.{
  ℕ, ◌<◌, ◌≡◌, ◌≤◌, ◌⊎◌, ◌↔◌, inr, true, List, [], ◌∷◌, some, All, length, refl, arith, ◌+◌, false,
}
use fall23_p.Framework.ErrorCode.{ErrorCode, success}
use fall23_p.Framework.Buffer.{Buffer}
use fall23_p.Framework.Message.{MessageType, start_testcase, finalize}
use fall23_p.Framework.Message.Length.{payload_bytes}
use fall23_p.Framework.Fragment.Header
use fall23_p.Testing.Graph.{Graph}
use fall23_p.Framework.Orchestrator.Exchange
use fall23_p.Framework.Orchestrator.Agreement.{
  fragment_peer, response-check_header, fragment_request_response-success,
}
use fall23_p.Framework.Orchestrator.Broadcast.{
  Fills, IsAccepted, IsBelow, IsDone, recipients, numbers_from, foreach_fragment_send_generic,
  foreach_fragment_send_generic-success,
}
use fall23_p.Framework.Orchestrator.Packets.{
  Holds, send_packet, send_packet_of, send_packet-delivers,
}
use fall23_p.Framework.Orchestrator.Commands.{
  change_link_state, AsksLink, change_link_state-AsksLink,
}

abbrev zeros : Buffer
zeros i = 0

-- A message without a payload.
abbrev plain : Buffer → Buffer
plain b = b

abbrev bare_request : Buffer
bare_request = Exchange.prepare_header zeros 3 start_testcase

abbrev bare_response : Buffer
bare_response = Header.prepare_header zeros 3 start_testcase success

response-check_header_example :
    (m : Buffer) × (finalize bare_response ≡ some m)
    × (Exchange.check_header m true 3 start_testcase ≡ some success)
    × ((i : ℕ)
        → (i < 2)
          ⊎ ((8 + payload_bytes false start_testcase bare_response ≤ i) ⊎ (m i ≡ bare_response i)))
unfolding payload_bytes
response-check_header_example =
    response-check_header zeros true 3 start_testcase plain (omega arith) (λ i. inr refl) tt
      (omega arith)

fragment_request_response-success_example :
    Exchange.fragment_request_response
      (fragment_peer 3 start_testcase zeros plain)
      zeros
      3
      start_testcase
      plain
    ≡ some success
unfolding payload_bytes
fragment_request_response-success_example =
    fragment_request_response-success zeros zeros 3 start_testcase plain plain (omega arith)
      (λ i. inr refl) tt (omega arith) (λ i. inr refl) tt (omega arith)

abbrev plain_fills : ℕ → Buffer → Buffer
plain_fills i b = b

plain_fills-Fills : Fills start_testcase plain_fills
unfolding payload_bytes
plain_fills-Fills i b = (λ j. inr refl, tt, omega arith)

abbrev takes_all : ℕ → Buffer → ErrorCode
takes_all i m = success

abbrev clock : ℕ → ℕ
clock i = 1000

foreach_fragment_send_generic-success_example :
    (out : List (ℕ × Buffer)) × (code : ErrorCode) × (foreach_fragment_send_generic plain_fills
        takes_all clock 3 start_testcase 1000 zeros
      ≡ some (out, code))
    × All (IsAccepted start_testcase plain_fills) out
    × All (IsBelow 3) out
    × (recipients out ≡ numbers_from 0 (length out))
    × ((code ≡ success) ↔ ((length out ≡ 3) × All (IsDone takes_all) out))
foreach_fragment_send_generic-success_example =
    foreach_fragment_send_generic-success start_testcase plain_fills plain_fills-Fills takes_all
      clock 3 1000 zeros (omega arith)

-- Three nodes in a line.
abbrev line_of_three : List (List ℕ)
line_of_three = (1 ∷ []) ∷ (0 ∷ 2 ∷ []) ∷ (1 ∷ []) ∷ []

abbrev zero_buffers : ℕ → Buffer
zero_buffers fid = zeros

abbrev fragments : ℕ → Exchange.Peer
fragments fid = fragment_peer fid MessageType.change_link_state (zero_buffers fid) plain

change_link_state-AsksLink_example :
    (m : Buffer) × (m' : Buffer) × (change_link_state line_of_three fragments zeros zeros 1 2 true
      ≡ some (success, (1, m) ∷ (2, m') ∷ []))
    × AsksLink (0 ∷ 2 ∷ []) 1 2 true m
    × AsksLink (1 ∷ []) 2 1 true m'
change_link_state-AsksLink_example =
    change_link_state-AsksLink line_of_three fragments zeros zeros 1 2 true (0 ∷ 2 ∷ []) (1 ∷ []) 1
      0 zero_buffers plain refl refl refl refl (omega arith) (omega arith) (omega arith)
      (omega arith) (λ c i. inr refl) (λ fid. refl)

-- Three bytes of data from the node 7 to the node 4.
abbrev three_bytes : List ℕ
three_bytes = 10 ∷ 11 ∷ 12 ∷ []

abbrev data_type : ℕ
data_type = 3

-- Two nodes with the addresses 7 and 4.
abbrev two_nodes : Graph
two_nodes = record {
  num_nodes = 2;
  nodes =
      record { mixing_factor = 1; do_random_routing = false; link_costs = []; mixaddr = 7 }
      ∷ record { mixing_factor = 1; do_random_routing = false; link_costs = []; mixaddr = 4 }
      ∷ [];
  topology = (1 ∷ []) ∷ (0 ∷ []) ∷ [];
}

abbrev packet_peers : ℕ → Exchange.Peer
packet_peers fid = fragment_peer fid MessageType.send_packet zeros plain

send_packet-delivers_example :
    (m : Buffer) × (send_packet two_nodes packet_peers zeros 0 1 data_type three_bytes
      ≡ some (success, (0, m) ∷ []))
    × (Header.check_header 0 true true m MessageType.send_packet ≡ some success)
    × (send_packet_of m
        ≡ record { type = data_type; src_mixaddr = 7; dst_mixaddr = 4; data_length = 3 })
    × Holds m 16 three_bytes
send_packet-delivers_example =
    send_packet-delivers two_nodes packet_peers zeros zeros 0 1
      (record { mixing_factor = 1; do_random_routing = false; link_costs = []; mixaddr = 7 })
      (record { mixing_factor = 1; do_random_routing = false; link_costs = []; mixaddr = 4 })
      data_type three_bytes plain refl refl refl (omega arith) (omega arith) (omega arith)
      (omega arith) (omega arith) (λ i. inr refl)
