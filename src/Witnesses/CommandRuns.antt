-- ===== src/Witnesses/CommandRuns.antt =====
-- framework/fragment.cpp and framework/orchestrator.cpp: one command, and one captured packet.
use fall23_p.Prelude.{
  ℕ, zero, suc, ◌<◌, ◌≡◌, ◌==◌, ◌&&◌, ◌∷◌, true, false, not, none, some, refl, inr, arith, All,
  List, [],
}
use mathlib.Core.Path.{subst}
use fall23_p.Mixnet.Config.{default_config}
use fall23_p.Framework.ErrorCode.{ErrorCode, success}
use fall23_p.Framework.Buffer.{Buffer, read16}
use fall23_p.Framework.Message.{MessageType, finalize}
use fall23_p.Framework.Message.Length.{payload_bytes}
use fall23_p.Framework.Fragment.Header
use fall23_p.Framework.Fragment.NodeContext.{NodeContext}
use fall23_p.Framework.Fragment.Testcase.{Turn, Handled}
use fall23_p.Framework.Fragment.Capture.{pcap_payload}
use fall23_p.Framework.Orchestrator.Exchange
use fall23_p.Framework.Orchestrator.Agreement.{request-check_header, response-check_header}
use fall23_p.Framework.Orchestrator.Pcap.{PcapRound, serve_pcap}
use fall23_p.Framework.Orchestrator.Pcap.Delivery.{
  Captured, wanted, Holds, sources, pcap_payload-Keeps, serve_pcap-delivers,
}

abbrev zeros : Buffer
zeros i = 0

-- The request of a subscription to the packets of the fragment 3.
subscription :
    (m : Buffer) × (Header.check_header 3 true true m MessageType.pcap_subscription ≡ some success)
unfolding payload_bytes
subscription =
    let (m, _, passes, _) =
      request-check_header zeros 3 MessageType.pcap_subscription (λ b. b) (omega arith)
        (λ i. inr refl) tt (omega arith) in
    (m, passes)

abbrev context : NodeContext
context = record {
  config = record default_config { node_addr = 7; num_neighbors = 2 };
  rx_port_idx = 1;
  link_states = true ∷ true ∷ [];
  is_pcap_subscribed = true;
}

abbrev turn : Turn
turn = record {
  received = (success, subscription.0);
  sends = λ m. success;
  drains = [];
  user_room = true;
  pcap_room = true;
  threads_end = true;
  thread_exited = false;
}

abbrev subscribed_by : Buffer → Handled
subscribed_by m = record {
  context = record context { is_pcap_subscribed = not (m 8 == 0) };
  code = success;
  do_respond = true;
  end_testcase = false;
  packet = none;
}

-- A packet of 12 bytes.
abbrev twelve_bytes : Buffer
twelve_bytes zero = 12
twelve_bytes (suc i) = 0

captured :
    (m : Buffer) × (finalize
        (pcap_payload twelve_bytes (Header.prepare_header zeros 1 MessageType.pcap_data success))
      ≡ some m)
unfolding payload_bytes pcap_payload read16
captured =
    let prepared = Header.prepare_header zeros 1 MessageType.pcap_data success in
    let (m, sealed, _, _) =
      response-check_header zeros true 1 MessageType.pcap_data (pcap_payload twelve_bytes)
        (omega arith) (pcap_payload-Keeps twelve_bytes prepared) (ground arith) (ground arith) in
    (m, sealed)

-- The fragment 1 of two has sent a packet.
abbrev round : PcapRound
round = record {
  poll_fails = false;
  readable = λ i. i == 1;
  subscribed = λ i. true;
  receives = λ i. (success, captured.0);
}

abbrev packets : ℕ → Buffer
packets i = twelve_bytes

round-Captured :
    (i : ℕ)
    → i < 2
    → (round.readable i && round.subscribed i) ≡ true
    → Captured i (packets i) (round.receives i)
unfolding read16
round-Captured i below ready =
    let first : 1 ≡ i = ground (arith, ready) in
    subst (λ j. Captured j (packets j) (round.receives j)) first
      (refl, omega arith, omega arith, (zeros, captured.1))

serve_pcap-delivers_example :
    (out : List (ℕ × Buffer)) × (serve_pcap round 0 2 success ≡ some (success, out))
    × (sources out ≡ wanted round 0 2)
    × All (Holds packets) out
serve_pcap-delivers_example = serve_pcap-delivers round packets 2 (omega arith) round-Captured
