-- ===== src/Framework/Orchestrator/Packets.antt =====
-- framework/orchestrator.cpp, send_packet: a packet that a test case injects at a node.
use fall23_p.Prelude.{
  ℕ, ◌+◌, ◌-◌, ◌^◌, ◌<◌, ◌≤◌, ◌≡◌, ◌&&◌, ◌>>=◌, List, [], ◌∷◌, Option, some, none, if◌then◌else◌,
  load, length, leb, ltb, arith, ◌⊎◌, ap, true, ◌∙◌, false, suc, refl, in_bounds-load,
}
use fall23_p.Testing.Graph.{Graph, GraphNode}
use fall23_p.Mixnet.Packet.{max_data_size}
use fall23_p.Framework.ErrorCode.{ErrorCode, bad_testcase, success}
use fall23_p.Framework.Buffer.{Buffer, read16, write16}
use fall23_p.Framework.Message.{MessageType}
use fall23_p.Framework.Fragment.Header
use fall23_p.Framework.Message.Length.{payload_bytes}
use fall23_p.Framework.Fragment.Tasks.{SendPacket}
use fall23_p.Framework.Orchestrator.Exchange.{
  Peer, fragment_request_response, request, exchange, exchange-sent,
}
use fall23_p.Framework.Orchestrator.Agreement.{
  fragment_peer, request-check_header, fragment_request_response-success,
}
use fall23_p.Framework.Orchestrator.Exchange
use fall23_p.Framework.Orchestrator.Headers.{Keeps}

-- The payload: the header fields of the request and the data behind them.
unfoldable pub packet_payload : ℕ → ℕ → ℕ → List ℕ → Buffer → Buffer
packet_payload type src dst bytes b i =
    if leb 16 i && ltb i (16 + length bytes)
    then elim (load bytes (i - 16)) [ some v ↦ v | none ↦ 0 ]
    else write16 (write16 (write16 (write16 b 8 type) 10 src) 12 dst) 14 (length bytes) i

-- The graph's nodes have the Mixnet addresses; a number without a node throws in get_node. The result is
-- the error code and the message sent, with its fragment.
pub send_packet :
    Graph → (ℕ → Peer) → Buffer → ℕ → ℕ → ℕ → List ℕ → Option (ErrorCode × List (ℕ × Buffer))
send_packet g peers b src_idx dst_idx type bytes =
    if ltb max_data_size (length bytes) then some (bad_testcase, []) else (do
      src ← load g.nodes src_idx
      dst ← load g.nodes dst_idx
      exchange (peers src_idx) b src_idx MessageType.send_packet
          (packet_payload type src.mixaddr dst.mixaddr bytes))

-- The request as the fragment reads it.
unfoldable pub send_packet_of : Buffer → SendPacket
send_packet_of m = record {
  type = read16 m 8;
  src_mixaddr = read16 m 10;
  dst_mixaddr = read16 m 12;
  data_length = read16 m 14;
}

-- The bytes of a list stand in a message from the place `o` on.
abbrev pub Holds : Buffer → ℕ → List ℕ → Type 0
Holds m o [] = Unit {0}
Holds m o (v ∷ vs) = (m o ≡ v) × Holds m (o + 1) vs

Holds-of_load :
    (m : Buffer) (o : ℕ) (bytes : List ℕ)
    → ((k v : ℕ) → load bytes k ≡ some v → m (o + k) ≡ v)
    → Holds m o bytes
Holds-of_load m o [] h = tt
Holds-of_load m o (v ∷ vs) h =
    let first : o ≡ o + 0 = omega arith in
    (
      ap m first ∙ h 0 v refl,
      Holds-of_load m (o + 1) vs
          (λ k w e. let next : o + 1 + k ≡ o + suc k = omega arith in ap m next ∙ h (suc k) w e),
    )

module _ (type src dst : ℕ) (bytes : List ℕ) (type_range : type < 2 ^ 16) (src_range : src < 2 ^ 16)
    (dst_range : dst < 2 ^ 16) (fits : length bytes ≤ max_data_size) where
  packet_payload-Keeps : (b : Buffer) → Keeps b (packet_payload type src dst bytes b)
  unfolding packet_payload write16
  packet_payload-Keeps b i = ground arith

  packet_payload-fields :
      (b : Buffer)
      → send_packet_of (packet_payload type src dst bytes b)
        ≡ record { type = type; src_mixaddr = src; dst_mixaddr = dst; data_length = length bytes }
  unfolding packet_payload write16 read16 send_packet_of
  packet_payload-fields b = ground arith

  packet_payload-data :
      (b : Buffer) (k v : ℕ)
      → load bytes k ≡ some v
      → k < length bytes
      → packet_payload type src dst bytes b (16 + k) ≡ v
  unfolding packet_payload
  packet_payload-data b k v there below =
      let at : 16 + k - 16 ≡ k = omega arith in ground (arith, at)

  length_field : (b : Buffer) → read16 (packet_payload type src dst bytes b) 14 ≡ length bytes
  unfolding send_packet_of
  length_field b = ap SendPacket.data_length (packet_payload-fields b)

  -- Two messages with the same payload carry the same request.
  same_request :
      (m c : Buffer)
      → ((i : ℕ) → (i < 2) ⊎ ((16 + length bytes ≤ i) ⊎ (m i ≡ c i)))
      → send_packet_of m ≡ send_packet_of c
  unfolding send_packet_of read16
  same_request m c same =
      ground (arith, same 8, same 9, same 10, same 11, same 12, same 13, same 14, same 15)

  same_bytes :
      (m c : Buffer)
      → read16 c 14 ≡ length bytes
      → ((i : ℕ) → (i < 2) ⊎ ((8 + (8 + read16 c 14) ≤ i) ⊎ (m i ≡ c i)))
      → (i : ℕ) → (i < 2) ⊎ ((16 + length bytes ≤ i) ⊎ (m i ≡ c i))
  same_bytes m c field same i = ground (arith, same i)

  same_byte :
      (m c : Buffer) (k : ℕ)
      → k < length bytes
      → ((i : ℕ) → (i < 2) ⊎ ((16 + length bytes ≤ i) ⊎ (m i ≡ c i)))
      → m (16 + k) ≡ c (16 + k)
  same_byte m c k below same = ground (arith, same (16 + k))

  -- The request passes the fragment's check and carries what is asked for.
  packet_request :
      (b : Buffer) (src_idx : ℕ)
      → src_idx < 2 ^ 16
      → (m : Buffer) × (request b src_idx MessageType.send_packet
            (packet_payload type src dst bytes)
          ≡ some m)
        × (Header.check_header src_idx true true m MessageType.send_packet ≡ some success)
        × (send_packet_of m ≡ record {
          type = type;
          src_mixaddr = src;
          dst_mixaddr = dst;
          data_length = length bytes;
        })
        × Holds m 16 bytes
  unfolding payload_bytes
  packet_request b src_idx range =
      let prepared = Exchange.prepare_header b src_idx MessageType.send_packet in
      let filled = packet_payload type src dst bytes prepared in
      let size : 12 + (8 + read16 filled 14) < 2 ^ 16 = rw (length_field prepared) (omega arith) in
      let (m, sent, checked, same) =
        request-check_header b src_idx MessageType.send_packet (packet_payload type src dst bytes)
          range (packet_payload-Keeps prepared) tt size in
      let same' = same_bytes m filled (length_field prepared) same in
      (
        m,
        sent,
        checked,
        same_request m filled same' ∙ packet_payload-fields prepared,
        Holds-of_load m 16 bytes (λ k v there.
            let below = in_bounds-load bytes k there in
            same_byte m filled k below same' ∙ packet_payload-data prepared k v there below),
      )

  packet_exchange :
      (b b' : Buffer) (src_idx : ℕ) (reply : Buffer → Buffer)
      → src_idx < 2 ^ 16
      → Keeps
          (Header.prepare_header b' src_idx MessageType.send_packet success)
          (reply (Header.prepare_header b' src_idx MessageType.send_packet success))
      → fragment_request_response
          (fragment_peer src_idx MessageType.send_packet b' reply)
          b
          src_idx
          MessageType.send_packet
          (packet_payload type src dst bytes)
        ≡ some success
  unfolding payload_bytes
  packet_exchange b b' src_idx reply range keeps =
      let prepared = Exchange.prepare_header b src_idx MessageType.send_packet in
      let size : 12 + (8 + read16 (packet_payload type src dst bytes prepared) 14) < 2 ^ 16 =
        rw (length_field prepared) (omega arith) in
      fragment_request_response-success b b' src_idx MessageType.send_packet
        (packet_payload type src dst bytes) reply range (packet_payload-Keeps prepared) tt size
        keeps tt (omega arith)

-- A packet that a test case injects at one node for another, with data no longer than the limit,
-- reaches the fragment of the first, which answers: the call succeeds and sends that fragment one
-- message, which passes the fragment's header check and carries the type, the addresses of the two
-- nodes in the graph, the length and the bytes of the data. Type, addresses and
-- the fragment's number fit 16 bits, and the response leaves the header alone.
pub send_packet-delivers :
    (g : Graph) (peers : ℕ → Peer) (b b' : Buffer) (src_idx dst_idx : ℕ) (src dst : GraphNode)
    (type : ℕ) (bytes : List ℕ) (reply : Buffer → Buffer)
    → load g.nodes src_idx ≡ some src
    → load g.nodes dst_idx ≡ some dst
    → peers src_idx ≡ fragment_peer src_idx MessageType.send_packet b' reply
    → type < 2 ^ 16
    → src.mixaddr < 2 ^ 16
    → dst.mixaddr < 2 ^ 16
    → src_idx < 2 ^ 16
    → length bytes ≤ max_data_size
    → Keeps
        (Header.prepare_header b' src_idx MessageType.send_packet success)
        (reply (Header.prepare_header b' src_idx MessageType.send_packet success))
    → (m : Buffer) × (send_packet g peers b src_idx dst_idx type bytes
        ≡ some (success, (src_idx, m) ∷ []))
      × (Header.check_header src_idx true true m MessageType.send_packet ≡ some success)
      × (send_packet_of m ≡ record {
        type = type;
        src_mixaddr = src.mixaddr;
        dst_mixaddr = dst.mixaddr;
        data_length = length bytes;
      })
      × Holds m 16 bytes
unfolding send_packet
send_packet-delivers g peers b b' src_idx dst_idx src dst type bytes reply at_src at_dst answers
      type_range src_range dst_range range fits keeps =
    let fill = packet_payload type src.mixaddr dst.mixaddr bytes in
    let (m, sent, checked, fields, byte) =
      packet_request type src.mixaddr dst.mixaddr bytes type_range src_range dst_range fits b
        src_idx range in
    let allowed : ltb max_data_size (length bytes) ≡ false = ground arith in
    let done =
      packet_exchange type src.mixaddr dst.mixaddr bytes type_range src_range dst_range fits b b'
        src_idx reply range keeps in
    let exchanged =
      exchange-sent (peers src_idx) b src_idx MessageType.send_packet fill m success sent
        (rw answers done) in
    (m, rw allowed (rw (at_src, ◌>>=◌) (rw (at_dst, ◌>>=◌) exchanged)), checked, fields, byte)
