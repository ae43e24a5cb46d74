-- ===== src/Framework/Orchestrator/Pcap/Delivery.antt =====
-- framework/orchestrator.cpp and framework/fragment.cpp: captured packets on their way from a fragment
-- to the callback of the test case.
use mathlib.Core.Path.{subst}
use mathlib.Core.Option.{some-injective}
use fall23_p.Prelude.{
  ◌∷◌, ◌&&◌, if◌then◌else◌, zero, suc, false, refl, inl, inr, ap, All, Bool-cases, List, [], ◌>>=◌,
  ◌+◌, ◌-◌, ◌^◌, ◌≤◌, ◌<◌, ◌≡◌, ◌∙◌, true, some, sym, arith, ℕ,
}
use fall23_p.Framework.ErrorCode.{ErrorCode, success}
use fall23_p.Framework.Buffer.{Buffer, read16, read16-agree}
use fall23_p.Framework.Message.{MessageType, finalize}
use fall23_p.Framework.Message.Length.{payload_bytes}
use fall23_p.Framework.Fragment.Header
use fall23_p.Framework.Fragment.Capture.{total_size, pcap_payload}
use fall23_p.Framework.Orchestrator.Exchange.{check_header}
use fall23_p.Framework.Orchestrator.Headers.{Keeps}
use fall23_p.Framework.Orchestrator.Agreement.{response-check_header}
use fall23_p.Framework.Orchestrator.Pcap.{serve_pcap, PcapRound, delivers, receive_packet}

-- The receive gives a message that the fragment sealed for the packet, which may be as long as a node
-- may send.
abbrev pub Captured : ℕ → Buffer → ErrorCode × Buffer → Type 0
Captured fid packet (code, m) =
    (code ≡ success)
    × (2 ≤ total_size packet)
    × (total_size packet ≤ 4096)
    × ((b : Buffer) × (finalize
            (pcap_payload packet (Header.prepare_header b fid MessageType.pcap_data success))
          ≡ some m))

pub pcap_payload-Keeps : (packet b : Buffer) → Keeps b (pcap_payload packet b)
unfolding pcap_payload
pcap_payload-Keeps packet b i = ground arith

pcap_payload-size :
    (packet b : Buffer)
    → 2 ≤ total_size packet
    → read16 (pcap_payload packet b) 8 ≡ total_size packet
unfolding pcap_payload read16
pcap_payload-size packet b h = ground arith

pcap_payload-bytes :
    (packet b : Buffer) (i : ℕ) → i < total_size packet → pcap_payload packet b (8 + i) ≡ packet i
unfolding pcap_payload
pcap_payload-bytes packet b i h = let at : 8 + i - 8 ≡ i = omega arith in rw at (ground arith)

-- A message with the packet, as the orchestrator takes it.
record Arrives (fid : ℕ) (packet m : Buffer) : Type 0 where
  passes : check_header m true fid MessageType.pcap_data ≡ some success
  size : read16 m 8 ≡ total_size packet
  bytes : (i : ℕ) → i < total_size packet → m (8 + i) ≡ packet i

Captured-Arrives :
    (fid : ℕ) (packet : Buffer) (code : ErrorCode) (m : Buffer)
    → fid < 2 ^ 16
    → Captured fid packet (code, m)
    → Arrives fid packet m
unfolding payload_bytes
Captured-Arrives fid packet code m range (received, low, high, (b, sealed)) =
    let filled = pcap_payload packet (Header.prepare_header b fid MessageType.pcap_data success) in
    let size =
      pcap_payload-size packet (Header.prepare_header b fid MessageType.pcap_data success) low in
    let (m', sealed', passes, same) =
      response-check_header b true fid MessageType.pcap_data (pcap_payload packet) range
        (pcap_payload-Keeps packet (Header.prepare_header b fid MessageType.pcap_data success))
        (omega (arith, size)) (omega (arith, size)) in
    let is_m : m' ≡ m = some-injective _ _ (sym sealed' ∙ sealed) in
    let same' : (i : ℕ) → 8 ≤ i → i < 8 + total_size packet → m i ≡ filled i =
      λ i from to. subst (λ t. t i ≡ filled i) is_m (ground (arith, same i, size)) in
    record {
      passes =
          subst (λ t. check_header t true fid MessageType.pcap_data ≡ some success) is_m passes;
      size =
          read16-agree filled m 8 (same' 8 (omega arith) (omega arith))
            (same' 9 (omega arith) (omega arith))
          ∙ size;
      bytes = λ i below.
          same' (8 + i) (omega arith) (omega arith)
          ∙ pcap_payload-bytes packet (Header.prepare_header b fid MessageType.pcap_data success) i
              below;
    }

receive_packet-delivers :
    (fid : ℕ) (packet : Buffer) (m : Buffer)
    → total_size packet ≤ 4096
    → Arrives fid packet m
    → receive_packet fid (success, m) ≡ some (delivers m)
unfolding receive_packet
receive_packet-delivers fid packet m high h = rw (h.passes, ◌>>=◌) (ground (arith, h.size))

-- The fragments that are subscribed and have sent something, from `fid` with `k` left.
pub wanted : PcapRound → ℕ → ℕ → List ℕ
wanted r fid zero = []
wanted r fid (suc k) =
    let rest = wanted r (fid + 1) k in
    if r.readable fid && r.subscribed fid then fid ∷ rest else rest

-- A message for the callback that holds the packet of its fragment.
abbrev pub Holds : (ℕ → Buffer) → ℕ × Buffer → Type 0
Holds packets (fid, m) =
    (read16 m 8 ≡ total_size (packets fid))
    × ((i : ℕ) → i < total_size (packets fid) → m (8 + i) ≡ packets fid i)

abbrev pub sources : List (ℕ × Buffer) → List ℕ
sources [] = []
sources ((fid, m) ∷ out) = fid ∷ sources out

module _ (r : PcapRound) (packets : ℕ → Buffer) where
  serve_other :
      (fid k : ℕ) (code : ErrorCode)
      → (r.readable fid && r.subscribed fid) ≡ false
      → (serve_pcap r fid (suc k) code ≡ serve_pcap r (fid + 1) k code)
        × (wanted r fid (suc k) ≡ wanted r (fid + 1) k)
  unfolding serve_pcap wanted
  serve_other fid k code other = (rw other refl, rw other refl)

  serve_wanted :
      (fid k : ℕ) (code e : ErrorCode) (m : Buffer) (out : List (ℕ × Buffer))
      → (r.readable fid && r.subscribed fid) ≡ true
      → receive_packet fid (r.receives fid) ≡ some (delivers m)
      → serve_pcap r (fid + 1) k success ≡ some (e, out)
      → (serve_pcap r fid (suc k) code ≡ some (e, (fid, m) ∷ out))
        × (wanted r fid (suc k) ≡ fid ∷ wanted r (fid + 1) k)
  unfolding serve_pcap wanted
  serve_wanted fid k code e m out ready received rest =
      (rw ready (rw (received, ◌>>=◌) (rw (rest, ◌>>=◌) refl)), rw ready refl)

  serve_from-Holds :
      (k fid : ℕ)
      → fid + k ≤ 2 ^ 16
      → ((i : ℕ)
          → i < fid + k
          → (r.readable i && r.subscribed i) ≡ true
          → Captured i (packets i) (r.receives i))
      → (out : List (ℕ × Buffer)) × (serve_pcap r fid k success ≡ some (success, out))
        × (sources out ≡ wanted r fid k)
        × All (Holds packets) out
  unfolding serve_pcap wanted
  serve_from-Holds zero fid range captured = ([], refl, refl, tt)
  serve_from-Holds (suc k) fid range captured =
      let (out, served, from, holds) =
        serve_from-Holds k (fid + 1) (omega arith) (λ i below. captured i (omega arith)) in
      elim (Bool-cases (r.readable fid && r.subscribed fid)) [
        | inr other ↦
            let (skips, skipped) = serve_other fid k success other in
            (out, skips ∙ served, from ∙ sym skipped, holds)
        | inl ready ↦
            let c = captured fid (omega arith) ready in
            let m = (r.receives fid).1 in
            let arrives = Captured-Arrives fid (packets fid) (r.receives fid).0 m (omega arith) c in
            let received : receive_packet fid (r.receives fid) ≡ some (delivers m) =
              ap (λ x. receive_packet fid (x, m)) c.0
              ∙ receive_packet-delivers fid (packets fid) m c.2 arrives in
            let (takes, taken) = serve_wanted fid k success success m out ready received served in
            (
              (fid, m) ∷ out,
              takes,
              ap (◌∷◌ fid) from ∙ sym taken,
              ((arrives.size, arrives.bytes), holds),
            )
      ]

  -- In a round of the capture thread in which every fragment that is subscribed and has sent something
  -- has sent a captured packet, of 2 to 4096 bytes, each of them reaches the callback: once, in the order
  -- of the fragments, with the size and the bytes of the packet captured there. There are at most 65536
  -- fragments.
  pub serve_pcap-delivers :
      (n : ℕ)
      → n ≤ 2 ^ 16
      → ((i : ℕ)
          → i < n
          → (r.readable i && r.subscribed i) ≡ true
          → Captured i (packets i) (r.receives i))
      → (out : List (ℕ × Buffer)) × (serve_pcap r 0 n success ≡ some (success, out))
        × (sources out ≡ wanted r 0 n)
        × All (Holds packets) out
  serve_pcap-delivers n range captured =
      serve_from-Holds n 0 (omega arith) (λ i below. captured i (omega arith))
