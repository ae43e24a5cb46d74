-- ===== src/Framework/Fragment/Capture.antt =====
-- framework/fragment.cpp: the thread that sends captured packets to the orchestrator. A packet is its
-- bytes; what the queue and the socket give is an argument. A failed assertion is the result `none`, and
-- so is a thread that outlives its turns.
use fall23_p.Prelude.{
  ◌&&◌, ◌+◌, ◌-◌, ◌∷◌, ◌>>=◌, if◌then◌else◌, not, none, some, ltb, leb, Bool, Option, List, [], ℕ,
}
use fall23_p.Mixnet.Packet.{max_packet_size}
use fall23_p.Framework.ErrorCode.{ErrorCode, success, is_success}
use fall23_p.Framework.Buffer.{Buffer, read16}
use fall23_p.Framework.Message.{MessageType}
use fall23_p.Framework.Fragment.Header.{send_response}

-- The size that a packet starts with.
abbrev pub total_size : Buffer → ℕ
total_size packet = read16 packet 0

-- The packet in the payload of a message.
unfoldable pub pcap_payload : Buffer → Buffer → Buffer
pcap_payload packet b i = if leb 8 i && ltb i (8 + total_size packet) then packet (i - 8) else b i

-- One turn: keep_running, what the queue gives (`none` for the null pointer that ends it), the message
-- buffer, and the send.
pub record Turn : Type 0 where
  pub keep_running : Bool
  pub item : Option Buffer
  pub buffer : Buffer
  pub sends : Buffer → ErrorCode

-- The response for a packet.
unfoldable pub send_captured : ℕ → Turn → Buffer → Option ErrorCode
send_captured fid t packet =
    if ltb max_packet_size (total_size packet)
    then none
    else send_response fid MessageType.pcap_data success t.buffer
        (λ b. (success, pcap_payload packet b)) t.sends

-- The loop: the exit code of the thread.
pub worker_pcap : ℕ → ErrorCode → List Turn → Option ErrorCode
worker_pcap fid exit_code [] = none
worker_pcap fid exit_code (t ∷ turns) =
    if not t.keep_running then some exit_code else elim (t.item) [
      | none ↦ some exit_code
      | some packet ↦
          (send_captured fid t packet >>= λ code.
          if is_success code then worker_pcap fid code turns else some code)
    ]
