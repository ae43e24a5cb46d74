-- ===== src/Framework/Orchestrator/Pcap.antt =====
-- framework/orchestrator.cpp: the subscriptions to captured packets, and the thread that receives them.
-- What the sockets give, and what other threads write, is an argument. A failed assertion is the result
-- `none`, and so is a loop that outlives its turns.
pub mod Delivery
use fall23_p.Prelude.{
  ◌&&◌, ◌+◌, ◌∷◌, ◌++◌, ◌>>=◌, if◌then◌else◌, zero, suc, true, false, not, none, some, ltb, load,
  store, Bool, Option, List, [], ℕ,
}
use fall23_p.Mixnet.Packet.{max_packet_size}
use fall23_p.Framework.ErrorCode.{
  ErrorCode, success, is_success, poll_error, recv_zero_pending, mixnet_bad_packet_size,
}
use fall23_p.Framework.Buffer.{Buffer, read16}
use fall23_p.Framework.Arrays.{write8}
use fall23_p.Framework.Message.{MessageType}
use fall23_p.Framework.Orchestrator.Exchange.{Peer, check_header, fragment_request_response}
use fall23_p.Framework.Orchestrator.Fragments.{Fragments, FragmentMetadata}

unfoldable pub subscription_payload : Bool → Buffer → Buffer
subscription_payload subscribe b = write8 b 8 (if subscribe then 1 else 0)

abbrev same_bool : Bool → Bool → Bool
same_bool true true = true
same_bool false false = true
same_bool _ _ = false

-- The fragments are changed before the request, and stay so if it fails.
pub pcap_change_subscription : Peer → Buffer → Fragments → ℕ → Bool → Option (ErrorCode × Fragments)
pcap_change_subscription peer b fragments idx subscribe = do
  f ← load fragments idx
  if same_bool f.is_pcap_subscribed subscribe then some (success, fragments) else (do
    fs ← store fragments idx (record f { is_pcap_subscribed = subscribe })
    code ←
        fragment_request_response peer b idx MessageType.pcap_subscription
          (subscription_payload subscribe)
    some (code, fs))

-- What a receive from a fragment comes to: a packet for the callback, nothing, or the end of the loop.
pub data Step : Type 0 where
  delivers : Buffer → Step
  ignores : Step
  stops : ErrorCode → Step

abbrev failed_receive : ErrorCode → Step
failed_receive recv_zero_pending = ignores
failed_receive code = stops code

unfoldable pub receive_packet : ℕ → ErrorCode × Buffer → Option Step
receive_packet fid (code, m) =
    if not (is_success code)
    then some (failed_receive code)
    else (check_header m true fid MessageType.pcap_data >>= λ header.
        if not (is_success header)
        then some (stops header)
        else if ltb max_packet_size (read16 m 8)
        then some (stops mixnet_bad_packet_size)
        else some (delivers m))

-- One round of the thread: whether poll fails, which descriptors have the events POLLIN alone, who is
-- subscribed, and what each receive gives and leaves in the buffer.
pub record PcapRound : Type 0 where
  pub poll_fails : Bool
  pub readable : ℕ → Bool
  pub subscribed : ℕ → Bool
  pub receives : ℕ → ErrorCode × Buffer

-- The loop over the fragments, from the fragment `fid` with `k` left: the error code, and the messages
-- for the callback.
pub serve_pcap : PcapRound → ℕ → ℕ → ErrorCode → Option (ErrorCode × List (ℕ × Buffer))
serve_pcap r fid zero code = some (code, [])
serve_pcap r fid (suc k) code =
    if not (r.readable fid && r.subscribed fid)
    then serve_pcap r (fid + 1) k code
    else (receive_packet fid (r.receives fid) >>= λ step. elim step [
      | stops e ↦ some (e, [])
      | ignores ↦ serve_pcap r (fid + 1) k success
      | delivers m ↦ (serve_pcap r (fid + 1) k success >>= λ (e, out). some (e, (fid, m) ∷ out))
    ])

-- The thread, with the rounds and the value of pcap_thread_run_ before each: the error code that
-- it leaves, and all messages for the callback.
pub pcap_thread_loop :
    ℕ → ErrorCode → List (Bool × PcapRound) → Option (ErrorCode × List (ℕ × Buffer))
pcap_thread_loop n code [] = if is_success code then none else some (code, [])
pcap_thread_loop n code ((run, r) ∷ rounds) =
    if not (run && is_success code)
    then some (code, [])
    else (serve_pcap r 0 n (if r.poll_fails then poll_error else success) >>= λ (e, out).
        pcap_thread_loop n e rounds >>= λ (e', out'). some (e', out ++ out'))
