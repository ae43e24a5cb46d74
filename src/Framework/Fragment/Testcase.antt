-- ===== src/Framework/Fragment/Testcase.antt =====
-- framework/fragment.cpp: the loop in which a fragment serves the orchestrator's commands, and the
-- thread that sends captured packets. What the sockets, the queues and the threads give is an argument.
-- A failed assertion is the result `none`, and so is a loop that outlives its turns.
pub mod Responses
pub mod Reports
use fall23_p.Prelude.{
  ◌&&◌, ◌||◌, ◌∷◌, ◌==◌, ◌>>=◌, if◌then◌else◌, true, false, not, none, some, Bool, Option, List, [],
  ℕ,
}
use fall23_p.Framework.ErrorCode.{
  ErrorCode, success, is_success, bad_message_code, fragment_exception,
  fragment_threads_nonresponsive, recv_wait_timeout,
}
use fall23_p.Framework.Buffer.{Buffer, read16}
use fall23_p.Framework.Message.{MessageType, get_type}
use fall23_p.Framework.Fragment.Header.{recv_request, send_response}
use fall23_p.Framework.Fragment.NodeContext.{NodeContext}
use fall23_p.Framework.Fragment.Setup.{bare}
use fall23_p.Framework.Orchestrator.Packets.{send_packet_of}
use fall23_p.Framework.Fragment.Tasks.{
  UserPacket, task_send_packet, task_update_link_state, task_update_pcap_subscription,
}

-- What one turn of the loop meets: the request, the send of the response, what _recv_once answers when
-- a link goes down, whether the queues have room, whether the threads have exited when the test case
-- ends, and whether one of them has exited after the turn.
pub record Turn : Type 0 where
  pub received : ErrorCode × Buffer
  pub sends : Buffer → ErrorCode
  pub drains : List ErrorCode
  pub user_room : Bool
  pub pcap_room : Bool
  pub threads_end : Bool
  pub thread_exited : Bool

unfoldable pub task_end_testcase : Bool → Bool → ErrorCode
task_end_testcase pcap_room threads_end =
    if not pcap_room
    then fragment_exception
    else if threads_end
    then success
    else fragment_threads_nonresponsive

-- What a command leaves: the context, the error code, whether there is a response, whether the test
-- case ends, and a packet for the node.
pub record Handled : Type 0 where
  pub context : NodeContext
  pub code : ErrorCode
  pub do_respond : Bool
  pub end_testcase : Bool
  pub packet : Option UserPacket

-- The switch on the message type.
unfoldable pub handle_command : NodeContext → Turn → Buffer → MessageType → Option Handled
handle_command ctx t m MessageType.change_link_state = do
  done ← task_update_link_state ctx (read16 m 8) (not (m 10 == 0)) t.drains
  some (record {
    context = done.0;
    code = done.1;
    do_respond = true;
    end_testcase = false;
    packet = none;
  })
handle_command ctx t m MessageType.pcap_subscription =
    let done = task_update_pcap_subscription ctx (not (m 8 == 0)) in
    some (record {
      context = done.0;
      code = done.1;
      do_respond = true;
      end_testcase = false;
      packet = none;
    })
handle_command ctx t m MessageType.send_packet = do
  done ← task_send_packet (send_packet_of m) t.user_room
  some (record {
    context = ctx;
    code = done.0;
    do_respond = true;
    end_testcase = false;
    packet = done.1;
  })
handle_command ctx t m MessageType.end_testcase =
    let code = task_end_testcase t.pcap_room t.threads_end in
    some (record {
      context = ctx;
      code = code;
      do_respond = is_success code;
      end_testcase = true;
      packet = none;
    })
handle_command ctx t m _ = some (record {
  context = ctx;
  code = bad_message_code;
  do_respond = false;
  end_testcase = false;
  packet = none;
})

-- The response to a command: its code is then that of the send.
unfoldable pub respond : ℕ → Turn → MessageType → Handled → Option ErrorCode
respond fid t type h =
    if h.do_respond then send_response fid type h.code t.received.1 bare t.sends else some h.code

-- The check on the helper threads.
unfoldable pub check_threads : Turn → Handled → ErrorCode → ErrorCode
check_threads t h code = if not h.end_testcase && t.thread_exited then fragment_exception else code

-- One turn: the context, the error code, whether the loop is over, and a packet for the node.
unfoldable pub serve_turn :
    ℕ → NodeContext → Turn → Option (NodeContext × ErrorCode × Bool × Option UserPacket)
serve_turn fid ctx t = do
  requested ← recv_request fid true false MessageType.noop t.received (λ m. some success)
  if not (is_success requested)
      then (elim requested [ recv_wait_timeout ↦ none | other ↦ some (ctx, other, true, none) ])
      else (do
        type ← get_type t.received.1
        h ← handle_command ctx t t.received.1 type
        sent ← respond fid t type h
        some (
          h.context,
          check_threads t h sent,
          h.end_testcase || not (is_success (check_threads t h sent)),
          h.packet,
        ))

-- The loop: the context, the error code, and the packets for the node.
pub run_state_run_testcase :
    ℕ → NodeContext → List Turn → Option (NodeContext × ErrorCode × List (Option UserPacket))
run_state_run_testcase fid ctx [] = none
run_state_run_testcase fid ctx (t ∷ turns) = serve_turn fid ctx t >>= λ (ctx', code, over, packet).
    if over
    then some (ctx', code, packet ∷ [])
    else (run_state_run_testcase fid ctx' turns >>= λ (ctx'', code', packets).
        some (ctx'', code', packet ∷ packets))
