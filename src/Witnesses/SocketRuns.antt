-- ===== src/Witnesses/SocketRuns.antt =====
-- framework/networking.cpp on short messages.
use fall23_p.Prelude.{ℕ, some, ◌≢◌, false, ◌∷◌, List, arith, [], true, ◌≡◌, refl}
use fall23_p.Framework.ErrorCode.{ErrorCode, success, ctrl_connection_broken, recv_zero_pending}
use fall23_p.Framework.Networking.{Config, rx_tx_blocking, rx_try_once, validate}
use fall23_p.Framework.Networking.Send.{took, failure, send_loop, send_generic}
use fall23_p.Framework.Networking.Receive.{
  RecvAnswer, yields, Rx, recv_loop, recv_step, recv_bytes, decode_length, consume, recv_generic,
}
use fall23_p.Framework.Networking.Framed.{Framed}
use fall23_p.Framework.Networking.Framing.{recv_generic-Framed}
use fall23_p.Framework.Networking.TryOnce.{recv_generic-ends}
use fall23_p.Framework.Networking.Sending.{
  Transmits, message_of, send_generic-Transmits, send_generic-sends,
}

-- A message of four bytes and the first byte of the next one.
abbrev peer_bytes : List ℕ
peer_bytes = 4 ∷ 0 ∷ 10 ∷ 11 ∷ 4 ∷ []

abbrev blocking : Config
blocking = record { mode = rx_tx_blocking; timeout_ms = 0 }

abbrev once : Config
once = record { mode = rx_try_once; timeout_ms = 0 }

broken-not_success : ctrl_connection_broken ≢ success
broken-not_success e = cc

broken-not_pending : ctrl_connection_broken ≢ recv_zero_pending
broken-not_pending e = cc

-- The length is peeked, then the message arrives in two parts.
abbrev three_answers : List (RecvAnswer × ℕ)
three_answers = (yields 2, 0) ∷ (yields 3, 0) ∷ (yields 1, 0) ∷ []

abbrev received : Rx
received = record {
  peek = false;
  recv_started = true;
  expected_size = 0;
  msg_length = 4;
  buffer = 4 ∷ 0 ∷ 10 ∷ 11 ∷ [];
  stream = 4 ∷ [];
}

recv_generic-Framed_example : Framed 2 100 peer_bytes received success
unfolding recv_generic validate recv_loop recv_step recv_bytes decode_length consume
recv_generic-Framed_example =
    recv_generic-Framed blocking (some false) ctrl_connection_broken 2 100 peer_bytes three_answers
      success received broken-not_success broken-not_pending (omega arith) refl

recv_generic-ends_example :
    (r : ErrorCode × Rx) × (recv_generic once
        (some true)
        ctrl_connection_broken
        2
        100
        peer_bytes
        three_answers
      ≡ some r)
recv_generic-ends_example =
    recv_generic-ends once (some true) ctrl_connection_broken 2 100 peer_bytes (yields 2, 0)
      (yields 3, 0) (yields 1, 0) [] refl (omega arith)

-- The peer takes two bytes of the message and then closes.
send_generic-Transmits_example :
    Transmits (message_of peer_bytes) (4 ∷ 0 ∷ []) ctrl_connection_broken
unfolding send_generic validate send_loop
send_generic-Transmits_example =
    send_generic-Transmits blocking (some false) ctrl_connection_broken 2 100 peer_bytes
      ((took 2, 0) ∷ (failure, 0) ∷ []) ctrl_connection_broken (4 ∷ 0 ∷ []) broken-not_success refl

send_generic-sends_example :
    send_generic blocking
      (some false)
      ctrl_connection_broken
      2
      100
      peer_bytes
      ((took 1, 0) ∷ (took 2, 0) ∷ (took 9, 0) ∷ (took 1, 0) ∷ [])
    ≡ some (success, 4 ∷ 0 ∷ 10 ∷ 11 ∷ [])
send_generic-sends_example =
    send_generic-sends blocking false ctrl_connection_broken 2 100 peer_bytes
      ((took 1, 0) ∷ (took 2, 0) ∷ (took 9, 0) ∷ (took 1, 0) ∷ []) refl (omega arith) (omega arith)
      (omega arith, (omega arith, (omega arith, (omega arith, tt)))) (omega arith)
