-- ===== src/Framework/ErrorCode.antt =====
-- framework/error.h: enum class error_code, and its numbers.
use fall23_p.Prelude.{
  ℕ, Option, ◌≡◌, refl, Bool, List, get_elem?, true, ◌∷◌, false, [], ◌≢◌, arith, ap,
}

pub data ErrorCode : Type 0 where
  success poll_error fork_failed exec_failed bad_testcase : ErrorCode
  bad_fragment_id bad_message_code malformed_message recv_zero_pending : ErrorCode
  recv_wait_timeout send_reqs_timeout fragment_exception socket_bind_failed : ErrorCode
  socket_accept_failed socket_create_failed socket_listen_failed : ErrorCode
  socket_bad_operation socket_connect_failed socket_options_failed : ErrorCode
  socket_accept_timeout fragment_pcap_mq_full ctrl_connection_broken : ErrorCode
  pcap_connection_broken fragment_invalid_saddr fragment_invalid_caddr : ErrorCode
  mixnet_bad_packet_size mixnet_connection_broken fragment_bad_neighbor_count : ErrorCode
  fragment_threads_nonresponsive fragment_duplicate_local_addrs : ErrorCode

-- static_cast<uint16_t>(error_code)
abbrev pub error_number : ErrorCode → ℕ
error_number success = 0
error_number poll_error = 1
error_number fork_failed = 2
error_number exec_failed = 3
error_number bad_testcase = 4
error_number bad_fragment_id = 5
error_number bad_message_code = 6
error_number malformed_message = 7
error_number recv_zero_pending = 8
error_number recv_wait_timeout = 9
error_number send_reqs_timeout = 10
error_number fragment_exception = 11
error_number socket_bind_failed = 12
error_number socket_accept_failed = 13
error_number socket_create_failed = 14
error_number socket_listen_failed = 15
error_number socket_bad_operation = 16
error_number socket_connect_failed = 17
error_number socket_options_failed = 18
error_number socket_accept_timeout = 19
error_number fragment_pcap_mq_full = 20
error_number ctrl_connection_broken = 21
error_number pcap_connection_broken = 22
error_number fragment_invalid_saddr = 23
error_number fragment_invalid_caddr = 24
error_number mixnet_bad_packet_size = 25
error_number mixnet_connection_broken = 26
error_number fragment_bad_neighbor_count = 27
error_number fragment_threads_nonresponsive = 28
error_number fragment_duplicate_local_addrs = 29

abbrev pub all_errors : List ErrorCode
all_errors =
    success ∷ poll_error ∷ fork_failed ∷ exec_failed ∷ bad_testcase ∷ bad_fragment_id
    ∷ bad_message_code ∷ malformed_message ∷ recv_zero_pending ∷ recv_wait_timeout
    ∷ send_reqs_timeout ∷ fragment_exception ∷ socket_bind_failed ∷ socket_accept_failed
    ∷ socket_create_failed ∷ socket_listen_failed ∷ socket_bad_operation ∷ socket_connect_failed
    ∷ socket_options_failed ∷ socket_accept_timeout ∷ fragment_pcap_mq_full ∷ ctrl_connection_broken
    ∷ pcap_connection_broken ∷ fragment_invalid_saddr ∷ fragment_invalid_caddr
    ∷ mixnet_bad_packet_size ∷ mixnet_connection_broken ∷ fragment_bad_neighbor_count
    ∷ fragment_threads_nonresponsive ∷ fragment_duplicate_local_addrs ∷ []

-- The assertion and the cast of message::get_error_code: a number that is no error code aborts.
unfoldable pub error_of_number : ℕ → Option ErrorCode
error_of_number = get_elem? all_errors

abbrev pub is_success : ErrorCode → Bool
is_success success = true
is_success _ = false

pub fails-not_success : {code : ErrorCode} → is_success code ≡ false → code ≢ success
fails-not_success fails e = absurd (ground (arith, ap is_success e))

pub is_success-success : (code : ErrorCode) → is_success code ≡ true → code ≡ success
is_success-success success h = refl
is_success-success _ h = absurd (ground (arith, h))
