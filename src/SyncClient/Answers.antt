-- ===== src/SyncClient/Answers.antt =====
-- The answers of the servers, as the blocking clients see them.
use boost_asio_cpp_network_p.Common.{
  ◌≡◌, refl, ap, sym, ◌∙◌, inl, inr, List, [], ◌∷◌, Bytes, arith, append-nil, codes, take,
}
use boost_asio_cpp_network_p.Asio.{ErrorCode, success, Result, ok, ◌>>=◌}
use boost_asio_cpp_network_p.Cxx.Stream.{fresh, getline}
use boost_asio_cpp_network_p.Cxx.Signed.{ℤ, pos, FitsInt, FitsInt64}
use boost_asio_cpp_network_p.LongOp.{
  Processed, error_occured, done, prepare_request, process_buffer, process_buffer-cases,
  process_buffer-prepare_request, process_buffer-prepare_request_over,
}
use boost_asio_cpp_network_p.SyncClient.{
  Socket, Calls, UdpSocket, shutdown_errors, receive_response, receive_udp_response,
  emulate_long_computation_op, emulate_udp_long_computation_op, main_udp_client, main_client,
}

-- A server of 04_impl_server_apps behind a connection on which nothing fails.
abbrev pub server : Bytes → Socket
server request = record {
  write_ec = success;
  read_ec = success;
  received = (process_buffer request).response;
}

-- No call fails.
abbrev pub all_succeed : Calls
all_succeed = record {
  open_ec = success;
  connect_ec = success;
  shutdown_ec = success;
  close_ec = success;
}

answered :
    (p : Processed) (z : ℤ)
    → process_buffer (prepare_request z) ≡ p
    → main_client all_succeed server z ≡ ok (getline 10 [] (fresh p.response)).0
unfolding main_client emulate_long_computation_op receive_response
answered p z e = ap (λ q. Result.ok (getline 10 [] (fresh q.response)).0) e

-- If no call fails, main of the client gets "OK" from a server for every number of seconds that
-- fits int.
pub main_client-server : (z : ℤ) → FitsInt z → main_client all_succeed server z ≡ ok (codes "OK")
unfolding getline
main_client-server z h = answered (done z) z (
    sym (ap process_buffer (append-nil (prepare_request z)))
    ∙ process_buffer-prepare_request z [] h)

-- It gets "ERROR" for every other 64-bit number.
pub main_client-server_over :
    (z : ℤ) → FitsInt64 z → ¬ FitsInt z → main_client all_succeed server z ≡ ok (codes "ERROR")
unfolding getline
main_client-server_over z f h = answered error_occured z (
    sym (ap process_buffer (append-nil (prepare_request z)))
    ∙ process_buffer-prepare_request_over z [] f h)

take-answer :
    (request : Bytes) → take 6 (process_buffer request).response ≡ (process_buffer request).response
take-answer request = elim (process_buffer-cases request) [ inl e ↦ rw e refl | inr e ↦ rw e refl ]

-- A peer that answers a datagram as the servers answer a request.
abbrev pub udp_server : ErrorCode → Bytes → UdpSocket
udp_server shutdown_ec request = record {
  send_ec = success;
  receive_ec = success;
  datagram = (process_buffer request).response;
  shutdown_ec = shutdown_ec;
  close_ec = success;
  open_ec = success;
}

-- What should be printed of a shutdown: any error but that there was no connection.
abbrev pub printed_of_shutdown : ErrorCode → List ErrorCode
printed_of_shutdown ErrorCode.success = []
printed_of_shutdown ErrorCode.not_connected = []
printed_of_shutdown ErrorCode.operation_aborted = ErrorCode.operation_aborted ∷ []
printed_of_shutdown ErrorCode.eof = ErrorCode.eof ∷ []
printed_of_shutdown ErrorCode.not_found = ErrorCode.not_found ∷ []
printed_of_shutdown (ErrorCode.http_error n) = ErrorCode.http_error n ∷ []
printed_of_shutdown (ErrorCode.system_error n) = ErrorCode.system_error n ∷ []

shutdown_errors-printed_of_shutdown : (ec : ErrorCode) → shutdown_errors ec ≡ printed_of_shutdown ec
shutdown_errors-printed_of_shutdown ErrorCode.success = refl
shutdown_errors-printed_of_shutdown ErrorCode.not_connected = refl
shutdown_errors-printed_of_shutdown ErrorCode.operation_aborted = refl
shutdown_errors-printed_of_shutdown ErrorCode.eof = refl
shutdown_errors-printed_of_shutdown ErrorCode.not_found = refl
shutdown_errors-printed_of_shutdown (ErrorCode.http_error n) = refl
shutdown_errors-printed_of_shutdown (ErrorCode.system_error n) = refl

-- The six bytes of the datagram client's buffer hold each answer whole, whatever the number of
-- seconds, and a shutdown that fails is printed, unless there was no connection, and makes no difference to the response.
pub emulate_udp_long_computation_op-udp_server :
    (z : ℤ) (shutdown_ec : ErrorCode)
    → emulate_udp_long_computation_op (udp_server shutdown_ec) z
      ≡ ok ((process_buffer (prepare_request z)).response, printed_of_shutdown shutdown_ec)
unfolding emulate_udp_long_computation_op receive_udp_response
emulate_udp_long_computation_op-udp_server z shutdown_ec =
    ap (λ text. Result.ok (text, shutdown_errors shutdown_ec)) (take-answer (prepare_request z))
    ∙ ap (λ errors. Result.ok ((process_buffer (prepare_request z)).response, errors))
        (shutdown_errors-printed_of_shutdown shutdown_ec)

abbrev udp_responses :
    Result (Bytes × List ErrorCode)
    → Result (Bytes × List ErrorCode)
    → Result ((Bytes × List ErrorCode) × (Bytes × List ErrorCode))
udp_responses one two = one >>= λ a. two >>= λ b. ok (a, b)

ten_seconds_answered : (process_buffer (prepare_request (pos 10))).response ≡ codes "OK\n"
ten_seconds_answered =
    ap (λ p. p.response)
      (sym (ap process_buffer (append-nil (prepare_request (pos 10))))
        ∙ process_buffer-prepare_request (pos 10) [] (omega arith))

-- main of the datagram client gets "OK" with its line's end from both servers, whatever the
-- shutdowns of the socket end with, if nothing else fails.
pub main_udp_client-udp_server :
    (first second : ErrorCode)
    → main_udp_client success (udp_server first) (udp_server second)
      ≡ ok ((codes "OK\n", printed_of_shutdown first), (codes "OK\n", printed_of_shutdown second))
unfolding main_udp_client
main_udp_client-udp_server first second =
    ap (λ m. udp_responses m (emulate_udp_long_computation_op (udp_server second) (pos 10)))
      (emulate_udp_long_computation_op-udp_server (pos 10) first)
    ∙ ap
        (udp_responses
          (ok ((process_buffer (prepare_request (pos 10))).response, printed_of_shutdown first)))
        (emulate_udp_long_computation_op-udp_server (pos 10) second)
    ∙ ap
        (λ text.
          udp_responses (ok (text, printed_of_shutdown first))
            (ok (text, printed_of_shutdown second)))
        ten_seconds_answered
