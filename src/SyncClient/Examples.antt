-- ===== src/SyncClient/Examples.antt =====
-- The blocking clients at concrete numbers of seconds.
use boost_asio_cpp_network_p.Common.{[], ◌∷◌, ◌≡◌}
use boost_asio_cpp_network_p.Asio.{eof, ok}
use boost_asio_cpp_network_p.Cxx.Signed.{negsuc}
use boost_asio_cpp_network_p.LongOp.{process_buffer, prepare_request}
use boost_asio_cpp_network_p.SyncClient.{emulate_udp_long_computation_op}
use boost_asio_cpp_network_p.SyncClient.Answers.{
  udp_server, emulate_udp_long_computation_op-udp_server,
}

emulate_udp_long_computation_op-udp_server_example :
    emulate_udp_long_computation_op (udp_server eof) (negsuc 4)
    ≡ ok ((process_buffer (prepare_request (negsuc 4))).response, eof ∷ [])
emulate_udp_long_computation_op-udp_server_example =
    emulate_udp_long_computation_op-udp_server (negsuc 4) eof
