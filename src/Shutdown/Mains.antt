-- ===== src/Shutdown/Mains.antt =====
-- The main functions of shutdown_send_client.cpp and shutdown_send_server.cpp.
use boost_asio_cpp_network_p.Common.{◌≡◌, ap, [], ◌∷◌, Bytes}
use boost_asio_cpp_network_p.Asio.{ErrorCode, success, eof}
use boost_asio_cpp_network_p.Programs.{
  Exit, zero_status, return_value, try_calls, Connecting, connect_then,
}
use boost_asio_cpp_network_p.Programs.Whole.{exit_of_result}
use boost_asio_cpp_network_p.Shutdown.Code.{communicate, process_request}
use boost_asio_cpp_network_p.Shutdown.Network.{ClientPc, System, start, Reach}
use boost_asio_cpp_network_p.Shutdown.Progress.{Reach_delivers}

unfoldable pub main_send_client : Connecting → ErrorCode → ErrorCode → ErrorCode → Bytes → Exit
main_send_client c write_ec shutdown_ec read_ec response_buf =
    connect_then c (exit_of_result (communicate write_ec shutdown_ec read_ec response_buf))

-- The acceptor is opened, bound and told to listen by its constructor.
unfoldable pub main_send_server :
    ErrorCode → ErrorCode → ErrorCode → Bytes → ErrorCode → ErrorCode → Exit
main_send_server acceptor_ec accept_ec read_ec request_buf write_ec shutdown_ec =
    try_calls (acceptor_ec ∷ accept_ec ∷ [])
      (exit_of_result (process_request read_ec request_buf write_ec shutdown_ec).1)

-- When the client has ended and no other call fails, both programs end with 0.
pub main_send_zero :
    {s : System}
    → Reach start s
    → s.client ≡ ClientPc.ended
    → (main_send_client
          (record { make_address_ec = success; open_ec = success; connect_ec = success })
          success
          success
          eof
          s.response_buf
        ≡ zero_status)
      × (main_send_server success success eof s.request_buf success success ≡ zero_status)
unfolding main_send_client main_send_server connect_then try_calls return_value
main_send_zero r p =
    let whole = Reach_delivers r p in
    (ap exit_of_result whole.1, ap (λ m. exit_of_result m.1) whole.2)
