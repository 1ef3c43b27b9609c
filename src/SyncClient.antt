-- ===== src/SyncClient.antt =====
-- The clients that wait for each answer: tcp_synchronous.cpp and udp_synchronous.cpp.
mod Answers
mod Examples
use boost_asio_cpp_network_p.Common.{
  ℕ, ◌≡◌, refl, Bool, true, false, not, ◌&&◌, List, [], ◌∷◌, ◌++◌, Bytes, take, if◌then◌else◌,
}
use boost_asio_cpp_network_p.Asio.{
  ErrorCode, not_connected, Result, ok, ◌>>=◌, ◌>>◌, check, is_error,
}
use boost_asio_cpp_network_p.Cxx.Stream.{fresh, getline}
use boost_asio_cpp_network_p.Cxx.Signed.{ℤ, pos}
use boost_asio_cpp_network_p.LongOp.{prepare_request}

-- How the calls on the socket end: the write, and the read with what it leaves in the buffer.
pub record Socket : Type 0 where
  pub write_ec : ErrorCode
  pub read_ec : ErrorCode
  pub received : Bytes

unfoldable pub receive_response : Socket → Result Bytes
receive_response s = check s.read_ec >> ok (getline 10 [] (fresh s.received)).0

-- The request that is written, and the response. The answer of the other side may depend on the
-- request.
unfoldable pub emulate_long_computation_op : (Bytes → Socket) → ℤ → Result Bytes
emulate_long_computation_op peer seconds =
    let s = peer (prepare_request seconds) in check s.write_ec >> receive_response s

-- How the other calls on the socket end.
pub record Calls : Type 0 where
  pub open_ec : ErrorCode
  pub connect_ec : ErrorCode
  pub shutdown_ec : ErrorCode
  pub close_ec : ErrorCode

-- connect(), the request and close() of main, what they throw left to main's handler.
unfoldable pub main_client : Calls → (Bytes → Socket) → ℤ → Result Bytes
main_client calls peer seconds =
    check calls.open_ec
    >> check calls.connect_ec
    >> emulate_long_computation_op peer seconds
    >>= λ response. check calls.shutdown_ec >> check calls.close_ec >> ok response

-- A datagram socket: how send_to, receive_from, shutdown, close and open end, and the datagram.
pub record UdpSocket : Type 0 where
  pub send_ec : ErrorCode
  pub receive_ec : ErrorCode
  pub datagram : Bytes
  pub shutdown_ec : ErrorCode
  pub close_ec : ErrorCode
  pub open_ec : ErrorCode

abbrev is_not_connected : ErrorCode → Bool
is_not_connected ErrorCode.not_connected = true
is_not_connected _ = false

-- What receiveResponse prints of the shutdown.
abbrev pub shutdown_errors : ErrorCode → List ErrorCode
shutdown_errors ec = if is_error ec && not (is_not_connected ec) then ec ∷ [] else []

-- The response and the codes that are printed. The buffer has room for six bytes; what is longer
-- is cut by the socket.
unfoldable pub receive_udp_response : UdpSocket → Result (Bytes × List ErrorCode)
receive_udp_response s =
    check s.receive_ec
    >> check s.close_ec
    >> check s.open_ec
    >> ok (take 6 s.datagram, shutdown_errors s.shutdown_ec)

unfoldable pub emulate_udp_long_computation_op :
    (Bytes → UdpSocket) → ℤ → Result (Bytes × List ErrorCode)
emulate_udp_long_computation_op peer seconds =
    let s = peer (prepare_request seconds) in check s.send_ec >> receive_udp_response s

-- main asks two servers for ten seconds each, on the socket that the constructor opens.
unfoldable pub main_udp_client :
    ErrorCode
    → (Bytes → UdpSocket)
    → (Bytes → UdpSocket)
    → Result ((Bytes × List ErrorCode) × (Bytes × List ErrorCode))
main_udp_client open_ec server1 server2 =
    check open_ec >> emulate_udp_long_computation_op server1 (pos 10) >>= λ one.
    emulate_udp_long_computation_op server2 (pos 10) >>= λ two. ok (one, two)
