-- ===== src/Tls/Client.antt =====
-- The class SyncSSLClient and main of ssl_synchronous_client.cpp.
use boost_asio_cpp_network_p.Common.{Bool, List, [], Bytes}
use boost_asio_cpp_network_p.Asio.{ErrorCode, Result, ok, ◌>>=◌, ◌>>◌, check}
use boost_asio_cpp_network_p.Cxx.Stream.{fresh, getline}
use boost_asio_cpp_network_p.Cxx.Signed.{ℤ}
use boost_asio_cpp_network_p.LongOp.{prepare_request}
use boost_asio_cpp_network_p.SyncClient.{Socket}

-- The verification that a context asks for; verify_none is that of a new context.
pub data VerifyMode : Type 0 where
  verify_none verify_peer : VerifyMode

-- What the library makes of a handshake, given the mode, the verification callback and, for each
-- certificate of the peer's chain from the root, whether it was found good.
abbrev pub Handshake : Type 0
Handshake = VerifyMode → (Bool → Bool) → List Bool → ErrorCode

-- The verification settings of the stream; a new one's callback keeps the library's verdict.
pub record SslStream : Type 0 where
  pub verify_mode : VerifyMode
  pub verify_callback : Bool → Bool

abbrev pub new_stream : SslStream
new_stream = record { verify_mode = verify_none; verify_callback = λ preverified. preverified }

-- The codes of the other calls. That of the TLS shutdown, and that of the socket, are ignored.
pub record TlsCalls : Type 0 where
  pub load_verify_file_ec : ErrorCode
  pub set_verify_mode_ec : ErrorCode
  pub set_verify_callback_ec : ErrorCode
  pub connect_ec : ErrorCode
  pub shutdown_ec : ErrorCode
  pub socket_shutdown_ec : ErrorCode
  pub close_ec : ErrorCode

abbrev pub set_verify_mode : ErrorCode → VerifyMode → SslStream → Result SslStream
set_verify_mode ec mode s = check ec >> ok (record s { verify_mode = mode })

abbrev pub set_verify_callback : ErrorCode → (Bool → Bool) → SslStream → Result SslStream
set_verify_callback ec callback s = check ec >> ok (record s { verify_callback = callback })

-- The callback prints the certificate's name and keeps the library's verdict.
unfoldable pub on_peer_verify : Bool → Bool
on_peer_verify preverified = preverified

unfoldable pub new_ssl_client : TlsCalls → Result SslStream
new_ssl_client calls =
    check calls.load_verify_file_ec
    >> set_verify_mode calls.set_verify_mode_ec verify_peer new_stream
    >>= λ s. set_verify_callback calls.set_verify_callback_ec on_peer_verify s

unfoldable pub connect : TlsCalls → Handshake → List Bool → SslStream → Result (Unit {0})
connect calls handshake chain s =
    check calls.connect_ec >> check (handshake s.verify_mode s.verify_callback chain)

unfoldable pub close : TlsCalls → Result (Unit {0})
close calls = check calls.close_ec

unfoldable pub receive_ssl_response : Socket → Result Bytes
receive_ssl_response s = check s.read_ec >> ok (getline 10 [] (fresh s.received)).0

unfoldable pub emulate_ssl_long_computation_op : (Bytes → Socket) → ℤ → Result Bytes
emulate_ssl_long_computation_op peer seconds =
    let s = peer (prepare_request seconds) in check s.write_ec >> receive_ssl_response s

unfoldable pub main_ssl_client :
    TlsCalls → Handshake → List Bool → (Bytes → Socket) → ℤ → Result Bytes
main_ssl_client calls handshake chain peer seconds =
    new_ssl_client calls
    >>= (λ s. connect calls handshake chain s)
    >> emulate_ssl_long_computation_op peer seconds
    >>= λ response. close calls >> ok response
