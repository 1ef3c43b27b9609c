-- ===== src/Tls/Verified.antt =====
-- Whom the client talks to.
use boost_asio_cpp_network_p.Common.{◌≡◌, refl, sym, ap, subst, ◌∙◌, Bool, true, List, All, Bytes}
use boost_asio_cpp_network_p.Asio.{
  ErrorCode, success, ok, ok-injective, ◌>>◌, ◌>>=◌, check, bind_returned,
}
use boost_asio_cpp_network_p.Cxx.Signed.{ℤ}
use boost_asio_cpp_network_p.SyncClient.{Socket, emulate_long_computation_op, receive_response}
use boost_asio_cpp_network_p.Tls.Client.{
  verify_peer, SslStream, new_stream, set_verify_mode, set_verify_callback, Handshake, TlsCalls,
  on_peer_verify, new_ssl_client, connect, close, receive_ssl_response,
  emulate_ssl_long_computation_op, main_ssl_client,
}

-- What the library documents of verify_peer: with no error the callback has accepted every
-- certificate. Of verify_none nothing is said.
abbrev pub IsVerifying : Handshake → Type 0
IsVerifying handshake =
    (accepts : Bool → Bool) (chain : List Bool)
    → handshake verify_peer accepts chain ≡ success
    → All (λ preverified. accepts preverified ≡ true) chain

check-success : (ec : ErrorCode) (u : Unit {0}) → check ec ≡ ok u → ec ≡ success
check-success ErrorCode.success u h = refl
check-success ErrorCode.operation_aborted u h = cc
check-success ErrorCode.eof u h = cc
check-success ErrorCode.not_found u h = cc
check-success ErrorCode.not_connected u h = cc
check-success (ErrorCode.http_error n) u h = cc
check-success (ErrorCode.system_error n) u h = cc

-- The constructor leaves a stream that asks for verification by on_peer_verify.
new_ssl_client_verifies :
    (calls : TlsCalls) (s : SslStream)
    → new_ssl_client calls ≡ ok s
    → s ≡ record { verify_mode = verify_peer; verify_callback = on_peer_verify }
unfolding new_ssl_client
new_ssl_client_verifies calls s h =
    let moded =
      check calls.load_verify_file_ec
      >> set_verify_mode calls.set_verify_mode_ec verify_peer new_stream in
    let called =
      bind_returned (λ t. set_verify_callback calls.set_verify_callback_ec on_peer_verify t) moded
        h in
    let loaded =
      bind_returned (λ _. set_verify_mode calls.set_verify_mode_ec verify_peer new_stream)
        (check calls.load_verify_file_ec) called.1 in
    let asked =
      bind_returned (λ _. ok (record new_stream { verify_mode = verify_peer }))
        (check calls.set_verify_mode_ec) loaded.2 in
    let given =
      bind_returned (λ _. ok (record (called.0) { verify_callback = on_peer_verify }))
        (check calls.set_verify_callback_ec) called.2 in
    sym (ok-injective _ s given.2)
    ∙ ap {A = SslStream} (λ t. record t { verify_callback = on_peer_verify })
        (sym (ok-injective _ called.0 asked.2))

connect_shakes :
    (calls : TlsCalls) (handshake : Handshake) (chain : List Bool) (s : SslStream) (u : Unit {0})
    → connect calls handshake chain s ≡ ok u
    → handshake s.verify_mode s.verify_callback chain ≡ success
unfolding connect
connect_shakes calls handshake chain s u h =
    let shaken =
      bind_returned (λ _. check (handshake s.verify_mode s.verify_callback chain))
        (check calls.connect_ec) h in
    check-success (handshake s.verify_mode s.verify_callback chain) u shaken.2

-- If the library keeps to its contract, then a response comes only from a peer all of whose
-- certificates were found good.
pub main_ssl_client_verified :
    (calls : TlsCalls) (handshake : Handshake) (chain : List Bool) (peer : Bytes → Socket)
    (seconds : ℤ) (response : Bytes)
    → IsVerifying handshake
    → main_ssl_client calls handshake chain peer seconds ≡ ok response
    → All (λ preverified. preverified ≡ true) chain
unfolding main_ssl_client on_peer_verify
main_ssl_client_verified calls handshake chain peer seconds response v h =
    let asked = new_ssl_client calls >>= λ s. connect calls handshake chain s in
    let ended =
      bind_returned (λ r. close calls >> ok r)
        (asked >> emulate_ssl_long_computation_op peer seconds) h in
    let connected =
      bind_returned (λ _. emulate_ssl_long_computation_op peer seconds) asked ended.1 in
    let made =
      bind_returned (λ s. connect calls handshake chain s) (new_ssl_client calls) connected.1 in
    v on_peer_verify chain (
      subst (λ s. handshake s.verify_mode s.verify_callback chain ≡ success)
        (new_ssl_client_verifies calls made.0 made.1)
        (connect_shakes calls handshake chain made.0 connected.0 made.2))

-- Once connected, the client asks and is answered as the one without TLS.
pub emulate_ssl-emulate :
    (peer : Bytes → Socket) (seconds : ℤ)
    → emulate_ssl_long_computation_op peer seconds ≡ emulate_long_computation_op peer seconds
unfolding emulate_ssl_long_computation_op emulate_long_computation_op receive_ssl_response
    receive_response
emulate_ssl-emulate peer seconds = refl
