-- ===== src/Tls/Server.antt =====
-- The classes Service, Acceptor and Server of ssl_synchronous_server.cpp.
use boost_asio_cpp_network_p.Programs.{Exit}
use boost_asio_cpp_network_p.SyncServer.Iterative.{exit_of_server, start}
use boost_asio_cpp_network_p.Common.{none, some, List, [], ◌∷◌, ◌++◌, Bytes, codes, if◌then◌else◌}
use boost_asio_cpp_network_p.Asio.{
  ErrorCode, Result, ok, throws, aborts, ◌>>=◌, ◌>>◌, check, is_error,
}
use boost_asio_cpp_network_p.LongOp.{process_buffer}
use boost_asio_cpp_network_p.SyncServer.{Handled}
use boost_asio_cpp_network_p.SyncServer.Iterative.{Thread, Server, stop, turn}

-- A client: how the handshake, read_until and write end, and what was read.
pub record TlsClient : Type 0 where
  pub handshake_ec : ErrorCode
  pub read_ec : ErrorCode
  pub received : Bytes
  pub write_ec : ErrorCode

abbrev dropped : ErrorCode → Handled
dropped ec = record { slept = none; sent = none; errors = ec ∷ [] }

-- What is thrown is caught and printed.
unfoldable pub handle_tls_client : TlsClient → Handled
handle_tls_client c =
    let p = process_buffer c.received in
    if is_error c.handshake_ec
    then dropped c.handshake_ec
    else if is_error c.read_ec
    then dropped c.read_ec
    else if is_error c.write_ec
    then record { slept = p.slept; sent = none; errors = c.write_ec ∷ [] }
    else record { slept = p.slept; sent = some p.response; errors = [] }

-- What the acceptor's constructor meets, the making of the context included: the private key is read with a password.
pub record Setup : Type 0 where
  pub open_ec : ErrorCode
  pub context_ec : ErrorCode
  pub set_options_ec : ErrorCode
  pub set_password_callback_ec : ErrorCode
  pub use_certificate_chain_file_ec : ErrorCode
  pub use_private_key_file : Bytes → ErrorCode
  pub use_tmp_dh_file_ec : ErrorCode
  pub listen_ec : ErrorCode

abbrev pub get_password : Bytes
get_password = codes "pass"

unfoldable pub new_tls_acceptor : Setup → Result (Unit {0})
new_tls_acceptor s =
    check s.open_ec
    >> check s.context_ec
    >> check s.set_options_ec
    >> check s.set_password_callback_ec
    >> check s.use_certificate_chain_file_ec
    >> check (s.use_private_key_file get_password)
    >> check s.use_tmp_dh_file_ec
    >> check s.listen_ec

pub data TlsEvent : Type 0 where
  begins : Setup → TlsEvent
  accepts : ErrorCode → TlsClient → TlsEvent
  stops : TlsEvent

-- What leaves run() as an exception has no handler in the thread and ends the program.
abbrev pub uncaught : Result (Unit {0}) → Server → Result Server
uncaught (ok _) s = ok (turn s)
uncaught (throws ec) s = aborts
uncaught aborts s = aborts

unfoldable pub accept_tls : ErrorCode → TlsClient → Server → Result Server
accept_tls ec c s =
    if is_error ec
    then aborts
    else ok (turn (record s { served = s.served ++ (handle_tls_client c ∷ []) }))

-- An event finds the thread at the place that its first argument names.
unfoldable pub tls_step_at : Thread → TlsEvent → Server → Result Server
tls_step_at thread stops s = ok (stop s)
tls_step_at Thread.ready (begins setup) s = uncaught (new_tls_acceptor setup) s
tls_step_at Thread.accepting (accepts ec c) s = accept_tls ec c s
tls_step_at _ _ s = ok s

unfoldable pub run_tls : List TlsEvent → Server → Result Server
run_tls [] s = ok s
run_tls (e ∷ es) s = tls_step_at s.thread e s >>= λ t. run_tls es t

-- The user presses enter behind the first events.
unfoldable pub main_tls_server : List TlsEvent → List TlsEvent → Exit
main_tls_server before after = exit_of_server (run_tls (before ++ stops ∷ after) start)
