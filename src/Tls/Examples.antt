-- ===== src/Tls/Examples.antt =====
-- The programs with TLS on concrete calls. The library of the examples gives an error exactly if the
-- callback rejects a certificate.
use boost_asio_cpp_network_p.Common.{
  ◌≡◌, refl, Bool, true, false, List, [], ◌∷◌, Bytes, codes, All, beq, if◌then◌else◌, Bool-cases,
  inl, inr, sym, ◌∙◌,
}
use boost_asio_cpp_network_p.Asio.{ErrorCode, success, eof, ok, throws}
use boost_asio_cpp_network_p.Cxx.Signed.{pos}
use boost_asio_cpp_network_p.Cxx.Stream.{getline}
use boost_asio_cpp_network_p.SyncClient.{Socket}
use boost_asio_cpp_network_p.SyncServer.Iterative.{start, run}
use boost_asio_cpp_network_p.Tls.Client.{
  VerifyMode, Handshake, TlsCalls, main_ssl_client, new_ssl_client, connect, close,
  emulate_ssl_long_computation_op, receive_ssl_response, on_peer_verify,
}
use boost_asio_cpp_network_p.Tls.Server.{
  TlsClient, TlsEvent, begins, accepts, stops, Setup, run_tls,
}
use boost_asio_cpp_network_p.Tls.Verified.{IsVerifying, main_ssl_client_verified}
use boost_asio_cpp_network_p.Tls.Refines.{as_events, run_tls-run}

abbrev verified : (Bool → Bool) → List Bool → ErrorCode
verified verdict [] = success
verified verdict (c ∷ chain) =
    if verdict c then verified verdict chain else ErrorCode.system_error 1

abbrev library : Handshake
library VerifyMode.verify_none verdict chain = success
library VerifyMode.verify_peer verdict chain = verified verdict chain

one_more :
    (verdict : Bool → Bool) (c : Bool) (chain : List Bool)
    → verdict c ≡ true
    → verified verdict (c ∷ chain) ≡ verified verdict chain
one_more verdict c chain e = simp e refl

rejected :
    (verdict : Bool → Bool) (c : Bool) (chain : List Bool)
    → verdict c ≡ false
    → verified verdict (c ∷ chain) ≡ ErrorCode.system_error 1
rejected verdict c chain e = simp e refl

library-IsVerifying : IsVerifying library
library-IsVerifying verdict [] h = tt
library-IsVerifying verdict (c ∷ chain) h = elim (Bool-cases (verdict c)) [
  | inl e ↦ (e, library-IsVerifying verdict chain (sym (one_more verdict c chain e) ∙ h))
  | inr e ↦ cc (rejected verdict c chain e)
]

abbrev all_succeed : TlsCalls
all_succeed = record {
  load_verify_file_ec = success;
  set_verify_mode_ec = success;
  set_verify_callback_ec = success;
  connect_ec = success;
  shutdown_ec = success;
  socket_shutdown_ec = success;
  close_ec = success;
}

abbrev answers_ok : Bytes → Socket
answers_ok request = record { write_ec = success; read_ec = success; received = codes "OK\n" }

answered :
    main_ssl_client all_succeed library (true ∷ true ∷ []) answers_ok (pos 1) ≡ ok (codes "OK")
unfolding main_ssl_client new_ssl_client connect on_peer_verify close
    emulate_ssl_long_computation_op receive_ssl_response getline
answered = refl

refused :
    main_ssl_client all_succeed library (true ∷ false ∷ []) answers_ok (pos 1)
    ≡ throws (ErrorCode.system_error 1)
unfolding main_ssl_client new_ssl_client connect on_peer_verify
refused = refl

main_ssl_client_verified_example : All (λ preverified. preverified ≡ true) (true ∷ true ∷ [])
main_ssl_client_verified_example =
    main_ssl_client_verified all_succeed library (true ∷ true ∷ []) answers_ok (pos 1) (codes "OK")
      library-IsVerifying answered

abbrev setup : Setup
setup = record {
  open_ec = success;
  context_ec = success;
  set_options_ec = success;
  set_password_callback_ec = success;
  use_certificate_chain_file_ec = success;
  use_private_key_file =
      λ password. if beq password (codes "pass") then success else ErrorCode.system_error 2;
  use_tmp_dh_file_ec = success;
  listen_ec = success;
}

abbrev client : TlsClient
client = record {
  handshake_ec = eof;
  read_ec = success;
  received = codes "EMULATE_LONG_COMP_OP 2\n";
  write_ec = success;
}

abbrev events : List TlsEvent
events =
    begins setup
    ∷ accepts success client
    ∷ accepts success (record client { handshake_ec = success })
    ∷ stops
    ∷ []

run_tls-run_example : run_tls events start ≡ run (as_events events) start
run_tls-run_example = run_tls-run events start
