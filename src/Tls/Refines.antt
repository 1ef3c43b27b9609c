-- ===== src/Tls/Refines.antt =====
-- The server with TLS as the iterative server.
use boost_asio_cpp_network_p.SyncServer.Iterative.{exit_of_server, start, main_server}
use boost_asio_cpp_network_p.Tls.Server.{main_tls_server}
use boost_asio_cpp_network_p.Common.{
  ◌≡◌, refl, ap, ◌∙◌, inl, inr, true, false, codes, List, [], ◌∷◌, ◌++◌, Bool-cases, if◌then◌else◌,
  fun_ext,
}
use boost_asio_cpp_network_p.Asio.{
  ErrorCode, success, Result, ok, throws, aborts, ◌>>=◌, ◌>>◌, check, is_error,
}
use boost_asio_cpp_network_p.SyncServer.{Client, handle_client}
use boost_asio_cpp_network_p.SyncServer.Iterative.{
  Thread, Server, turn, begin_run, accept, step_at, step, run, Event,
}
use boost_asio_cpp_network_p.Tls.Server.{
  TlsClient, TlsEvent, begins, accepts, stops, Setup, handle_tls_client, new_tls_acceptor, uncaught,
  accept_tls, tls_step_at, run_tls,
}

-- A client whose handshake fails counts as one whose read fails.
abbrev pub as_client : TlsClient → Client
as_client c = record {
  read_ec = if is_error c.handshake_ec then c.handshake_ec else c.read_ec;
  received = c.received;
  write_ec = c.write_ec;
}

-- The codes of everything that must succeed before the server accepts, and the first error in a
-- list of codes.
abbrev pub setup_codes : Setup → List ErrorCode
setup_codes s =
    s.open_ec
    ∷ s.context_ec
    ∷ s.set_options_ec
    ∷ s.set_password_callback_ec
    ∷ s.use_certificate_chain_file_ec
    ∷ s.use_private_key_file (codes "pass")
    ∷ s.use_tmp_dh_file_ec
    ∷ s.listen_ec
    ∷ []

abbrev pub first_error : List ErrorCode → ErrorCode
first_error [] = success
first_error (ec ∷ codes) = let later = first_error codes in if is_error ec then ec else later

-- A setup any step of which fails counts as a listen that fails.
abbrev pub as_event : TlsEvent → Event
as_event (begins setup) = Event.begins (first_error (setup_codes setup))
as_event (accepts ec c) = Event.accepts ec (as_client c)
as_event stops = Event.stops

handle_tls_client-handle_client :
    (c : TlsClient) → handle_tls_client c ≡ handle_client (as_client c)
unfolding handle_tls_client handle_client
handle_tls_client-handle_client c = elim (Bool-cases (is_error c.handshake_ec)) [
  | inl e ↦ simp e refl
  | inr e ↦ simp e refl
]

accept_tls-accept :
    (ec : ErrorCode) (c : TlsClient) (s : Server) → accept_tls ec c s ≡ accept ec (as_client c) s
unfolding accept_tls accept
accept_tls-accept ec c s =
    ap (λ h. if is_error ec then aborts else ok (turn (record s { served = s.served ++ (h ∷ []) })))
      (handle_tls_client-handle_client c)

-- The calls of a chain, one after the other.
abbrev check_all : List ErrorCode → Result (Unit {0})
check_all [] = ok tt
check_all (ec ∷ codes) = check ec >> check_all codes

check-error : (ec : ErrorCode) → is_error ec ≡ true → check ec ≡ throws ec
check-error ErrorCode.success h = cc
check-error ErrorCode.operation_aborted h = refl
check-error ErrorCode.eof h = refl
check-error ErrorCode.not_found h = refl
check-error ErrorCode.not_connected h = refl
check-error (ErrorCode.http_error n) h = refl
check-error (ErrorCode.system_error n) h = refl

check-no_error : (ec : ErrorCode) → is_error ec ≡ false → check ec ≡ ok tt
check-no_error ErrorCode.success h = refl
check-no_error ErrorCode.operation_aborted h = cc
check-no_error ErrorCode.eof h = cc
check-no_error ErrorCode.not_found h = cc
check-no_error ErrorCode.not_connected h = cc
check-no_error (ErrorCode.http_error n) h = cc
check-no_error (ErrorCode.system_error n) h = cc

check_all-first_error : (codes : List ErrorCode) → check_all codes ≡ check (first_error codes)
check_all-first_error [] = refl
check_all-first_error (ec ∷ codes) = elim (Bool-cases (is_error ec)) [
  | inl e ↦ simp (e, check-error ec e) refl
  | inr e ↦ simp (e, check-no_error ec e) (check_all-first_error codes)
]

-- The same calls as the code nests them.
abbrev checks_after : Result (Unit {0}) → List ErrorCode → Result (Unit {0})
checks_after m [] = m
checks_after m (ec ∷ codes) = checks_after (m >> check ec) codes

>>-ok : (m : Result (Unit {0})) → m ≡ (m >> ok tt)
>>-ok (ok _) = refl
>>-ok (throws ec) = refl
>>-ok aborts = refl

>>-assoc : (m k n : Result (Unit {0})) → ((m >> k) >> n) ≡ (m >> (k >> n))
>>-assoc (ok _) k n = refl
>>-assoc (throws ec) k n = refl
>>-assoc aborts k n = refl

checks_after-check_all :
    (m : Result (Unit {0})) (codes : List ErrorCode) → checks_after m codes ≡ (m >> check_all codes)
checks_after-check_all m [] = >>-ok m
checks_after-check_all m (ec ∷ codes) =
    checks_after-check_all (m >> check ec) codes ∙ >>-assoc m (check ec) (check_all codes)

new_tls_acceptor-check_all :
    (setup : Setup) → new_tls_acceptor setup ≡ check_all (setup_codes setup)
unfolding new_tls_acceptor
new_tls_acceptor-check_all setup = checks_after-check_all (check setup.open_ec) (
    setup.context_ec
    ∷ setup.set_options_ec
    ∷ setup.set_password_callback_ec
    ∷ setup.use_certificate_chain_file_ec
    ∷ setup.use_private_key_file (codes "pass")
    ∷ setup.use_tmp_dh_file_ec
    ∷ setup.listen_ec
    ∷ [])

uncaught-begin_run : (ec : ErrorCode) (s : Server) → uncaught (check ec) s ≡ begin_run ec s
unfolding begin_run
uncaught-begin_run ErrorCode.success s = refl
uncaught-begin_run ErrorCode.operation_aborted s = refl
uncaught-begin_run ErrorCode.eof s = refl
uncaught-begin_run ErrorCode.not_found s = refl
uncaught-begin_run ErrorCode.not_connected s = refl
uncaught-begin_run (ErrorCode.http_error n) s = refl
uncaught-begin_run (ErrorCode.system_error n) s = refl

tls_step_at-step_at :
    (thread : Thread) (e : TlsEvent) (s : Server)
    → tls_step_at thread e s ≡ step_at thread (as_event e) s
unfolding tls_step_at step_at
tls_step_at-step_at thread stops s = refl
tls_step_at-step_at Thread.ready (begins setup) s =
    ap (λ m. uncaught m s)
      (new_tls_acceptor-check_all setup ∙ check_all-first_error (setup_codes setup))
    ∙ uncaught-begin_run (first_error (setup_codes setup)) s
tls_step_at-step_at Thread.ready (accepts ec c) s = refl
tls_step_at-step_at Thread.accepting (begins setup) s = refl
tls_step_at-step_at Thread.accepting (accepts ec c) s = accept_tls-accept ec c s
tls_step_at-step_at Thread.finished (begins setup) s = refl
tls_step_at-step_at Thread.finished (accepts ec c) s = refl

abbrev pub as_events : List TlsEvent → List Event
as_events [] = []
as_events (e ∷ es) = as_event e ∷ as_events es

-- The server with TLS refines the iterative server, over every list of events: a client whose
-- handshake fails counts as one whose read fails, and a setup any step of which fails (the acceptor,
-- the context, its options, its password, the certificate, the key under "pass", the DH file, the
-- listen) as a listen that fails.
pub run_tls-run : (es : List TlsEvent) (s : Server) → run_tls es s ≡ run (as_events es) s
unfolding run_tls run step
run_tls-run [] s = refl
run_tls-run (e ∷ es) s =
    ap (λ m. m >>= λ t. run_tls es t) (tls_step_at-step_at s.thread e s)
    ∙ ap (λ f. step_at s.thread (as_event e) s >>= f) (fun_ext (run_tls-run es))

as_events-append : (es fs : List TlsEvent) → as_events (es ++ fs) ≡ as_events es ++ as_events fs
as_events-append [] fs = refl
as_events-append (e ∷ es) fs = ap (◌∷◌ (as_event e)) (as_events-append es fs)

-- main of the server with TLS ends as that of the iterative server.
pub main_tls_server-main_server :
    (before after : List TlsEvent)
    → main_tls_server before after ≡ main_server (as_events before) (as_events after)
unfolding main_tls_server main_server
main_tls_server-main_server before after =
    ap exit_of_server (run_tls-run (before ++ stops ∷ after) start)
    ∙ ap (λ es. exit_of_server (run es start)) (as_events-append before (stops ∷ after))
