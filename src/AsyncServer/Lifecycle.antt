-- ===== src/AsyncServer/Lifecycle.antt =====
-- The start and the stop of the servers with a pool of threads.
use boost_asio_cpp_network_p.Common.{
  ℕ, Bool, true, false, List, [], ◌∷◌, ◌≡◌, refl, sym, ap, ◌∙◌, ◌⊎◌, inl, inr, subst, ltb, All,
  arith,
}
use boost_asio_cpp_network_p.Asio.{
  ErrorCode, Result, ok, throws, ◌>>=◌, ◌>>◌, check, assert, bind_returned, ok-injective,
}
use boost_asio_cpp_network_p.AsyncServer.Accepting.{
  IsConsistent, acceptor_run-IsConsistent, all_accepted, all_services, acceptor_run_serves,
}
use boost_asio_cpp_network_p.AsyncServer.{
  main_http_server, thread_pool_size, Ended, end_server, created, acceptor_run, AcceptorEvent,
  Server, with_threads, new_acceptor, init_accept, start_acceptor, join_all, start_server,
  start_http_server, stop_server, server_step,
}

module _ {S : Type 0} where
  -- A start that returns leaves an acceptor that accepts and has served nobody yet, and as many
  -- threads as asked for.
  start_http_server_state :
      (is_directory : Bool) (bind_ec listen_ec : ErrorCode) (thread_pool_size : ℕ) (s : Server S)
      → start_http_server is_directory bind_ec listen_ec thread_pool_size ≡ ok s
      → s ≡ with_threads thread_pool_size (init_accept created)
  unfolding start_http_server start_acceptor new_acceptor
  start_http_server_state d b l n s h =
      let bound = assert d >> assert (ltb 0 n) >> new_acceptor b in
      let last = bind_returned (λ a. ok (with_threads n a)) (bound >>= start_acceptor l) h in
      let listening = bind_returned (start_acceptor l) bound last.1 in
      let started = bind_returned (λ _. ok (init_accept listening.0)) (check l) listening.2 in
      let opened = bind_returned (λ _. new_acceptor b) (assert d >> assert (ltb 0 n)) listening.1 in
      let made = bind_returned (λ _. ok created) (check b) opened.2 in
      sym (ok-injective (with_threads n last.0) s last.2)
      ∙ ap (with_threads n) (sym (ok-injective (init_accept listening.0) last.0 started.2))
      ∙ ap (λ a. with_threads n (init_accept a)) (sym (ok-injective created listening.0 made.2))

  -- tcp_asynchronous.cpp starts as http_server.cpp does, but for the test of the directory.
  pub start_server-start_http_server :
      (bind_ec listen_ec : ErrorCode) (thread_pool_size : ℕ)
      → start_server {S = S} bind_ec listen_ec thread_pool_size
        ≡ start_http_server true bind_ec listen_ec thread_pool_size
  unfolding start_server start_http_server
  start_server-start_http_server b l n = refl

thread_pool_size-positive : (n : ℕ) → ltb 0 (thread_pool_size n) ≡ true
unfolding thread_pool_size
thread_pool_size-positive n = ground arith

abbrev pub IsReturned : {S : Type 0} → Result (Ended S) → Type 0
IsReturned (ok e) = Unit
IsReturned _ = ⊥

check-cases : (ec : ErrorCode) → (check ec ≡ ok tt) ⊎ (check ec ≡ throws ec)
check-cases ErrorCode.success = inl refl
check-cases _ = inr refl

module _ (S : Type 0) where
  started_IsReturned :
      (bind_ec listen_ec : ErrorCode) (n : ℕ)
      → IsReturned (
          end_server {S = S}
            (new_acceptor bind_ec >>= start_acceptor listen_ec >>= λ a. ok (with_threads n a)))
  unfolding new_acceptor start_acceptor
  started_IsReturned b l n = elim (check-cases b) [
    | inr e ↦ rw e tt
    | inl e ↦ elim (check-cases l) [ inr d ↦ rw (e, d) tt | inl d ↦ rw (e, d) tt ]
  ]

  -- With a root that is a directory main always comes to its end: no assertion fails, whatever the
  -- machine tells about its threads, and what the sockets throw is caught.
  pub main_http_server_returns :
      (bind_ec listen_ec : ErrorCode) (hardware_concurrency : ℕ)
      → IsReturned (main_http_server {S = S} true bind_ec listen_ec hardware_concurrency)
  unfolding main_http_server start_http_server
  main_http_server_returns b l n =
      rw (thread_pool_size-positive n) (started_IsReturned b l (thread_pool_size n))

module _ {S C : Type 0} (start_handling : C → S) where
  join_all_done : (threads : List Bool) → All (λ j. j ≡ false) (join_all threads)
  join_all_done [] = tt
  join_all_done (true ∷ threads) = (refl, join_all_done threads)
  join_all_done (false ∷ threads) = (refl, join_all_done threads)

  start_http_server-IsConsistent :
      (is_directory : Bool) (bind_ec listen_ec : ErrorCode) (thread_pool_size : ℕ) (s : Server S)
      → start_http_server is_directory bind_ec listen_ec thread_pool_size ≡ ok s
      → IsConsistent s.acceptor
  unfolding IsConsistent init_accept
  start_http_server-IsConsistent d b l n s h =
      subst (λ t. IsConsistent t.acceptor) (sym (start_http_server_state d b l n s h)) refl

  -- If Server::start returns, then the accept loop stays consistent whatever happens: an acceptor
  -- that accepts is open, one that was closed had been stopped, and an open acceptor that accepts
  -- nothing has met an error.
  pub acceptor_run-start_http_server :
      (is_directory : Bool) (bind_ec listen_ec : ErrorCode) (thread_pool_size : ℕ) (s : Server S)
      (es : List (AcceptorEvent C))
      → start_http_server is_directory bind_ec listen_ec thread_pool_size ≡ ok s
      → IsConsistent (acceptor_run start_handling es s.acceptor)
  acceptor_run-start_http_server d b l n s es h =
      acceptor_run-IsConsistent start_handling es s.acceptor
        (start_http_server-IsConsistent d b l n s h)

  -- If Server::start returns, and then only clients arrive, every one of them gets its service, in
  -- the order of the arrivals.
  pub start_http_server_serves :
      (is_directory : Bool) (bind_ec listen_ec : ErrorCode) (thread_pool_size : ℕ) (s : Server S)
      (clients : List C)
      → start_http_server is_directory bind_ec listen_ec thread_pool_size ≡ ok s
      → (acceptor_run start_handling (all_accepted clients) s.acceptor).services
        ≡ all_services start_handling clients
  unfolding init_accept
  start_http_server_serves d b l n s clients h =
      let state = start_http_server_state d b l n s h in
      subst
        (λ t.
          (acceptor_run start_handling (all_accepted clients) t.acceptor).services
          ≡ all_services start_handling clients)
        (sym state) (acceptor_run_serves start_handling clients (init_accept created) refl refl)

  -- Once stop() has returned every thread is joined, and no connection reaches the server.
  pub server_step-stop_server :
      (ec : ErrorCode) (client : C) (s : Server S)
      → (server_step start_handling ec client (stop_server s) ≡ stop_server s)
        × All (λ j. j ≡ false) (stop_server s).joinable
  unfolding server_step stop_server
  server_step-stop_server ec client s = (refl, join_all_done s.joinable)
