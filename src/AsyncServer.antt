-- ===== src/AsyncServer.antt =====
-- The classes Acceptor and Server of the servers with a pool of threads, http_server.cpp and
-- tcp_asynchronous.cpp: they differ only in how a connection is handled, here `start_handling`.
-- `S` is the state of the service that handles a connection, `C` what is known of a new client.
mod Accepting
mod Lifecycle
mod TcpService
mod Examples
use boost_asio_cpp_network_p.Common.{
  ℕ, zero, suc, Bool, true, false, not, List, [], ◌∷◌, ◌++◌, replicate, ltb, ◌==◌, if◌then◌else◌,
}
use boost_asio_cpp_network_p.Asio.{
  ErrorCode, Result, ok, throws, aborts, ◌>>=◌, ◌>>◌, check, assert, is_error,
}

-- `accepting`: an async_accept is pending.
pub record Acceptor (S : Type 0) : Type 0 where
  pub is_stopped : Bool
  pub is_open : Bool
  pub accepting : Bool
  pub services : List S
  pub errors : List ErrorCode

-- What reaches the acceptor: the end of an accept, or stop() from the main thread.
pub data AcceptorEvent (C : Type 0) : Type 0 where
  accepts : ErrorCode → C → AcceptorEvent C
  stops : AcceptorEvent C

-- `joinable` has an entry for each thread; `is_running` says that run() of the io_context has not
-- been told to return.
pub record Server (S : Type 0) : Type 0 where
  pub acceptor : Acceptor S
  pub is_running : Bool
  pub joinable : List Bool

-- The loop over the threads: one that is joinable is joined.
abbrev pub join_all : List Bool → List Bool
join_all [] = []
join_all (joinable ∷ threads) = (if joinable then false else joinable) ∷ join_all threads

module _ {S : Type 0} where
  abbrev pub created : Acceptor S
  created = record {
    is_stopped = false;
    is_open = true;
    accepting = false;
    services = [];
    errors = [];
  }

  -- The constructor: the acceptor is opened and bound, which may fail with `bind_ec`.
  unfoldable pub new_acceptor : ErrorCode → Result (Acceptor S)
  new_acceptor bind_ec = check bind_ec >> ok created

  unfoldable pub init_accept : Acceptor S → Acceptor S
  init_accept a = record a { accepting = true }

  unfoldable pub start_acceptor : ErrorCode → Acceptor S → Result (Acceptor S)
  start_acceptor listen_ec a = check listen_ec >> ok (init_accept a)

  unfoldable pub stop_acceptor : Acceptor S → Acceptor S
  stop_acceptor a = record a { is_stopped = true }

  unfoldable pub close_acceptor : Acceptor S → Acceptor S
  close_acceptor a = record a { is_open = false; accepting = false }

  -- The handler of async_accept, the service of the client already set up.
  unfoldable pub on_accept : ErrorCode → S → Acceptor S → Acceptor S
  on_accept ec service a =
      let served : Acceptor S = record a { services = a.services ++ (service ∷ []) } in
      if is_error ec
      then record a { errors = a.errors ++ (ec ∷ []) }
      else if not a.is_stopped
      then init_accept served
      else close_acceptor served

  abbrev pub with_threads : ℕ → Acceptor S → Server S
  with_threads thread_pool_size a = record {
    acceptor = a;
    is_running = true;
    joinable = replicate thread_pool_size true;
  }

  -- Server::start of tcp_asynchronous.cpp.
  unfoldable pub start_server : ErrorCode → ErrorCode → ℕ → Result (Server S)
  start_server bind_ec listen_ec thread_pool_size =
      assert (ltb 0 thread_pool_size) >> new_acceptor bind_ec >>= start_acceptor listen_ec >>= λ a.
      ok (with_threads thread_pool_size a)

  -- Server::start of http_server.cpp.
  unfoldable pub start_http_server : Bool → ErrorCode → ErrorCode → ℕ → Result (Server S)
  start_http_server is_directory bind_ec listen_ec thread_pool_size =
      assert is_directory
      >> assert (ltb 0 thread_pool_size)
      >> new_acceptor bind_ec
      >>= start_acceptor listen_ec
      >>= λ a. ok (with_threads thread_pool_size a)

  unfoldable pub stop_server : Server S → Server S
  stop_server s = record s {
    acceptor = stop_acceptor s.acceptor;
    is_running = false;
    joinable = join_all s.joinable;
  }

-- The number of threads that main asks for, where the machine tells `hardware_concurrency`.
unfoldable pub thread_pool_size : ℕ → ℕ
thread_pool_size hardware_concurrency =
    if hardware_concurrency == 0 then 2 else hardware_concurrency

-- What main makes of a server: it is stopped, or there is none because the start has thrown, which
-- is printed.
pub data Ended (S : Type 0) : Type 0 where
  stopped : Server S → Ended S
  printed : ErrorCode → Ended S

module _ {S : Type 0} where
  abbrev pub end_server : Result (Server S) → Result (Ended S)
  end_server (ok s) = ok (stopped (stop_server s))
  end_server (throws ec) = ok (printed ec)
  end_server aborts = aborts

  -- main of tcp_asynchronous.cpp.
  unfoldable pub main_server : ErrorCode → ErrorCode → ℕ → Result (Ended S)
  main_server bind_ec listen_ec hardware_concurrency =
      end_server (start_server bind_ec listen_ec (thread_pool_size hardware_concurrency))

  -- main of http_server.cpp.
  unfoldable pub main_http_server : Bool → ErrorCode → ErrorCode → ℕ → Result (Ended S)
  main_http_server is_directory bind_ec listen_ec hardware_concurrency =
      end_server
        (start_http_server is_directory bind_ec listen_ec (thread_pool_size hardware_concurrency))

module _ {S C : Type 0} (start_handling : C → S) where
  -- The pending accept ends when its handler is called.
  unfoldable pub acceptor_step : AcceptorEvent C → Acceptor S → Acceptor S
  acceptor_step stops a = stop_acceptor a
  acceptor_step (accepts ec client) a =
      if a.accepting
      then on_accept ec (start_handling client) (record a { accepting = false })
      else a

  unfoldable pub acceptor_run : List (AcceptorEvent C) → Acceptor S → Acceptor S
  acceptor_run [] a = a
  acceptor_run (e ∷ es) a = acceptor_run es (acceptor_step e a)

  -- A handler is called by one of the threads, as long as the io_context runs.
  unfoldable pub server_step : ErrorCode → C → Server S → Server S
  server_step ec client s =
      if s.is_running
      then record s { acceptor = acceptor_step (accepts ec client) s.acceptor }
      else s
