-- ===== src/AsyncServer/Examples.antt =====
-- The servers with a pool of threads at concrete clients, given by numbers.
use boost_asio_cpp_network_p.Common.{
  ℕ, ◌≡◌, ◌≤◌, ◌+◌, suc, refl, true, false, List, [], ◌∷◌, ◌++◌, length, All, arith,
}
use boost_asio_cpp_network_p.Asio.{success, eof, ok, arrives}
use boost_asio_cpp_network_p.Cxx.Signed.{pos}
use boost_asio_cpp_network_p.LongOp.{done, prepare_request}
use boost_asio_cpp_network_p.AsyncServer.{
  Acceptor, Server, AcceptorEvent, accepts, stops, created, with_threads, init_accept,
  stop_acceptor, stop_server, server_step, acceptor_run, start_http_server, start_acceptor,
  new_acceptor,
}
use boost_asio_cpp_network_p.AsyncServer.Accepting.{
  IsConsistent, all_accepted, all_services, acceptor_run_stopped, acceptor_run_failed,
}
use boost_asio_cpp_network_p.AsyncServer.Lifecycle.{
  acceptor_run-start_http_server, start_http_server_serves, server_step-stop_server,
}
use boost_asio_cpp_network_p.AsyncServer.TcpService.{
  answered, run, start_handling, run-prepare_request,
}

abbrev serve : ℕ → ℕ
serve client = client + 100

abbrev events : List (AcceptorEvent ℕ)
events = accepts success 1 ∷ stops ∷ accepts success 2 ∷ accepts success 3 ∷ []

abbrev started : Server ℕ
started = with_threads 2 (init_accept created)

start_returns : start_http_server true success success 2 ≡ ok started
unfolding start_http_server start_acceptor new_acceptor
start_returns = refl

abbrev stopped : Acceptor ℕ
stopped = stop_acceptor started.acceptor

stop_is_set : stopped.is_stopped ≡ true
unfolding stop_acceptor
stop_is_set = refl

acceptor_run-start_http_server_example : IsConsistent (acceptor_run serve events started.acceptor)
acceptor_run-start_http_server_example =
    acceptor_run-start_http_server serve true success success 2 started events start_returns

start_http_server_serves_example :
    (acceptor_run serve (all_accepted (1 ∷ 2 ∷ [])) started.acceptor).services
    ≡ all_services serve (1 ∷ 2 ∷ [])
start_http_server_serves_example =
    start_http_server_serves serve true success success 2 started (1 ∷ 2 ∷ []) start_returns

acceptor_run_stopped_example :
    length (acceptor_run serve events stopped).services ≤ suc (length stopped.services)
acceptor_run_stopped_example = acceptor_run_stopped serve events stopped stop_is_set

acceptor_run_failed_example :
    (acceptor_run serve (accepts eof 7 ∷ events) started.acceptor).services
    ≡ started.acceptor.services
acceptor_run_failed_example = acceptor_run_failed serve eof 7 events started.acceptor refl

server_step-stop_server_example :
    (server_step serve success 5 (stop_server started) ≡ stop_server started)
    × All (λ j. j ≡ false) (stop_server started).joinable
server_step-stop_server_example = server_step-stop_server serve success 5 started

run-prepare_request_example :
    run (arrives success (prepare_request (pos 3) ++ []) ∷ arrives success [] ∷ []) start_handling
    ≡ answered (prepare_request (pos 3) ++ []) (done (pos 3)) success
run-prepare_request_example = run-prepare_request (pos 3) [] success [] (omega arith)
