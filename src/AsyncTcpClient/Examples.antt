-- ===== src/AsyncTcpClient/Examples.antt =====
-- The asynchronous client at concrete requests.
use boost_asio_cpp_network_p.Common.{◌≢◌}
use boost_asio_cpp_network_p.Common.{
  ◌≡◌, refl, some, true, false, List, [], ◌∷◌, codes, All, none, arith,
}
use boost_asio_cpp_network_p.Asio.{success, eof, operation_aborted, is_error, arrives, ok}
use boost_asio_cpp_network_p.Cxx.Signed.{pos}
use boost_asio_cpp_network_p.Cxx.Stream.{getline}
use boost_asio_cpp_network_p.LongOp.{prepare_request, process_buffer}
use boost_asio_cpp_network_p.AsyncTcpClient.{
  Session, Client, Event, new_client, emulates, cancels, completes, async_connect, async_write,
  start, cancel, new_session, run, step, emulate_long_computation_op, cancel_request, complete_at,
  complete, dispatch, on_connect, on_request_complete, invoke_callback,
}
use boost_asio_cpp_network_p.AsyncTcpClient.Sessions.{run_session, run_session-cancel}
use boost_asio_cpp_network_p.AsyncTcpClient.{find}
use boost_asio_cpp_network_p.AsyncTcpClient.Registry.Runs.{AllNewNumbers, owner, run_refines}
use boost_asio_cpp_network_p.Common.{ℕ, ◌≤◌, ◌⊎◌}
use boost_asio_cpp_network_p.Programs.{terminated}
use boost_asio_cpp_network_p.AsyncTcpClient.Closing.{
  close, thread_ends, drain, Completions, Schedule, main_async_client,
}
use boost_asio_cpp_network_p.AsyncTcpClient.Closing.Drained.{HasPending, AreCalled, close_returns}
use boost_asio_cpp_network_p.AsyncTcpClient.Closing.Main.{main_async_client_ends}
use boost_asio_cpp_network_p.AsyncTcpClient.Lifecycle.{run_session_answered}

abbrev session : Session
session = start async_connect (new_session (prepare_request (pos 3)) 1)

run_session-cancel_example :
    All
      (λ c. is_error c.ec ≡ true)
      (run_session (arrives success [] ∷ []) ((cancel eof session).0, [])).0.calls
unfolding new_session
run_session-cancel_example =
    run_session-cancel (arrives success [] ∷ []) session [] async_connect eof refl refl

abbrev events : List Event
events = emulates success (pos 3) 1 ∷ cancels 1 success ∷ completes 0 (arrives success []) ∷ []

abbrev cancelled : Client
cancelled = record {
  sessions =
      record {
        id = 1;
        request = prepare_request (pos 3);
        response_buf = [];
        was_cancelled = true;
        pending = none;
        calls = record { response = []; ec = operation_aborted } ∷ [];
      }
      ∷ [];
  active = [];
}

cancelled_before_connect : run events new_client ≡ ok cancelled
unfolding run step emulate_long_computation_op cancel_request cancel complete_at complete dispatch
    on_connect on_request_complete invoke_callback new_session getline
cancelled_before_connect = refl

run_session_answered_example :
    ((run_session (arrives success [] ∷ []) (session, [])).0.pending
      ≡ some (async_write (prepare_request (pos 3))))
    × ((run_session
          (arrives success []
            ∷ arrives success []
            ∷ arrives success (process_buffer (prepare_request (pos 3))).response
            ∷ [])
          (session, [])).0.calls
        ≡ record { response = codes "OK"; ec = success } ∷ [])
run_session_answered_example = run_session_answered (pos 3) 1 [] (omega arith)

-- Two requests, of which the first is over.
abbrev two_requests : List Event
two_requests =
    emulates success (pos 3) 1 ∷ emulates success (pos 3) 2 ∷ completes 0 (arrives eof []) ∷ []

abbrev second_left : Client
second_left = record {
  sessions =
      record {
        id = 1;
        request = prepare_request (pos 3);
        response_buf = [];
        was_cancelled = false;
        pending = none;
        calls = record { response = []; ec = eof } ∷ [];
      }
      ∷ record {
        id = 2;
        request = prepare_request (pos 3);
        response_buf = [];
        was_cancelled = false;
        pending = some async_connect;
        calls = [];
      }
      ∷ [];
  active = (2, 1) ∷ [];
}

run-two_requests : run two_requests new_client ≡ ok second_left
unfolding run step emulate_long_computation_op complete_at complete dispatch on_connect
    on_request_complete invoke_callback new_session getline
run-two_requests = refl

two_requests_new : AllNewNumbers two_requests new_client
unfolding run step emulate_long_computation_op complete_at complete dispatch on_connect
    on_request_complete invoke_callback new_session getline
two_requests_new = (refl, (refl, (tt, tt)))

run_refines_example : find 2 second_left.active ≡ owner 2 0 second_left.sessions
run_refines_example = run_refines two_requests second_left 2 two_requests_new run-two_requests

-- The second request ends too.
abbrev second_ends : Completions
second_ends = (1, arrives eof []) ∷ []

close_returns_example :
    (1 ≤ 6)
    × (((thread_ends (
              close (record {
                client = drain second_ends second_left;
                has_work = true;
                joinable = true;
              }))
            ≡ true)
          × AreCalled (drain second_ends second_left).sessions)
        ⊎ ((n : ℕ) × HasPending n (drain second_ends second_left)))
close_returns_example =
    close_returns two_requests second_left second_ends run-two_requests ((_, refl, refl), tt)

abbrev quiet : Schedule
quiet = record { after_first = []; after_second = []; after_cancel = []; after_third = [] }

main_async_client_ends_example :
    (main_async_client success success eof eof quiet ≡ terminated)
    × (main_async_client success success success success quiet ≢ terminated)
unfolding drain
main_async_client_ends_example = main_async_client_ends success success eof eof quiet
