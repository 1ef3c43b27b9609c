-- ===== src/HttpClient/Examples.antt =====
-- The theorems on http_client.cpp at concrete requests, and runs of its functions.
use boost_asio_cpp_network_p.Common.{
  ◌+◌, ◌≡◌, refl, true, false, none, List, [], ◌∷◌, codes, length, arith,
}
use boost_asio_cpp_network_p.Asio.{arrives, success, eof, operation_aborted, system_error, ok}
use boost_asio_cpp_network_p.Cxx.Stream.{fresh}
use boost_asio_cpp_network_p.Cxx.Charconv.{to_chars}
use boost_asio_cpp_network_p.HttpText.{print_status_line}
use boost_asio_cpp_network_p.HttpClient.Response.{HttpResponse, new_response, message}
use boost_asio_cpp_network_p.HttpClient.Request.{
  async_resolve, read_status_line, crlf, HttpRequest, cancel, execute, start, request_text,
  on_host_name_resolved, cancel_socket, cancel_resolver,
}
use boost_asio_cpp_network_p.HttpClient.Machine.{
  Event, completes, cancels, run, step, complete, dispatch,
}
use boost_asio_cpp_network_p.HttpClient.Lifecycle.{waiting, execute-run_calls, execute-run_finishes}
use boost_asio_cpp_network_p.HttpClient.Cancel.{AllFailed, cancel-run_fails}
use boost_asio_cpp_network_p.Common.{replicate, All}
use boost_asio_cpp_network_p.HttpClient.Client.{
  HttpClient, thread_ends, main_calls, main_http_client,
}
use boost_asio_cpp_network_p.Programs.{zero_status}
use boost_asio_cpp_network_p.HttpClient.Client.Finishing.{IsAnswered, main_http_client_finishes}
use boost_asio_cpp_network_p.HttpClient.Delivery.{awaits, delivered, run_delivers}

abbrev asked : HttpRequest
asked = record {
  port = 80;
  host = codes "h";
  uri = codes "/a";
  id = 1;
  has_callback = true;
  request_buf = [];
  response = new_response;
  was_cancelled = false;
  pending = none;
  calls = [];
  cancel_calls = [];
}

abbrev started : HttpRequest
started = start (async_resolve (codes "h") (codes "80")) asked

asked_starts : execute asked ≡ ok started
unfolding execute to_chars
asked_starts = refl

request_text_test :
    request_text (codes "/a") (codes "h") ≡ codes "GET /a HTTP/1.1\r\nHOST: h\r\n\r\n"
unfolding request_text
request_text_test = refl

message_test : message 1 ≡ codes "Server response cannot be parsed."
unfolding message
message_test = refl

abbrev fails : Event
fails = completes (arrives (system_error 111) [])

abbrev answers : Event
answers = completes (arrives success [])

abbrev refused : HttpRequest
refused = record started { pending = none; calls = (system_error 111, new_response) ∷ [] }

execute-run_calls_example : waiting refused.pending + length refused.calls ≡ 1
execute-run_calls_example =
    execute-run_calls asked started refused (fails ∷ []) refl refl asked_starts
      (unfold run step complete dispatch on_host_name_resolved in refl)

abbrev schedule : List Event
schedule = answers ∷ cancels true success ∷ answers ∷ answers ∷ answers ∷ answers ∷ answers ∷ []

execute-run_finishes_example :
    (q : HttpRequest) × (run schedule started ≡ ok q) × (q.pending ≡ none) × (length q.calls ≡ 1)
execute-run_finishes_example =
    execute-run_finishes asked started schedule refl refl asked_starts
      (refl, (tt, (refl, (refl, (refl, (refl, (refl, tt))))))) (omega arith)

abbrev stopped : HttpRequest
stopped = record started {
  was_cancelled = true;
  cancel_calls = cancel_socket ∷ cancel_resolver ∷ [];
  pending = none;
  calls = (operation_aborted, new_response) ∷ [];
}

cancel-run_fails_example : AllFailed stopped.calls
cancel-run_fails_example =
    cancel-run_fails true success started stopped (answers ∷ []) refl tt
      (unfold run step complete dispatch on_host_name_resolved cancel in refl)

abbrev line_read : HttpResponse
line_read = record new_response { stream = fresh (print_status_line 404 (codes "Not Found") []) }

abbrev too_large : HttpResponse
too_large = record new_response { stream = fresh (print_status_line 65736 (codes "OK") []) }

abbrev old_version : HttpResponse
old_version = record new_response { stream = fresh (codes "HTTP/1.0 200 OK\r\n") }

abbrev headers_read : HttpResponse
headers_read = record new_response { stream = fresh (codes "a:b\r\n\r\nbody") }

run_delivers_example :
    run
      (completes (arrives success (print_status_line 200 (codes "OK") (codes "a:b\r\n")))
        ∷ completes (arrives success (codes "\r\nbo"))
        ∷ completes (arrives eof (codes "dy"))
        ∷ [])
      (awaits (read_status_line crlf) new_response asked)
    ≡ ok (record asked {
      pending = none;
      was_cancelled = false;
      response = delivered 200 (codes "OK") ((codes "a", codes "b") ∷ []) (codes "body");
      calls =
          (success, delivered 200 (codes "OK") ((codes "a", codes "b") ∷ []) (codes "body"))
          ∷ asked.calls;
    })
run_delivers_example =
    run_delivers asked 200 (codes "OK") ((codes "a", codes "b") ∷ []) (codes "a:b\r\n")
      (codes "\r\nbo") (codes "bo") (codes "dy") (omega arith) (ground arith)
      ((ground arith, ground arith, ground arith), tt) refl (codes "a:b", codes "bo", refl)

-- Six errors, of which the first is met.
abbrev failures : List Event
failures = replicate 6 fails

main_http_client_finishes_example :
    (client : HttpClient) × (main_calls failures (answers ∷ []) true success failures failures
      ≡ ok client)
    × (thread_ends client ≡ true)
    × All IsAnswered client.requests
    × (main_http_client failures (answers ∷ []) true success failures failures ≡ zero_status)
main_http_client_finishes_example =
    main_http_client_finishes failures (answers ∷ []) true success failures failures
      (refl, (refl, (refl, (refl, (refl, (refl, tt))))))
      (refl, (tt, (refl, (refl, (refl, (refl, (refl, (refl, tt))))))))
      (refl, (refl, (refl, (refl, (refl, (refl, tt)))))) (omega arith) (omega arith) (omega arith)
