-- ===== src/HttpClient/Client.antt =====
-- The class HTTPClient, the callback and main of http_client.cpp.
pub mod Finishing
use boost_asio_cpp_network_p.Common.{
  ℕ, Bool, true, false, not, ◌&&◌, Option, none, some, List, [], ◌∷◌, ◌++◌, Bytes, codes,
  if◌then◌else◌,
}
use boost_asio_cpp_network_p.Asio.{
  ErrorCode, Result, ok, throws, aborts, ◌>>=◌, ◌>>◌, is_error, is_aborted,
}
use boost_asio_cpp_network_p.Programs.{
  Exit, zero_status, value, terminated, blocked, destroy_thread,
}
use boost_asio_cpp_network_p.HttpClient.Response.{HttpResponse}
use boost_asio_cpp_network_p.HttpClient.Request.{
  Operation, HttpRequest, create_request, set_host, set_port, set_uri, set_callback, execute,
  cancel,
}
use boost_asio_cpp_network_p.HttpClient.Machine.{Event, completes, cancels, run}

-- What the callback prints; of a response, what is left in its stream.
pub data Printed : Type 0 where
  has_completed : ℕ → Bytes → Printed
  has_been_cancelled : ℕ → Printed
  has_failed : ℕ → ErrorCode → Printed

unfoldable pub handle : HttpRequest → HttpResponse → ErrorCode → Printed
handle request response ec =
    if is_error ec
    then (if is_aborted ec then has_been_cancelled request.id else has_failed request.id ec)
    else has_completed request.id response.stream.chars

abbrev pub print_calls : HttpRequest → List (ErrorCode × HttpResponse) → List Printed
print_calls r [] = []
print_calls r (call ∷ calls) = handle r call.1 call.0 ∷ print_calls r calls

abbrev pub is_idle : Option Operation → Bool
is_idle none = true
is_idle (some op) = false

abbrev pub all_idle : List HttpRequest → Bool
all_idle [] = true
all_idle (r ∷ requests) = is_idle r.pending && all_idle requests

-- The client has a thread, which is joinable until close() has joined it. The thread leaves run() when the work guard is reset and nothing is pending.
pub record HttpClient : Type 0 where
  pub requests : List HttpRequest
  pub has_work : Bool
  pub joinable : Bool

unfoldable pub close : HttpClient → HttpClient
close client = record client { has_work = false }

unfoldable pub thread_ends : HttpClient → Bool
thread_ends client = not client.has_work && all_idle client.requests

-- A request as main makes it.
unfoldable pub prepare : ℕ → Bytes → Bytes → HttpRequest
prepare id host uri = set_callback (set_port 80 (set_uri uri (set_host host (create_request id))))

abbrev pub request_one : HttpRequest
request_one = prepare 1 (codes "localhost") (codes "/")

abbrev pub request_two : HttpRequest
request_two = prepare 2 (codes "localhost") (codes "/example.html")

abbrev pub request_thr : HttpRequest
request_thr = prepare 3 (codes "127.0.0.1") (codes "/index.html")

-- An exception that leaves the I/O thread has no handler there.
abbrev pub on_thread : Result HttpRequest → Result HttpRequest
on_thread (ok r) = ok r
on_thread (throws ec) = aborts
on_thread aborts = aborts

-- The try block of main to its last call. The events of the three requests, which share nothing but the thread. The second is cancelled
-- when some of its operations may have completed.
unfoldable pub main_calls :
    List Event → List Event → Bool → ErrorCode → List Event → List Event → Result HttpClient
main_calls es_one es_before is_open cancel_ec es_after es_thr = execute request_one >>= (λ one.
    execute request_two >>= λ two. on_thread (run es_before two) >>= λ before.
    (cancel is_open cancel_ec before).1
    >> (execute request_thr >>= λ thr. on_thread (run es_one one) >>= λ one_done.
        on_thread (run es_after (cancel is_open cancel_ec before).0) >>= λ two_done.
        on_thread (run es_thr thr) >>= λ thr_done. ok (
          close (record {
            requests = one_done ∷ two_done ∷ thr_done ∷ [];
            has_work = true;
            joinable = true;
          }))))

abbrev pub joined : HttpClient → HttpClient
joined client = record client { joinable = false }

-- close() waits for the thread and joins it; an exception leaves the block of the client before
-- that, and reaches the handler that returns its value only behind the destructor of the thread.
abbrev pub exit_of_calls : Result HttpClient → Exit
exit_of_calls (ok client) =
    if thread_ends client then destroy_thread (joined client).joinable zero_status else blocked
exit_of_calls (throws ec) = destroy_thread true (value ec)
exit_of_calls aborts = terminated

unfoldable pub main_http_client :
    List Event → List Event → Bool → ErrorCode → List Event → List Event → Exit
main_http_client es_one es_before is_open cancel_ec es_after es_thr =
    exit_of_calls (main_calls es_one es_before is_open cancel_ec es_after es_thr)
