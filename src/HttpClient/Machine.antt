-- ===== src/HttpClient/Machine.antt =====
-- The life of one HTTPRequest: the I/O thread delivers completions, and the user may cancel between
-- any two handlers. The handlers run on one thread, and a cancellation inside a handler has the
-- effect of one before or behind it, so the schedules of `run` are all there are.
use boost_asio_cpp_network_p.Common.{ℕ, suc, Bool, none, some, List, [], ◌∷◌, ◌++◌, Bytes}
use boost_asio_cpp_network_p.Asio.{ErrorCode, Completion, Result, ok, ◌>>=◌}
use boost_asio_cpp_network_p.HttpClient.Response.{HttpResponse}
use boost_asio_cpp_network_p.HttpClient.Request.{
  Operation, async_resolve, async_connect, async_write, read_status_line, read_headers, read_body,
  HttpRequest, cancel, on_host_name_resolved, on_connection_established, on_request_sent,
  on_status_line_received, on_headers_received, on_response_body_received,
}

abbrev pub receive : Bytes → HttpResponse → HttpResponse
receive s r = record r { stream = record (r.stream) { chars = r.stream.chars ++ s } }

-- The handler that the operation was started with. A read with a delimiter that ends with success
-- has put it into the buffer: where that matters it is a hypothesis, HttpText.Holds.
unfoldable pub dispatch : Operation → Completion → HttpRequest → Result HttpRequest
dispatch (async_resolve host port) c r = ok (on_host_name_resolved c.ec r)
dispatch async_connect c r = ok (on_connection_established c.ec r)
dispatch (async_write buffer) c r = on_request_sent c.ec c.bytes_transferred c.shutdown_ec r
dispatch (read_status_line delim) c r = ok (on_status_line_received c.ec c.bytes_transferred r)
dispatch (read_headers delim) c r = ok (on_headers_received c.ec c.bytes_transferred r)
dispatch read_body c r = ok (on_response_body_received c.ec c.bytes_transferred r)

unfoldable pub complete : Completion → HttpRequest → Result HttpRequest
complete c r = elim r.pending [
  | none ↦ ok r
  | some op ↦ dispatch op c (record r { pending = none; response = receive c.received r.response })
]

-- What cancel() throws is met by its caller, which is not the I/O thread: the request goes on.
pub data Event : Type 0 where
  completes : Completion → Event
  cancels : Bool → ErrorCode → Event

unfoldable pub step : Event → HttpRequest → Result HttpRequest
step (completes c) r = complete c r
step (cancels is_open ec) r = ok (cancel is_open ec r).0

unfoldable pub run : List Event → HttpRequest → Result HttpRequest
run [] r = ok r
run (e ∷ es) r = step e r >>= λ q. run es q

abbrev pub completions : List Event → ℕ
completions [] = 0
completions (completes c ∷ es) = suc (completions es)
completions (cancels b ec ∷ es) = completions es
