-- ===== src/HttpClient/Request.antt =====
-- The class HTTPRequest: a chain of asynchronous operations, each handler of which starts the next
-- one or calls the callback. `pending` is the operation that has not completed yet, and `calls`
-- holds the calls of the callback, the last one first.
use boost_asio_cpp_network_p.Common.{
  ℕ, Bool, true, false, not, Option, none, some, List, [], ◌∷◌, ◌++◌, Bytes, codes, ◌==◌,
  if◌then◌else◌,
}
use boost_asio_cpp_network_p.Asio.{
  ErrorCode, success, operation_aborted, Result, ok, ◌>>◌, is_error, is_eof, check, assert,
}
use boost_asio_cpp_network_p.Cxx.Charconv.{to_chars}
use boost_asio_cpp_network_p.HttpClient.Response.{
  HttpResponse, new_response, invalid_response, make_error_code, is_empty, parse_status_line,
  parse_headers,
}

-- The asynchronous operations, with what they are given.
pub data Operation : Type 0 where
  async_resolve : Bytes → Bytes → Operation
  async_connect : Operation
  async_write : Bytes → Operation
  read_status_line : Bytes → Operation
  read_headers : Bytes → Operation
  read_body : Operation

pub data CancelCall : Type 0 where
  cancel_resolver cancel_socket : CancelCall

pub record HttpRequest : Type 0 where
  pub port : ℕ
  pub host : Bytes
  pub uri : Bytes
  pub id : ℕ
  pub has_callback : Bool
  pub request_buf : Bytes
  pub response : HttpResponse
  pub was_cancelled : Bool
  pub pending : Option Operation
  pub calls : List (ErrorCode × HttpResponse)
  pub cancel_calls : List CancelCall

unfoldable pub create_request : ℕ → HttpRequest
create_request id = record {
  port = 80;
  host = [];
  uri = [];
  id = id;
  has_callback = false;
  request_buf = [];
  response = new_response;
  was_cancelled = false;
  pending = none;
  calls = [];
  cancel_calls = [];
}

unfoldable pub set_host : Bytes → HttpRequest → HttpRequest
set_host host r = record r { host = host }

unfoldable pub set_port : ℕ → HttpRequest → HttpRequest
set_port port r = record r { port = port }

unfoldable pub set_uri : Bytes → HttpRequest → HttpRequest
set_uri uri r = record r { uri = uri }

unfoldable pub set_callback : HttpRequest → HttpRequest
set_callback r = record r { has_callback = true }

abbrev pub start : Operation → HttpRequest → HttpRequest
start op r = record r { pending = some op }

abbrev pub on_finish : ErrorCode → HttpRequest → HttpRequest
on_finish ec r = record r { calls = (ec, r.response) ∷ r.calls }

-- The cancellation test that stands before each operation that a handler starts.
abbrev pub start_unless_cancelled : Operation → HttpRequest → HttpRequest
start_unless_cancelled op r = if r.was_cancelled then on_finish operation_aborted r else start op r

unfoldable pub execute : HttpRequest → Result HttpRequest
execute r = do
  assert (not (r.port == 0))
  assert (not (is_empty r.host))
  assert (not (is_empty r.uri))
  assert r.has_callback
  elim (to_chars 5 r.port) [
    | none ↦ ok (on_finish (make_error_code invalid_response) r)
    | some port_str ↦ ok (start_unless_cancelled (async_resolve r.host port_str) r)
  ]

-- `is_open` is what the socket answers to the test, and `ec` how its cancel ends, which throws; the
-- other thread may have closed the socket in between.
unfoldable pub cancel : Bool → ErrorCode → HttpRequest → HttpRequest × Result (Unit {0})
cancel is_open ec r = (
  record r {
    was_cancelled = true;
    cancel_calls =
        if is_open
        then cancel_socket ∷ cancel_resolver ∷ r.cancel_calls
        else cancel_resolver ∷ r.cancel_calls;
  },
  if is_open then check ec else ok tt,
)

unfoldable pub on_host_name_resolved : ErrorCode → HttpRequest → HttpRequest
on_host_name_resolved ec r =
    if is_error ec then on_finish ec r else start_unless_cancelled async_connect r

abbrev pub crlf : Bytes
crlf = 13 ∷ 10 ∷ []

unfoldable pub request_text : Bytes → Bytes → Bytes
request_text uri host =
    codes "GET " ++ (uri ++ (codes " HTTP/1.1\r\n" ++ (codes "HOST: " ++ (host ++ (crlf ++ crlf)))))

unfoldable pub on_connection_established : ErrorCode → HttpRequest → HttpRequest
on_connection_established ec r =
    let q = record r { request_buf = request_text r.uri r.host } in
    if is_error ec
    then on_finish ec r
    else start_unless_cancelled (async_write (request_text r.uri r.host)) q

-- `shutdown_ec` is what the shutdown of the sending side ends with; it throws on an error.
unfoldable pub on_request_sent : ErrorCode → ℕ → ErrorCode → HttpRequest → Result HttpRequest
on_request_sent ec bytes_transferred shutdown_ec r =
    let sent = check shutdown_ec >> ok (start_unless_cancelled (read_status_line crlf) r) in
    if is_error ec then ok (on_finish ec r) else sent

unfoldable pub on_status_line_received : ErrorCode → ℕ → HttpRequest → HttpRequest
on_status_line_received ec bytes_transferred r =
    let (response, valid) = parse_status_line r.response in
    let q = record r { response = response } in
    if is_error ec
    then on_finish ec r
    else if valid
    then start_unless_cancelled (read_headers (crlf ++ crlf)) q
    else on_finish (make_error_code invalid_response) q

unfoldable pub on_headers_received : ErrorCode → ℕ → HttpRequest → HttpRequest
on_headers_received ec bytes_transferred r =
    if is_error ec
    then on_finish ec r
    else start_unless_cancelled read_body (record r { response = parse_headers r.response })

unfoldable pub on_response_body_received : ErrorCode → ℕ → HttpRequest → HttpRequest
on_response_body_received ec bytes_transferred r =
    if is_eof ec then on_finish success r else on_finish ec r
