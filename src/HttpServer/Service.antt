-- ===== src/HttpServer/Service.antt =====
-- The class Service: one connection, from the request line to the response. The object belongs to
-- the operation that is pending; with none pending it has been destroyed.
use boost_asio_cpp_network_p.Common.{
  ℕ, zero, suc, not, Option, none, some, List, [], ◌∷◌, ◌++◌, Bytes, codes, ◌==◌, if◌then◌else◌,
  beq, length,
}
use boost_asio_cpp_network_p.Asio.{
  ErrorCode, Result, ok, aborts, ◌>>=◌, ◌>>◌, is_error, is_not_found, check,
}
use boost_asio_cpp_network_p.Cxx.Stream.{Stream, fresh, getline, get, extract}
use boost_asio_cpp_network_p.Cxx.Charconv.{to_chars}
use boost_asio_cpp_network_p.Cxx.StringMap.{StringMap, emplace}
use boost_asio_cpp_network_p.HttpServer.Files.{
  Located, FileSystem, file, missing, unlistable, locate,
}

-- The operations, with the delimiter of a read and the buffers of a write.
pub data Operation : Type 0 where
  read_request_line : Bytes → Operation
  read_headers : Bytes → Operation
  write_response : List Bytes → Operation

pub record Service : Type 0 where
  pub resource_root : Bytes
  pub request : Bytes
  pub request_headers : StringMap
  pub requested_resource : Bytes
  pub resource_buffer : Bytes
  pub response_status_code : ℕ
  pub response_headers : Bytes
  pub response_status_line : Bytes
  pub pending : Option Operation
  pub responses : List (List Bytes)
  pub errors : List ErrorCode

abbrev pub crlf : Bytes
crlf = 13 ∷ 10 ∷ []

unfoldable pub start_handling : Bytes → Service
start_handling resource_root = record {
  resource_root = resource_root;
  request = [];
  request_headers = [];
  requested_resource = [];
  resource_buffer = [];
  response_status_code = 200;
  response_headers = crlf ++ crlf;
  response_status_line = [];
  pending = some (read_request_line crlf);
  responses = [];
  errors = [];
}

-- http_status_table.at: none where it throws.
unfoldable pub http_status : ℕ → Option Bytes
http_status code =
    if code == 200
    then some (codes "200 OK")
    else if code == 404
    then some (codes "404 Not Found")
    else if code == 413
    then some (codes "413 Request Entity Too Large")
    else if code == 500
    then some (codes "500 Server Error")
    else if code == 501
    then some (codes "501 Not Implemented")
    else if code == 505
    then some (codes "505 HTTP Version Not Supported")
    else none

abbrev pub status_line : Bytes → Bytes
status_line text = codes "HTTP/1.1 " ++ (text ++ codes " \r\n")

-- The third buffer is there only if there is a resource to send.
abbrev pub response_buffers : Bytes → Bytes → Bytes → List Bytes
response_buffers line headers [] = line ∷ headers ∷ []
response_buffers line headers (c ∷ s) = line ∷ headers ∷ (c ∷ s) ∷ []

abbrev pub start_write : List Bytes → Service → Service
start_write buffers s = record s {
  pending = some (write_response buffers);
  responses = buffers ∷ s.responses;
}

-- `shutdown_ec` is what the shutdown of the receiving side ends with; it throws on an error.
unfoldable pub send_response : ErrorCode → Service → Result Service
send_response shutdown_ec s = do
  check shutdown_ec
  elim (http_status s.response_status_code) [
    | none ↦ aborts
    | some text ↦ ok (
        start_write (response_buffers (status_line text) s.response_headers s.resource_buffer)
          (record s { response_status_line = status_line text }))
  ]

-- The part of process_request behind the choice of the file. `unspecified` is what a to_chars that
-- fails leaves in its five bytes.
unfoldable pub load : FileSystem → Bytes → Bytes → Service → Service
load fs unspecified path s = elim (fs.read path) [
  | none ↦ record s { response_status_code = 500 }
  | some content ↦ elim (to_chars 5 (length content)) [
    | some buffer ↦ record s {
      resource_buffer = content;
      response_headers = codes "content-length: " ++ (buffer ++ (crlf ++ crlf));
    }
    | none ↦ record s {
      resource_buffer = content;
      response_status_code = 500;
      response_headers = codes "content-length: " ++ (unspecified ++ (crlf ++ crlf));
    }
  ]
]

unfoldable pub take_located : FileSystem → Bytes → Service → Located → Result Service
take_located fs unspecified s unlistable = aborts
take_located fs unspecified s missing = ok (record s { response_status_code = 404 })
take_located fs unspecified s (file path) = ok (load fs unspecified path s)

unfoldable pub process_request : FileSystem → Bytes → Service → Result Service
process_request fs unspecified s =
    take_located fs unspecified s (locate fs s.resource_root s.requested_resource)

-- `m_response_status_code = code; send_response(...)`.
abbrev pub send_status : ErrorCode → ℕ → Service → Result Service
send_status shutdown_ec code s =
    send_response shutdown_ec (record s { response_status_code = code })

-- What both handlers of a read do with an error.
abbrev pub on_read_error : ErrorCode → ErrorCode → Service → Result Service
on_read_error shutdown_ec ec s =
    let logged = record s { errors = ec ∷ s.errors } in
    if is_not_found ec then send_status shutdown_ec 413 logged else ok logged

-- The two tests on the request line: `read` is the state before the resource is read, `named` the
-- one behind it.
unfoldable pub check_line : ErrorCode → Bytes → Bytes → Service → Service → Result Service
check_line shutdown_ec request_method request_http_version read named =
    if not (beq (codes "GET") request_method)
    then send_status shutdown_ec 501 read
    else if not (beq (codes "HTTP/1.1") request_http_version)
    then send_status shutdown_ec 505 named
    else ok (record named { pending = some (read_headers (crlf ++ crlf)) })

-- The part of on_request_received that parses the line, on a stream of its own.
unfoldable pub parse_request_line : ErrorCode → Service → Result Service
parse_request_line shutdown_ec s =
    let (request_line, rest) = getline b'\r' [] (fresh s.request) in
    let (request_method, t) = extract [] (fresh request_line) in
    let (resource, u) = extract s.requested_resource t in
    let (request_http_version, v) = extract [] u in
    let read = record s { request = (get rest).chars } in
    check_line shutdown_ec request_method request_http_version read
      (record read { requested_resource = resource })

unfoldable pub on_request_received : ErrorCode → ErrorCode → ℕ → Service → Result Service
on_request_received shutdown_ec ec bytes_transferred s =
    if is_error ec then on_read_error shutdown_ec ec s else parse_request_line shutdown_ec s

-- The loop of on_headers_received. Each round takes a character, so the characters left and one
-- more are fuel enough. A moved-from name or value is read into before it is looked at.
unfoldable pub request_header_loop : ℕ → Stream → StringMap → Stream × StringMap
request_header_loop zero s m = (s, m)
request_header_loop (suc fuel) s m =
    let (header_name, t) = getline b':' [] s in
    let (header_value, u) = getline b'\r' [] t in
    let next = (if u.failbit then u else get u) in
    let rest =
      request_header_loop fuel next (if u.failbit then m else emplace header_name header_value m) in
    if t.failbit then (t, m) else rest

unfoldable pub parse_request_headers : Service → Service
parse_request_headers s =
    let (rest, m) =
      request_header_loop (suc (length s.request)) (fresh s.request) s.request_headers in
    record s { request = rest.chars; request_headers = m }

unfoldable pub on_headers_received :
    FileSystem → Bytes → ErrorCode → ErrorCode → ℕ → Service → Result Service
on_headers_received fs unspecified shutdown_ec ec bytes_transferred s =
    let answer =
      process_request fs unspecified (parse_request_headers s) >>= send_response shutdown_ec in
    if is_error ec then on_read_error shutdown_ec ec s else answer

-- The second on_headers_received, which the write completes with.
unfoldable pub on_response_sent : ErrorCode → ℕ → Service → Service
on_response_sent ec bytes_transferred s =
    if is_error ec then record s { errors = ec ∷ s.errors } else s
