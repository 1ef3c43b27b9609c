-- ===== src/HttpClient/Response.antt =====
-- The error category http_errors, the class HTTPResponse and the parsing of a response.
use boost_asio_cpp_network_p.Common.{
  ℕ, zero, suc, ◌+◌, Bool, true, false, not, ◌||◌, none, some, [], ◌∷◌, Bytes, codes, ltb, ◌==◌,
  if◌then◌else◌, beq, find_char, take, drop, length,
}
use boost_asio_cpp_network_p.Asio.{ErrorCode, http_error}
use boost_asio_cpp_network_p.Cxx.Stream.{Stream, fresh, getline, get, extract}
use boost_asio_cpp_network_p.Cxx.Charconv.{from_chars, parsed}
use boost_asio_cpp_network_p.Cxx.StringMap.{StringMap, emplace, assign}

-- The enumerator's value.
abbrev pub invalid_response : ℕ
invalid_response = 1

abbrev pub make_error_code : ℕ → ErrorCode
make_error_code e = http_error e

abbrev pub category_name : Bytes
category_name = codes "http_errors"

unfoldable pub message : ℕ → Bytes
message e =
    if e == invalid_response
    then codes "Server response cannot be parsed."
    else codes "Unknown error."

-- `stream` is m_response_stream over m_response_buf.
pub record HttpResponse : Type 0 where
  pub status_code : ℕ
  pub status_message : Bytes
  pub headers : StringMap
  pub stream : Stream

abbrev pub new_response : HttpResponse
new_response = record { status_code = 404; status_message = []; headers = []; stream = fresh [] }

-- The overload for const std::string&, and the one for std::string&&.
unfoldable pub add_header : Bytes → Bytes → HttpResponse → HttpResponse
add_header name value r = record r { headers = assign name value r.headers }

unfoldable pub add_header_moved : Bytes → Bytes → HttpResponse → HttpResponse
add_header_moved name value r = record r { headers = emplace name value r.headers }

-- The part of on_status_line_received that reads the line: the response, and whether it was valid.
unfoldable pub parse_status_line : HttpResponse → HttpResponse × Bool
parse_status_line r =
    let (http_version, s) = extract [] r.stream in
    let (str_status_code, t) = extract [] s in
    let (status_message, u) = getline b'\r' [] t in
    if not (beq http_version (codes "HTTP/1.1"))
    then (record r { stream = s }, false)
    else elim (from_chars 65535 str_status_code) [
      | parsed status_code ↦ (
        record r { status_code = status_code; status_message = status_message; stream = get u },
        true,
      )
      | _ ↦ (record r { stream = t }, false)
    ]

-- One header line of on_headers_received, its '\r' taken off.
unfoldable pub store_header : Bytes → StringMap → StringMap
store_header header m = elim (find_char b':' header) [
  | none ↦ m
  | some separator_pos ↦
      emplace (take separator_pos header)
        (if ltb (separator_pos + 1) (length header) then drop (separator_pos + 1) header else []) m
]

abbrev pub is_empty : Bytes → Bool
is_empty [] = true
is_empty (c ∷ s) = false

-- The loop of on_headers_received. Each round takes a character, so the characters left and one
-- more are fuel enough.
unfoldable pub header_loop : ℕ → Stream → StringMap → Stream × StringMap
header_loop zero s m = (s, m)
header_loop (suc fuel) s m =
    let (header, t) = getline b'\r' [] s in
    let rest = header_loop fuel (get t) (store_header header m) in
    if t.failbit || is_empty header then (t, m) else rest

unfoldable pub parse_headers : HttpResponse → HttpResponse
parse_headers r =
    let (s, m) = header_loop (suc (length r.stream.chars)) r.stream r.headers in
    record r { stream = s; headers = m }
