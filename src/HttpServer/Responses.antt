-- ===== src/HttpServer/Responses.antt =====
-- What a request is answered with.
use boost_asio_cpp_network_p.Common.{
  ◌≤◌, ◌<◌, ◌≡◌, ◌≢◌, refl, ap, none, some, List, [], ◌∷◌, ◌++◌, Bytes, codes, length, All,
}
use boost_asio_cpp_network_p.Asio.{Completion, arrives, success, Result, ok, ◌>>=◌, >>=-ok}
use boost_asio_cpp_network_p.Cxx.Stream.{IsWord}
use boost_asio_cpp_network_p.Cxx.Charconv.{digits, to_chars-fits, to_chars-over}
use boost_asio_cpp_network_p.HttpText.{print_headers, IsHeader, emplace_all, print_request_line}
use boost_asio_cpp_network_p.HttpServer.Files.{FileSystem, file, missing, locate}
use boost_asio_cpp_network_p.HttpServer.Service.{
  Service, crlf, start_handling, on_request_received, on_headers_received, send_response,
  process_request, take_located, load, http_status, response_buffers, status_line,
}
use boost_asio_cpp_network_p.HttpServer.Machine.{dispatch, complete, run}
use boost_asio_cpp_network_p.HttpServer.Requests.{
  parse_request_line-print, parse_request_headers-print,
}

-- The service when its request has been read.
abbrev requested : Bytes → Bytes → List (Bytes × Bytes) → Service
requested root uri hs = record {
  resource_root = root;
  request = [];
  request_headers = emplace_all hs [];
  requested_resource = uri;
  resource_buffer = [];
  response_status_code = 200;
  response_headers = crlf ++ crlf;
  response_status_line = [];
  pending = none;
  responses = [];
  errors = [];
}

-- The header of a response with a body.
abbrev pub content_length : Bytes → Bytes
content_length size = codes "content-length: " ++ (size ++ (crlf ++ crlf))

module _ (fs : FileSystem) (unspecified path content : Bytes) (s : Service) where
  load-fits :
      fs.read path ≡ some content
      → length content < 100000
      → load fs unspecified path s ≡ record s {
        resource_buffer = content;
        response_headers = content_length (digits (length content));
      }
  unfolding load
  load-fits r k = rw (r, load) (rw (to_chars-fits 4 (length content) k))

  load-over :
      fs.read path ≡ some content
      → 100000 ≤ length content
      → load fs unspecified path s ≡ record s {
        resource_buffer = content;
        response_status_code = 500;
        response_headers = content_length unspecified;
      }
  unfolding load
  load-over r k = rw (r, load) (rw (to_chars-over 4 (length content) k))

load-unreadable :
    (fs : FileSystem) (unspecified path : Bytes) (s : Service)
    → fs.read path ≡ none
    → load fs unspecified path s ≡ record s { response_status_code = 500 }
unfolding load
load-unreadable fs unspecified path s r = rw (r, load)

-- The run ended with a service that has had this one response.
abbrev pub Answers : Result Service → List Bytes → Type 0
Answers m buffers = (t : Service) × (m ≡ ok t) × (t.responses ≡ buffers ∷ [])

pub send_response-Answers :
    (s : Service) (text : Bytes)
    → http_status s.response_status_code ≡ some text
    → s.responses ≡ []
    → Answers
        (send_response success s)
        (response_buffers (status_line text) s.response_headers s.resource_buffer)
unfolding send_response
send_response-Answers s text h e =
    rw (h, send_response)
      (
        _,
        refl,
        ap (◌∷◌ (response_buffers (status_line text) s.response_headers s.resource_buffer)) e,
      )

-- The reads of a request that arrives in two pieces.
abbrev pub arrivals : Bytes → Bytes → Bytes → List Completion
arrivals uri early second =
    arrives success (print_request_line uri early) ∷ arrives success second ∷ []

module _ (fs : FileSystem) (unspecified root uri : Bytes) (hs : List (Bytes × Bytes))
    (early second : Bytes) where
  pub read_request :
      uri ≢ []
      → IsWord uri
      → All IsHeader hs
      → early ++ second ≡ print_headers hs (13 ∷ 10 ∷ [])
      → run fs unspecified (arrivals uri early second) (start_handling root)
        ≡ (process_request fs unspecified (requested root uri hs) >>= send_response success)
  unfolding run complete dispatch start_handling on_request_received on_headers_received
  read_request n w h e =
      rw
        (parse_request_line-print success
          (record (requested root uri []) {
            request = print_request_line uri early;
            requested_resource = [];
          })
          uri early refl n w)
        (rw
          (parse_request_headers-print
            (record (requested root uri []) { request = early ++ second }) hs e h)
          (>>=-ok
            (process_request fs unspecified (requested root uri hs) >>= send_response success)))

  -- A file that can be read and is shorter than 100000 bytes is sent whole, under status 200 and
  -- with its length in decimal.
  pub run_serves_file :
      (path content : Bytes)
      → uri ≢ []
      → IsWord uri
      → All IsHeader hs
      → early ++ second ≡ print_headers hs (13 ∷ 10 ∷ [])
      → locate fs root uri ≡ file path
      → fs.read path ≡ some content
      → length content < 100000
      → Answers (run fs unspecified (arrivals uri early second) (start_handling root)) (
          response_buffers
            (status_line (codes "200 OK"))
            (content_length (digits (length content)))
            content)
  unfolding process_request take_located http_status
  run_serves_file path content n w h e l r k = rw (read_request n w h e) (
      rw (l, load-fits fs unspecified path content _ r k)
        (send_response-Answers _ (codes "200 OK") refl refl))

  -- A file of 100000 bytes or more is sent whole too, but under status 500, and the header has
  -- unspecified bytes for its length.
  pub run_serves_large_file :
      (path content : Bytes)
      → uri ≢ []
      → IsWord uri
      → All IsHeader hs
      → early ++ second ≡ print_headers hs (13 ∷ 10 ∷ [])
      → locate fs root uri ≡ file path
      → fs.read path ≡ some content
      → 100000 ≤ length content
      → Answers (run fs unspecified (arrivals uri early second) (start_handling root)) (
          response_buffers
            (status_line (codes "500 Server Error"))
            (content_length unspecified)
            content)
  unfolding process_request take_located http_status
  run_serves_large_file path content n w h e l r k = rw (read_request n w h e) (
      rw (l, load-over fs unspecified path content _ r k)
        (send_response-Answers _ (codes "500 Server Error") refl refl))

  -- A file that cannot be opened is answered by status 500 with no body.
  pub run_serves_unreadable :
      (path : Bytes)
      → uri ≢ []
      → IsWord uri
      → All IsHeader hs
      → early ++ second ≡ print_headers hs (13 ∷ 10 ∷ [])
      → locate fs root uri ≡ file path
      → fs.read path ≡ none
      → Answers
          (run fs unspecified (arrivals uri early second) (start_handling root))
          ((status_line (codes "500 Server Error") ∷ (crlf ++ crlf) ∷ []))
  unfolding process_request take_located http_status
  run_serves_unreadable path n w h e l r = rw (read_request n w h e) (
      rw (l, load-unreadable fs unspecified path _ r)
        (send_response-Answers _ (codes "500 Server Error") refl refl))

  -- A request that names no file is answered by status 404 with no body.
  pub run_serves_missing :
      uri ≢ []
      → IsWord uri
      → All IsHeader hs
      → early ++ second ≡ print_headers hs (13 ∷ 10 ∷ [])
      → locate fs root uri ≡ missing
      → Answers
          (run fs unspecified (arrivals uri early second) (start_handling root))
          ((status_line (codes "404 Not Found") ∷ (crlf ++ crlf) ∷ []))
  unfolding process_request take_located http_status
  run_serves_missing n w h e l = rw (read_request n w h e) (
      rw l (
        send_response-Answers (record (requested root uri hs) { response_status_code = 404 })
          (codes "404 Not Found") refl refl))
