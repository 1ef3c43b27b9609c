-- ===== src/Exchange.antt =====
-- The client of http_client.cpp against the server of http_server.cpp.
mod Examples
use mathlib.Core.List.{flatten}
use boost_asio_cpp_network_p.Common.{
  ℕ, ◌≤◌, ◌<◌, ◌≡◌, ◌≢◌, refl, sym, subst, ap, none, List, [], ◌∷◌, ◌++◌, Bytes, codes,
  append_assoc, append-nil, false, All, Lacks, length, arith, some, ◌∙◌,
}
use boost_asio_cpp_network_p.Asio.{arrives, success, eof, ok, Completion}
use boost_asio_cpp_network_p.Cxx.Stream.{IsWord}
use boost_asio_cpp_network_p.Cxx.Charconv.{digits, IsDigits, is_digit, digits-IsDigits}
use boost_asio_cpp_network_p.HttpText.{
  Holds, empty_line, print_headers-Holds, print_headers, IsHeader, print_status_line,
  print_request_line,
}
use boost_asio_cpp_network_p.HttpClient.Request.{HttpRequest, read_status_line, request_text, crlf}
use boost_asio_cpp_network_p.HttpClient.Response.{new_response}
use boost_asio_cpp_network_p.HttpClient.Machine.{completes}
use boost_asio_cpp_network_p.HttpClient.Machine.{run as run_client}
use boost_asio_cpp_network_p.HttpClient.Delivery.{awaits, delivered, run_delivers}
use boost_asio_cpp_network_p.HttpServer.Files.{FileSystem, file, locate}
use boost_asio_cpp_network_p.HttpServer.Service.{response_buffers, status_line, start_handling}
use boost_asio_cpp_network_p.HttpServer.Machine.{run as run_server}
use boost_asio_cpp_network_p.HttpServer.Responses.{
  Answers, content_length, arrivals, run_serves_file,
}

-- The one header that the client sends, and the one that the server sends.
abbrev pub host_header : Bytes → List (Bytes × Bytes)
host_header host = (codes "HOST", 32 ∷ host) ∷ []

abbrev pub length_header : ℕ → List (Bytes × Bytes)
length_header n = (codes "content-length", 32 ∷ digits n) ∷ []

-- The client's request is a request line and a header as the server reads them.
pub request_text-print :
    (uri host : Bytes)
    → request_text uri host
      ≡ print_request_line uri (print_headers (host_header host) (13 ∷ 10 ∷ []))
unfolding request_text
request_text-print uri host = refl

abbrev pub wire : Bytes → Bytes
wire content =
    print_status_line 200 (codes "OK ")
      (print_headers (length_header (length content)) (13 ∷ 10 ∷ content))

digits_200 : digits 200 ≡ codes "200"
unfolding digits
digits_200 = refl

IsDigits-Lacks : (s : Bytes) → IsDigits s → Lacks 13 s
IsDigits-Lacks [] h = tt
IsDigits-Lacks (c ∷ s) h = (ground arith, IsDigits-Lacks s h.1)

length_header-IsHeader : (n : ℕ) → All IsHeader (length_header n)
length_header-IsHeader n =
    ((ground arith, ground arith, (omega arith, IsDigits-Lacks (digits n) (digits-IsDigits n))), tt)

-- The server's buffers, one behind the other, are a response as the client reads it.
flatten-response_buffers :
    (content : Bytes)
    → flatten (
        response_buffers
          (status_line (codes "200 OK"))
          (content_length (digits (length content)))
          content)
      ≡ wire content
unfolding flatten
flatten-response_buffers [] = simp (digits_200, append_assoc, append-nil)
flatten-response_buffers (c ∷ content) = simp (digits_200, append_assoc, append-nil)

-- The pieces that the client reads are those bytes.
pieces :
    (content early second late third : Bytes)
    → early ++ second ≡ print_headers (length_header (length content)) (13 ∷ 10 ∷ late)
    → late ++ third ≡ content
    → wire content ≡ print_status_line 200 (codes "OK ") early ++ (second ++ third)
pieces content early second late third e x =
    simp (digits_200, append_assoc)
      (rw (← append_assoc early second third, e) (simp (append_assoc, x)))

-- A client asks for a file of fewer than 100000 bytes, with a URI and a host that the request line
-- and the header can carry. The server's response, its bytes cut behind the status line and behind
-- the headers at any place, reaches the callback with success, status 200, the file's length under
-- "content-length" and the file in the buffer, behind one '\n'.
pub exchange_file :
    (fs : FileSystem) (unspecified root uri host path content : Bytes) (r : HttpRequest)
    (early second : Bytes) (early' second' late' third' : Bytes)
    → uri ≢ []
    → IsWord uri
    → Lacks 13 host
    → locate fs root uri ≡ file path
    → fs.read path ≡ some content
    → length content < 100000
    → early ++ second ≡ print_headers (host_header host) (13 ∷ 10 ∷ [])
    → early' ++ second' ≡ print_headers (length_header (length content)) (13 ∷ 10 ∷ late')
    → late' ++ third' ≡ content
    → (buffers : List Bytes) × (request_text uri host ≡ print_request_line uri (early ++ second))
      × Answers
          (run_server fs unspecified (arrivals uri early second) (start_handling root))
          buffers
      × (flatten buffers ≡ print_status_line 200 (codes "OK ") early' ++ (second' ++ third'))
      × (run_client
            (completes (arrives success (print_status_line 200 (codes "OK ") early'))
              ∷ completes (arrives success second')
              ∷ completes (arrives eof third')
              ∷ [])
            (awaits (read_status_line crlf) new_response r)
          ≡ ok (record r {
            pending = none;
            was_cancelled = false;
            response = delivered 200 (codes "OK ") (length_header (length content)) content;
            calls =
                (success, delivered 200 (codes "OK ") (length_header (length content)) content)
                ∷ r.calls;
          }))
unfolding request_text
exchange_file fs unspecified root uri host path content r early second early' second' late' third' n
      w l f h k e e' x =
    (
      response_buffers (status_line (codes "200 OK")) (content_length (digits (length content)))
          content,
      ap (print_request_line uri) (sym e),
      run_serves_file fs unspecified root uri (host_header host) early second path content n w
          ((ground arith, ground arith, (omega arith, l)), tt) e f h k,
      flatten-response_buffers content ∙ pieces content early' second' late' third' e' x,
      (rw (← x) (
          run_delivers r 200 (codes "OK ") (length_header (length (late' ++ third'))) early' second'
            late' third' (omega arith) (ground arith)
            (length_header-IsHeader (length (late' ++ third'))) (rw x e')
            (subst (Holds empty_line) (sym e')
              (print_headers-Holds (length_header (length content)) late' (λ q. cc))))),
    )
