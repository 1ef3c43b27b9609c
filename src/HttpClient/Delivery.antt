-- ===== src/HttpClient/Delivery.antt =====
-- What the callback is given when a whole response has arrived, in whatever pieces.
use boost_asio_cpp_network_p.Common.{
  ℕ, suc, ◌≤◌, ◌≡◌, refl, ap, false, none, some, List, [], ◌∷◌, ◌++◌, Bytes, length, arith, All,
  Lacks,
}
use boost_asio_cpp_network_p.Asio.{arrives, success, eof, ok}
use boost_asio_cpp_network_p.Cxx.Stream.{fresh}
use boost_asio_cpp_network_p.HttpClient.Response.{HttpResponse, new_response, parse_headers}
use boost_asio_cpp_network_p.HttpClient.Request.{
  Operation, read_status_line, read_headers, read_body, crlf, HttpRequest, on_status_line_received,
  on_headers_received, on_response_body_received,
}
use boost_asio_cpp_network_p.HttpClient.Machine.{completes, dispatch, complete, step, run}
use boost_asio_cpp_network_p.HttpText.{
  Holds, empty_line, print_headers, IsHeader, emplace_all, print_status_line, length-print_headers,
}
use boost_asio_cpp_network_p.HttpClient.Parsing.{parse_status_line-print, header_loop-print_headers}

-- Headers are taken apart as they were written. The '\n' of the empty line stays in the buffer, in
-- front of the body.
pub parse_headers-print :
    (r : HttpResponse) (hs : List (Bytes × Bytes)) (body : Bytes)
    → r.stream ≡ fresh (print_headers hs (13 ∷ 10 ∷ body))
    → All IsHeader hs
    → parse_headers r ≡ record r { stream = fresh (10 ∷ body); headers = emplace_all hs r.headers }
unfolding parse_headers
parse_headers-print r hs body e h = simp (
  e,
  header_loop-print_headers (suc (length (print_headers hs (13 ∷ 10 ∷ body)))) hs r.headers body
      (omega (arith, length-print_headers hs (13 ∷ 10 ∷ body))) h,
)

-- What the callback sees of a response.
abbrev pub delivered : ℕ → Bytes → List (Bytes × Bytes) → Bytes → HttpResponse
delivered code phrase hs body = record {
  status_code = code;
  status_message = 32 ∷ phrase;
  headers = emplace_all hs [];
  stream = fresh (10 ∷ body);
}

-- A request that waits for `op`, not cancelled, with a response filled so far.
abbrev pub awaits : Operation → HttpResponse → HttpRequest → HttpRequest
awaits op response r = record r { pending = some op; was_cancelled = false; response = response }

status_line_step :
    (r : HttpRequest) (code : ℕ) (phrase early : Bytes)
    → code ≤ 65535
    → Lacks 13 phrase
    → complete
        (arrives success (print_status_line code phrase early))
        (awaits (read_status_line crlf) new_response r)
      ≡ ok (
          awaits
            (read_headers (crlf ++ crlf))
            (record new_response {
              status_code = code;
              status_message = 32 ∷ phrase;
              stream = fresh early;
            })
            r)
unfolding complete dispatch on_status_line_received
status_line_step r code phrase early h l = rw (
    parse_status_line-print
      (record new_response { stream = fresh (print_status_line code phrase early) }) code phrase
      early refl h l)

headers_step :
    (r : HttpRequest) (response : HttpResponse) (hs : List (Bytes × Bytes))
    (early arrived late : Bytes)
    → All IsHeader hs
    → early ++ arrived ≡ print_headers hs (13 ∷ 10 ∷ late)
    → complete
        (arrives success arrived)
        (awaits (read_headers (crlf ++ crlf)) (record response { stream = fresh early }) r)
      ≡ ok (
          awaits read_body
            (record response {
              headers = emplace_all hs response.headers;
              stream = fresh (10 ∷ late);
            })
            r)
unfolding complete dispatch on_headers_received
headers_step r response hs early arrived late h x = rw (
    parse_headers-print (record response { stream = fresh (early ++ arrived) }) hs late (ap fresh x)
      h)

body_step :
    (r : HttpRequest) (response : HttpResponse) (s arrived : Bytes)
    → complete (arrives eof arrived) (awaits read_body (record response { stream = fresh s }) r)
      ≡ ok (record r {
        pending = none;
        was_cancelled = false;
        response = record response { stream = fresh (s ++ arrived) };
        calls = (success, record response { stream = fresh (s ++ arrived) }) ∷ r.calls;
      })
unfolding complete dispatch on_response_body_received
body_step r response s arrived = refl

-- A whole response, cut anywhere behind its status line and behind its headers, where the buffer of
-- the second read holds the empty line that the read waits for: the callback is called with
-- success, and sees the status code, the phrase with a space in front, the headers as
-- they were sent, and in the buffer the body behind the '\n' of the empty line.
pub run_delivers :
    (r : HttpRequest) (code : ℕ) (phrase : Bytes) (hs : List (Bytes × Bytes))
    (early second late third : Bytes)
    → code ≤ 65535
    → Lacks 13 phrase
    → All IsHeader hs
    → early ++ second ≡ print_headers hs (13 ∷ 10 ∷ late)
    → Holds empty_line (early ++ second)
    → let response = delivered code phrase hs (late ++ third) in
      run
        (completes (arrives success (print_status_line code phrase early))
          ∷ completes (arrives success second)
          ∷ completes (arrives eof third)
          ∷ [])
        (awaits (read_status_line crlf) new_response r)
      ≡ ok (record r {
        pending = none;
        was_cancelled = false;
        response = response;
        calls = (success, response) ∷ r.calls;
      })
unfolding run step
run_delivers r code phrase hs early second late third h l hh x f =
    rw (status_line_step r code phrase early h l) (
      rw
        (headers_step r (record new_response { status_code = code; status_message = 32 ∷ phrase })
          hs early second late hh x)
        (rw (body_step r (delivered code phrase hs late) (10 ∷ late) third)))
