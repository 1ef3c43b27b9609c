-- ===== src/HttpServer/Requests.antt =====
-- What the parsers of Service make of a request.
use boost_asio_cpp_network_p.Common.{
  ℕ, zero, suc, ◌+◌, ◌≤◌, ◌<◌, ◌≡◌, ◌≢◌, refl, ◌∙◌, true, some, List, [], ◌∷◌, ◌++◌, Bytes, codes,
  if◌then◌else◌, length, arith, inl, inr, All, All-append, Lacks, Bool-cases, append_assoc,
}
use boost_asio_cpp_network_p.Asio.{ErrorCode, ok}
use boost_asio_cpp_network_p.Cxx.Stream.{
  Stream, getline, get, extract, fresh, getline-append, get-fresh, extract-word, extract-space,
  length-getline, length-getline-le, length-get, IsWord,
}
use boost_asio_cpp_network_p.Cxx.StringMap.{StringMap, emplace}
use boost_asio_cpp_network_p.HttpText.{
  print_header, print_headers, IsHeader, emplace_all, print_request_line, length-print_headers,
}
use boost_asio_cpp_network_p.HttpServer.Service.{
  Service, read_headers, parse_request_line, check_line, request_header_loop, parse_request_headers,
  crlf,
}

-- The rounds that `parse_request_headers` allows are enough: a larger number gives the same, for every
-- stream and whatever flags it has.
pub request_header_loop-fuel :
    (f g : ℕ) (s : Stream) (m : StringMap)
    → length s.chars < f
    → length s.chars < g
    → request_header_loop f s m ≡ request_header_loop g s m
unfolding request_header_loop
request_header_loop-fuel zero g s m hf hg = absurd (omega arith)
request_header_loop-fuel (suc f) zero s m hf hg = absurd (omega arith)
request_header_loop-fuel (suc f) (suc g) s m hf hg = elim (Bool-cases (getline 58 [] s).1.failbit) [
  | inl e ↦ rw e
  | inr e ↦
      let t = (getline 58 [] s).1 in
      let u = (getline 13 [] t).1 in
      let shorter = length-getline 58 [] s e in
      let no_longer = length-getline-le 13 [] t in
      let got = length-get u in
      let next = (if u.failbit then u else get u) in
      let small : length next.chars ≤ length t.chars = ground arith in
      rw (
        request_header_loop-fuel f g next
          (if u.failbit then m else emplace (getline 58 [] s).0 (getline 13 [] t).0 m) (omega arith)
          (omega arith))
]

request_header_loop-cons :
    (fuel : ℕ) (h : Bytes × Bytes) (m : StringMap) (rest : Bytes)
    → IsHeader h
    → request_header_loop (suc fuel) (fresh (print_header h rest)) m
      ≡ request_header_loop fuel (fresh rest) (emplace h.0 h.1 m)
unfolding request_header_loop
request_header_loop-cons fuel (name, value) m rest h =
    rw (getline-append 58 [] name (value ++ (13 ∷ 10 ∷ rest)) h.0)
      (rw (getline-append 13 [] value (10 ∷ rest) h.2) (rw (get-fresh 10 rest)))

-- The stream at its end, with both flags.
abbrev exhausted : Stream
exhausted = record { chars = []; eofbit = true; failbit = true }

request_header_loop_end :
    (fuel : ℕ) (m : StringMap)
    → request_header_loop (suc (suc fuel)) (fresh (13 ∷ 10 ∷ [])) m ≡ (exhausted, m)
unfolding request_header_loop getline
request_header_loop_end fuel m = refl

request_header_loop-print_headers :
    (fuel : ℕ) (hs : List (Bytes × Bytes)) (m : StringMap)
    → length hs + 1 < fuel
    → All IsHeader hs
    → request_header_loop fuel (fresh (print_headers hs (13 ∷ 10 ∷ []))) m
      ≡ (exhausted, emplace_all hs m)
request_header_loop-print_headers zero hs m n h = absurd (omega arith)
request_header_loop-print_headers (suc zero) hs m n h = absurd (omega arith)
request_header_loop-print_headers (suc (suc fuel)) [] m n h = request_header_loop_end fuel m
request_header_loop-print_headers (suc (suc fuel)) (x ∷ hs) m n h =
    request_header_loop-cons (suc fuel) x m (print_headers hs (13 ∷ 10 ∷ [])) h.0
    ∙ request_header_loop-print_headers (suc fuel) hs (emplace x.0 x.1 m) (omega arith) h.1

-- Headers are taken apart as they were written, the first value of a name kept, and the buffer is
-- used up.
pub parse_request_headers-print :
    (s : Service) (hs : List (Bytes × Bytes))
    → s.request ≡ print_headers hs (13 ∷ 10 ∷ [])
    → All IsHeader hs
    → parse_request_headers s
      ≡ record s { request = []; request_headers = emplace_all hs s.request_headers }
unfolding parse_request_headers
parse_request_headers-print s hs e h = rw e (
    rw (
      request_header_loop-print_headers (suc (length (print_headers hs (13 ∷ 10 ∷ [])))) hs
        s.request_headers (omega (arith, length-print_headers hs (13 ∷ 10 ∷ []))) h))

-- A URI with no white space in it holds no '\r'.
IsWord-Lacks : (w : Bytes) → IsWord w → Lacks 13 w
IsWord-Lacks [] h = tt
IsWord-Lacks (c ∷ w) h = (ground arith, IsWord-Lacks w h.1)

abbrev line_of : Bytes → Bytes
line_of uri = codes "GET" ++ (32 ∷ (uri ++ (32 ∷ codes "HTTP/1.1")))

line_read :
    (uri rest : Bytes)
    → IsWord uri
    → getline 13 [] (fresh (print_request_line uri rest)) ≡ (line_of uri, fresh (10 ∷ rest))
line_read uri rest h = rw (← append_assoc uri (32 ∷ codes "HTTP/1.1") (13 ∷ 10 ∷ rest)) (
    getline-append 13 [] (line_of uri) (10 ∷ rest) (
      omega arith,
      (
        omega arith,
        (
          omega arith,
          (
            omega arith,
            All-append _ uri (32 ∷ codes "HTTP/1.1") (IsWord-Lacks uri h) (ground arith),
          ),
        ),
      ),
    ))

method_read :
    (uri : Bytes)
    → extract [] (fresh (line_of uri))
      ≡ (codes "GET", fresh (32 ∷ (uri ++ (32 ∷ codes "HTTP/1.1"))))
method_read uri =
    extract-word [] (codes "GET") 32 (uri ++ (32 ∷ codes "HTTP/1.1")) (cc) (ground arith) refl

resource_read :
    (old uri : Bytes)
    → uri ≢ []
    → IsWord uri
    → extract old (fresh (32 ∷ (uri ++ (32 ∷ codes "HTTP/1.1"))))
      ≡ (uri, fresh (32 ∷ codes "HTTP/1.1"))
resource_read old uri n h =
    extract-space old 32 (uri ++ (32 ∷ codes "HTTP/1.1")) refl
    ∙ extract-word old uri 32 (codes "HTTP/1.1") n h refl

version_read : (extract [] (fresh (32 ∷ codes "HTTP/1.1"))).0 ≡ codes "HTTP/1.1"
unfolding extract
version_read = refl

-- A request line for any URI with no white space in it is taken apart as it was written, and the
-- service goes on to the headers.
pub parse_request_line-print :
    (x : ErrorCode) (s : Service) (uri rest : Bytes)
    → s.request ≡ print_request_line uri rest
    → uri ≢ []
    → IsWord uri
    → parse_request_line x s
      ≡ ok (record s {
        request = rest;
        requested_resource = uri;
        pending = some (read_headers (crlf ++ crlf));
      })
unfolding parse_request_line check_line
parse_request_line-print x s uri rest e n h = rw e (
    rw (line_read uri rest h) (
      rw (
        method_read uri,
        get-fresh 10 rest,
        resource_read s.requested_resource uri n h,
        version_read,
      )))
