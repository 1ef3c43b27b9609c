-- ===== src/HttpText.antt =====
-- HTTP messages as their senders should write them, the reference that both parsers are held to.
use boost_asio_cpp_network_p.Common.{
  ℕ, ◌+◌, ◌≤◌, ◌≡◌, ◌≢◌, refl, sym, ap, ◌∙◌, append_assoc, List, [], ◌∷◌, ◌++◌, Bytes, codes, Lacks,
  length, length-append, arith,
}
use boost_asio_cpp_network_p.Cxx.Charconv.{digits}
use boost_asio_cpp_network_p.Cxx.StringMap.{StringMap, emplace}

-- One header as it is sent: `name:value` and the end of the line.
abbrev pub print_header : Bytes × Bytes → Bytes → Bytes
print_header (name, value) rest = name ++ (b':' ∷ (value ++ (13 ∷ 10 ∷ rest)))

abbrev pub print_headers : List (Bytes × Bytes) → Bytes → Bytes
print_headers [] rest = rest
print_headers (h ∷ hs) rest = print_header h (print_headers hs rest)

abbrev pub IsHeader : Bytes × Bytes → Type 0
IsHeader (name, value) = Lacks b':' name × Lacks 13 name × Lacks 13 value

-- The entries in their order, the first value of a name kept.
abbrev pub emplace_all : List (Bytes × Bytes) → StringMap → StringMap
emplace_all [] m = m
emplace_all ((name, value) ∷ hs) m = emplace_all hs (emplace name value m)

-- `HTTP/1.1`, the status code, the reason phrase.
abbrev pub print_status_line : ℕ → Bytes → Bytes → Bytes
print_status_line code phrase rest =
    codes "HTTP/1.1" ++ (32 ∷ (digits code ++ (32 ∷ (phrase ++ (13 ∷ 10 ∷ rest)))))

-- A request line for `uri`.
abbrev pub print_request_line : Bytes → Bytes → Bytes
print_request_line uri rest =
    codes "GET" ++ (32 ∷ (uri ++ (32 ∷ (codes "HTTP/1.1" ++ (13 ∷ 10 ∷ rest)))))

-- What Boost.Asio documents of async_read_until: when it ends with no error, the buffer holds the
-- delimiter somewhere.
abbrev pub Holds : Bytes → Bytes → Type 0
Holds delim buffer = (front back : Bytes) × (buffer ≡ front ++ (delim ++ back))

abbrev pub empty_line : Bytes
empty_line = 13 ∷ 10 ∷ 13 ∷ 10 ∷ []

-- The read for the headers can succeed whenever there is one.
pub print_headers-Holds :
    (hs : List (Bytes × Bytes)) (body : Bytes)
    → hs ≢ []
    → Holds empty_line (print_headers hs (13 ∷ 10 ∷ body))
print_headers-Holds [] body n = absurd (n refl)
print_headers-Holds ((name, value) ∷ []) body n =
    (name ++ (b':' ∷ value), body, sym (append_assoc name (b':' ∷ value) (empty_line ++ body)))
print_headers-Holds ((name, value) ∷ h ∷ hs) body n =
    let later = print_headers-Holds (h ∷ hs) body (λ e. cc) in
    (
      print_header (name, value) later.0,
      later.1,
      ap (print_header (name, value)) later.2
          ∙ ap (λ t. name ++ (b':' ∷ t))
              (sym (append_assoc value (13 ∷ 10 ∷ later.0) (empty_line ++ later.1)))
          ∙ sym (append_assoc name (b':' ∷ (value ++ (13 ∷ 10 ∷ later.0))) (empty_line ++ later.1)),
    )

pub length-print_headers :
    (hs : List (Bytes × Bytes)) (rest : Bytes)
    → length hs + length rest ≤ length (print_headers hs rest)
length-print_headers [] rest = omega arith
length-print_headers ((name, value) ∷ hs) rest = omega (
  arith,
  length-append name (b':' ∷ (value ++ (13 ∷ 10 ∷ print_headers hs rest))),
  length-append value (13 ∷ 10 ∷ print_headers hs rest),
  length-print_headers hs rest,
)
