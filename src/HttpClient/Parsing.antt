-- ===== src/HttpClient/Parsing.antt =====
-- What the parsers of HTTPRequest make of a response that is written by the rules.
use boost_asio_cpp_network_p.Common.{
  ℕ, zero, suc, ◌+◌, ◌≤◌, ◌<◌, ◌≡◌, ◌≢◌, refl, ap, ◌∙◌, true, false, List, [], ◌∷◌, ◌++◌, Bytes,
  codes, if◌then◌else◌, length, drop, arith, inl, inr, All, Bool-cases, Lacks, find_char-append,
  take-append, length-append, append_assoc, append-nil, All-append, beq, eq_of_beq, ltb,
}
use native.Mathlib.Nat.{suc-add}
use boost_asio_cpp_network_p.Cxx.Stream.{
  Stream, fresh, getline, get, extract, getline-append, extract-word, extract-space, length-getline,
  get-fresh, length-get, IsWord, is_space,
}
use boost_asio_cpp_network_p.Cxx.Charconv.{
  from_chars, parsed, result_out_of_range, digits, IsDigits, is_digit, digits-IsDigits,
  digits-ne-nil, from_chars-digits, from_chars-digits_over,
}
use boost_asio_cpp_network_p.Cxx.StringMap.{StringMap, emplace}
use boost_asio_cpp_network_p.HttpText.{
  print_header, print_headers, IsHeader, emplace_all, print_status_line,
}
use boost_asio_cpp_network_p.HttpClient.Response.{
  HttpResponse, parse_status_line, header_loop, store_header, is_empty,
}

is_empty-append : (s : Bytes) (c : ℕ) (t : Bytes) → is_empty (s ++ c ∷ t) ≡ false
is_empty-append [] c t = refl
is_empty-append (x ∷ s) c t = refl

drop-append_more : (s : Bytes) (c : ℕ) (t : Bytes) → drop (length s + 1) (s ++ c ∷ t) ≡ t
drop-append_more [] c t = refl
drop-append_more (x ∷ s) c t = rw (suc-add (length s) 1) (drop-append_more s c t)

value_behind :
    (name value : Bytes)
    → (if ltb (length name + 1) (length (name ++ b':' ∷ value)) then value else []) ≡ value
value_behind name [] = ground arith
value_behind name (c ∷ value) = ground (arith, length-append name (b':' ∷ c ∷ value))

store_header-append :
    (name value : Bytes) (m : StringMap)
    → Lacks b':' name
    → store_header (name ++ b':' ∷ value) m ≡ emplace name value m
unfolding store_header
store_header-append name value m h =
    rw (find_char-append b':' name value h, store_header)
      (rw (take-append name (b':' ∷ value), drop-append_more name b':' value)
        (ap (λ v. emplace name v m) (value_behind name value)))

getline-print_header :
    (name value rest : Bytes)
    → IsHeader (name, value)
    → getline 13 [] (fresh (print_header (name, value) rest))
      ≡ (name ++ b':' ∷ value, fresh (10 ∷ rest))
getline-print_header name value rest h = rw (← append_assoc name (b':' ∷ value) (13 ∷ 10 ∷ rest)) (
    getline-append 13 [] (name ++ b':' ∷ value) (10 ∷ rest)
      (All-append _ name (b':' ∷ value) h.1 (ground arith, h.2)))

header_loop-cons :
    (fuel : ℕ) (h : Bytes × Bytes) (m : StringMap) (rest : Bytes)
    → IsHeader h
    → header_loop (suc fuel) (fresh (print_header h rest)) m
      ≡ header_loop fuel (fresh rest) (emplace h.0 h.1 m)
unfolding header_loop
header_loop-cons fuel (name, value) m rest h =
    rw (getline-print_header name value rest h) (
      rw (is_empty-append name b':' value, get-fresh 10 rest, store_header-append name value m h.0))

header_loop_end :
    (fuel : ℕ) (m : StringMap) (body : Bytes)
    → header_loop (suc fuel) (fresh (13 ∷ 10 ∷ body)) m ≡ (fresh (10 ∷ body), m)
unfolding header_loop
header_loop_end fuel m body = rw (getline-append 13 [] [] (10 ∷ body) tt)

pub header_loop-print_headers :
    (fuel : ℕ) (hs : List (Bytes × Bytes)) (m : StringMap) (body : Bytes)
    → length hs < fuel
    → All IsHeader hs
    → header_loop fuel (fresh (print_headers hs (13 ∷ 10 ∷ body))) m
      ≡ (fresh (10 ∷ body), emplace_all hs m)
header_loop-print_headers zero hs m body n h = absurd (omega arith)
header_loop-print_headers (suc fuel) [] m body n h = header_loop_end fuel m body
header_loop-print_headers (suc fuel) (x ∷ hs) m body n h =
    header_loop-cons fuel x m (print_headers hs (13 ∷ 10 ∷ body)) h.0
    ∙ header_loop-print_headers fuel hs (emplace x.0 x.1 m) body (omega arith) h.1

-- The rounds that `parse_headers` allows are enough: a larger number gives the same, for every
-- stream and whatever flags it has.
pub header_loop-fuel :
    (f g : ℕ) (s : Stream) (m : StringMap)
    → length s.chars < f
    → length s.chars < g
    → header_loop f s m ≡ header_loop g s m
unfolding header_loop
header_loop-fuel zero g s m hf hg = absurd (omega arith)
header_loop-fuel (suc f) zero s m hf hg = absurd (omega arith)
header_loop-fuel (suc f) (suc g) s m hf hg = elim (Bool-cases (getline 13 [] s).1.failbit) [
  | inl e ↦ rw e
  | inr e ↦
      let t = (getline 13 [] s).1 in
      let shorter = length-getline 13 [] s e in
      let no_longer = length-get t in
      rw (
        header_loop-fuel f g (get t) (store_header (getline 13 [] s).0 m) (omega arith)
          (omega arith))
]

digit_is_no_space : (c : ℕ) → is_digit c ≡ true → is_space c ≡ false
digit_is_no_space c h = ground arith

IsDigits-IsWord : (s : Bytes) → IsDigits s → IsWord s
IsDigits-IsWord [] h = tt
IsDigits-IsWord (c ∷ s) h = (digit_is_no_space c h.0, IsDigits-IsWord s h.1)

version_extracted :
    (code : ℕ) (phrase rest : Bytes)
    → extract [] (fresh (print_status_line code phrase rest))
      ≡ (codes "HTTP/1.1", fresh (32 ∷ (digits code ++ (32 ∷ (phrase ++ (13 ∷ 10 ∷ rest))))))
version_extracted code phrase rest =
    extract-word [] (codes "HTTP/1.1") 32 (digits code ++ (32 ∷ (phrase ++ (13 ∷ 10 ∷ rest)))) (cc)
      (ground arith) refl

code_extracted :
    (code : ℕ) (rest : Bytes)
    → extract [] (fresh (32 ∷ (digits code ++ (32 ∷ rest)))) ≡ (digits code, fresh (32 ∷ rest))
code_extracted code rest =
    extract-space [] 32 (digits code ++ (32 ∷ rest)) refl
    ∙ extract-word [] (digits code) 32 rest (digits-ne-nil code)
        (IsDigits-IsWord _ (digits-IsDigits code)) refl

from_chars_code : (code : ℕ) → code ≤ 65535 → from_chars 65535 (digits code) ≡ parsed code
from_chars_code code h = rw (← append-nil (digits code)) (from_chars-digits 65535 code [] h tt)

from_chars_code_over :
    (code : ℕ) → 65535 < code → from_chars 65535 (digits code) ≡ result_out_of_range
from_chars_code_over code h =
    rw (← append-nil (digits code)) (from_chars-digits_over 65535 code [] h tt)

-- A status line is taken apart as it was written, for every code that fits uint16_t and every
-- phrase with no '\r' in it; the message keeps the space in front of the phrase.
pub parse_status_line-print :
    (r : HttpResponse) (code : ℕ) (phrase rest : Bytes)
    → r.stream ≡ fresh (print_status_line code phrase rest)
    → code ≤ 65535
    → Lacks 13 phrase
    → parse_status_line r
      ≡ (record r { status_code = code; status_message = 32 ∷ phrase; stream = fresh rest }, true)
unfolding parse_status_line
parse_status_line-print r code phrase rest e h l = simp (
  e,
  version_extracted code phrase rest,
  code_extracted code (phrase ++ (13 ∷ 10 ∷ rest)),
  from_chars_code code h,
  getline-append 13 [] (32 ∷ phrase) (10 ∷ rest) (omega arith, l),
  get-fresh 10 rest,
)

-- A code that does not fit uint16_t is refused.
pub parse_status_line-over :
    (r : HttpResponse) (code : ℕ) (phrase rest : Bytes)
    → r.stream ≡ fresh (print_status_line code phrase rest)
    → 65535 < code
    → (parse_status_line r).1 ≡ false
unfolding parse_status_line
parse_status_line-over r code phrase rest e h = simp (
  e,
  version_extracted code phrase rest,
  code_extracted code (phrase ++ (13 ∷ 10 ∷ rest)),
  from_chars_code_over code h,
)

-- So is a line that begins with any other word than HTTP/1.1, and nothing but the stream changes.
pub parse_status_line_version :
    (r : HttpResponse)
    → (extract [] r.stream).0 ≢ codes "HTTP/1.1"
    → parse_status_line r ≡ (record r { stream = (extract [] r.stream).1 }, false)
unfolding parse_status_line
parse_status_line_version r h = elim (Bool-cases (beq (extract [] r.stream).0 (codes "HTTP/1.1"))) [
  | inl e ↦ absurd (h (eq_of_beq _ _ e))
  | inr e ↦ rw e
]
