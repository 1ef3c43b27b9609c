-- ===== src/LongOp.antt =====
-- The request that the client applications send, "EMULATE_LONG_COMP_OP " and a number of seconds,
-- and what the server applications make of it.
mod Examples
use boost_asio_cpp_network_p.Common.{
  ℕ, zero, suc, ◌+◌, ◌≡◌, ◌≢◌, refl, ◌⊎◌, inl, inr, sym, ap, ◌∙◌, Bool, true, false, Option, none,
  some, List, [], ◌∷◌, ◌++◌, append_assoc, Bytes, codes, length, drop, drop-append, find_text,
  find_text-append, Lacks, All, All-append, arith,
}
use boost_asio_cpp_network_p.Cxx.Charconv.{digits, IsDigits, is_digit, digits-IsDigits}
use boost_asio_cpp_network_p.Cxx.Stream.{fresh, getline, getline-append}
use boost_asio_cpp_network_p.Cxx.Signed.{
  ℤ, pos, negsuc, signed_digits, to_chars_signed, to_chars_signed-fits, from_chars_int, FitsInt,
  FitsInt64, from_chars_int-signed_digits, from_chars_int-signed_digits_over,
}

-- m_op_name of the clients and `op` of the servers.
abbrev pub op_name : Bytes
op_name = codes "EMULATE_LONG_COMP_OP "

-- The request for a number of seconds; it stays empty if the number cannot be printed.
unfoldable pub prepare_request : ℤ → Bytes
prepare_request seconds = elim (to_chars_signed 21 seconds) [
  | none ↦ []
  | some buffer ↦ op_name ++ (buffer ++ 10 ∷ [])
]

-- How long the server slept, if it did, and what it answers.
pub record Processed : Type 0 where
  pub slept : Option ℤ
  pub response : Bytes

abbrev pub error_occured : Processed
error_occured = record { slept = none; response = codes "ERROR\n" }

abbrev pub done : ℤ → Processed
done seconds = record { slept = some seconds; response = codes "OK\n" }

-- The outcome of from_chars decides.
abbrev emulate_count : Option ℤ → Processed
emulate_count none = error_occured
emulate_count (some sec_count) = done sec_count

-- `pos` is the place of the operation's name in the line.
abbrev emulate_at : Bytes → Option ℕ → Processed
emulate_at request none = error_occured
emulate_at request (some p) = emulate_count (from_chars_int (drop (p + length op_name) request))

-- The processing of one request line.
unfoldable pub emulate : Bytes → Processed
emulate request = emulate_at request (find_text op_name request)

-- std::getline(is, request_str) on the buffer, and the processing.
unfoldable pub process_buffer : Bytes → Processed
process_buffer buffer = emulate (getline 10 [] (fresh buffer)).0

emulate-op_name : (s : Bytes) → emulate (op_name ++ s) ≡ emulate_count (from_chars_int s)
unfolding emulate
emulate-op_name s = ap (emulate_at (op_name ++ s)) (find_text-append op_name s)

FitsInt-FitsInt64 : (z : ℤ) → FitsInt z → FitsInt64 z
FitsInt-FitsInt64 (pos n) h = omega arith
FitsInt-FitsInt64 (negsuc n) h = omega arith

IsDigits-Lacks : (s : Bytes) → IsDigits s → Lacks 10 s
IsDigits-Lacks [] h = tt
IsDigits-Lacks (c ∷ s) h = (ground arith, IsDigits-Lacks s h.1)

line_Lacks : (z : ℤ) → Lacks 10 (op_name ++ signed_digits z)
line_Lacks (pos n) =
    All-append _ op_name (digits n) (ground arith) (IsDigits-Lacks (digits n) (digits-IsDigits n))
line_Lacks (negsuc n) =
    All-append _ op_name (b'-' ∷ digits (suc n)) (ground arith)
      (omega arith, IsDigits-Lacks (digits (suc n)) (digits-IsDigits (suc n)))

line_of_request :
    (z : ℤ) (rest : Bytes)
    → FitsInt64 z
    → (getline 10 [] (fresh (prepare_request z ++ rest))).0 ≡ op_name ++ signed_digits z
unfolding prepare_request
line_of_request z rest h =
    rw (to_chars_signed-fits z h, prepare_request)
      (rw (append_assoc (signed_digits z) (10 ∷ []) rest)
        (ap (λ p. p.0) (getline-append 10 [] (op_name ++ signed_digits z) rest (line_Lacks z))))

-- Every number of seconds that fits int is carried out, and answered by OK; what stands behind the
-- line makes no difference.
pub process_buffer-prepare_request :
    (z : ℤ) (rest : Bytes) → FitsInt z → process_buffer (prepare_request z ++ rest) ≡ done z
unfolding process_buffer
process_buffer-prepare_request z rest h =
    rw (line_of_request z rest (FitsInt-FitsInt64 z h))
      (emulate-op_name (signed_digits z) ∙ rw (from_chars_int-signed_digits z h))

-- A 64-bit number of seconds that does not fit int is answered by ERROR, with no sleep.
pub process_buffer-prepare_request_over :
    (z : ℤ) (rest : Bytes)
    → FitsInt64 z
    → ¬ FitsInt z
    → process_buffer (prepare_request z ++ rest) ≡ error_occured
unfolding process_buffer
process_buffer-prepare_request_over z rest f h =
    rw (line_of_request z rest f)
      (emulate-op_name (signed_digits z) ∙ rw (from_chars_int-signed_digits_over z h))

-- A line with no operation in it is answered by ERROR, with no sleep.
pub emulate_missing :
    (request : Bytes) → find_text op_name request ≡ none → emulate request ≡ error_occured
unfolding emulate
emulate_missing request h = ap (emulate_at request) h

emulate_count-cases :
    (o : Option ℤ)
    → ((emulate_count o).response ≡ codes "OK\n") ⊎ ((emulate_count o).response ≡ codes "ERROR\n")
emulate_count-cases none = inr refl
emulate_count-cases (some sec_count) = inl refl

emulate_at-cases :
    (request : Bytes) (o : Option ℕ)
    → ((emulate_at request o).response ≡ codes "OK\n")
      ⊎ ((emulate_at request o).response ≡ codes "ERROR\n")
emulate_at-cases request none = inr refl
emulate_at-cases request (some p) =
    emulate_count-cases (from_chars_int (drop (p + length op_name) request))

-- There are two answers, whatever was asked.
pub process_buffer-cases :
    (buffer : Bytes)
    → ((process_buffer buffer).response ≡ codes "OK\n")
      ⊎ ((process_buffer buffer).response ≡ codes "ERROR\n")
unfolding process_buffer emulate
process_buffer-cases buffer =
    let line = (getline 10 [] (fresh buffer)).0 in emulate_at-cases line (find_text op_name line)
