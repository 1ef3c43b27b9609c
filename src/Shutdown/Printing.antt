-- ===== src/Shutdown/Printing.antt =====
-- What the two programs print, and that the loop that prints has rounds enough.
use boost_asio_cpp_network_p.Common.{
  ℕ, zero, suc, ◌<◌, ◌≡◌, refl, ap, inl, inr, [], ◌∷◌, length, Bool-cases, arith,
}
use boost_asio_cpp_network_p.Asio.{ok, success, eof, check, ◌>>◌}
use boost_asio_cpp_network_p.Cxx.Stream.{Stream, getline, length-getline}
use boost_asio_cpp_network_p.Shutdown.Code.{
  request, response, print_lines, print_message, communicate, process_request,
}

-- More rounds than there are characters change nothing.
pub print_lines-fuel :
    (n m : ℕ) (is : Stream)
    → length is.chars < n
    → length is.chars < m
    → print_lines n is ≡ print_lines m is
unfolding print_lines
print_lines-fuel zero m is h g = absurd (omega arith)
print_lines-fuel (suc n) zero is h g = absurd (omega arith)
print_lines-fuel (suc n) (suc m) is h g = elim (Bool-cases (getline 10 [] is).1.failbit) [
  | inl e ↦ simp e refl
  | inr e ↦
      let less = length-getline 10 [] is e in
      rw e (
        ap (◌∷◌ (getline 10 [] is).0)
          (print_lines-fuel n m (getline 10 [] is).1 (omega (arith, less)) (omega (arith, less))))
]

print_message-response : print_message response ≡ response ∷ []
unfolding print_message print_lines getline
print_message-response = refl

pub communicate-response : communicate success success eof response ≡ ok (response ∷ [])
unfolding communicate
communicate-response =
    ap (λ lines. check success >> check success >> ok lines) print_message-response

pub process_request-request : process_request eof request success success ≡ (request ∷ [], ok tt)
unfolding process_request print_message print_lines getline
process_request-request = refl
