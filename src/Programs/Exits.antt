-- ===== src/Programs/Exits.antt =====
-- When the programs end with 0.
use boost_asio_cpp_network_p.Common.{
  ◌≡◌, ◌≢◌, ◌↔◌, refl, sym, ap, subst, ◌∙◌, ◌⊎◌, inl, inr, Bool, true, false, none, some, List, [],
  ◌∷◌, Bytes, All, Bool-cases,
}
use boost_asio_cpp_network_p.Asio.{ErrorCode, success, is_error}
use boost_asio_cpp_network_p.Transfer.{
  Answer, Written, finished, failed, waiting, write_loop, hello,
}
use boost_asio_cpp_network_p.Transfer.Completeness.{run-write_to_socket}
use boost_asio_cpp_network_p.Transfer.Exactness.{write_loop_exact}
use boost_asio_cpp_network_p.Programs.{
  Exit, zero_status, value, return_value, try_calls, Connecting, connecting_codes, connect_then,
}
use boost_asio_cpp_network_p.Programs.Basics.{
  Resolved, error, iterate, first_line, listening_socket, dns_resolve, dns_resolve_udp,
  dns_resolve_iteration,
}
use boost_asio_cpp_network_p.Programs.Transfers.{
  exit_of_written, exit_of_session, write_synchronously, write_asynchronously,
}

abbrev pub AllSucceed : List ErrorCode → Type 0
AllSucceed codes = All (λ ec. ec ≡ success) codes

success-cases : (ec : ErrorCode) → (ec ≡ success) ⊎ (is_error ec ≡ true)
success-cases ErrorCode.success = inl refl
success-cases _ = inr refl

try_calls-AllSucceed :
    (codes : List ErrorCode) (rest : Exit) → AllSucceed codes → try_calls codes rest ≡ rest
unfolding try_calls return_value
try_calls-AllSucceed [] rest h = refl
try_calls-AllSucceed (ec ∷ codes) rest h = rw h.0 (try_calls-AllSucceed codes rest h.1)

return_value_thrown :
    (ec : ErrorCode) (rest : Exit) → is_error ec ≡ true → return_value ec rest ≡ value ec
unfolding return_value
return_value_thrown ec rest e = rw e refl

return_value_success : (rest : Exit) → return_value success rest ≡ rest
unfolding return_value
return_value_success rest = refl

try_calls_zero :
    (codes : List ErrorCode) (rest : Exit)
    → try_calls codes rest ≡ zero_status
    → AllSucceed codes × (rest ≡ zero_status)
unfolding try_calls
try_calls_zero [] rest h = (tt, h)
try_calls_zero (ec ∷ codes) rest h = elim (success-cases ec) [
  | inl e ↦
      let later = try_calls_zero codes rest (
        sym (return_value_success (try_calls codes rest))
        ∙ ap (λ c. return_value c (try_calls codes rest)) (sym e)
        ∙ h) in
      ((e, later.0), later.1)
  | inr e ↦
      let thrown : value ec ≡ zero_status =
        sym (return_value_thrown ec (try_calls codes rest) e) ∙ h in
      cc
]

-- A program that listens ends with 0 exactly if none of its calls fails.
pub listening_socket_zero :
    (open_ec bind_ec listen_ec accept_ec : ErrorCode)
    → (listening_socket open_ec bind_ec listen_ec accept_ec ≡ zero_status)
      ↔ AllSucceed (open_ec ∷ bind_ec ∷ listen_ec ∷ accept_ec ∷ [])
unfolding listening_socket
listening_socket_zero o b l a = (
  λ h. (try_calls_zero (o ∷ b ∷ l ∷ a ∷ []) zero_status h).0,
  λ h. try_calls-AllSucceed (o ∷ b ∷ l ∷ a ∷ []) zero_status h,
)

exit_of_written_zero :
    (answers : List Answer) (w : Written)
    → write_loop answers hello 0 [] ≡ w
    → exit_of_written w ≡ zero_status
    → w ≡ finished hello
exit_of_written_zero answers (finished out) e h = ap finished (write_loop_exact answers hello out e)
exit_of_written_zero answers (failed ec out) e h = cc
exit_of_written_zero answers (waiting out) e h = cc

-- The blocking writer ends with 0 exactly if it was connected without an error and the socket was
-- given the whole message, in order.
pub write_synchronously_zero :
    (c : Connecting) (answers : List Answer)
    → (write_synchronously c answers ≡ zero_status)
      ↔ (AllSucceed (connecting_codes c) × (write_loop answers hello 0 [] ≡ finished hello))
unfolding write_synchronously connect_then
write_synchronously_zero c answers = (
  λ h.
      let parts = try_calls_zero (connecting_codes c) _ h in
      (parts.0, exit_of_written_zero answers (write_loop answers hello 0 []) refl parts.1),
  λ h.
      try_calls-AllSucceed (connecting_codes c) (exit_of_written (write_loop answers hello 0 []))
        h.0
      ∙ ap exit_of_written h.1,
)

-- Where the same answers make the blocking writer end with the value of an error code, the
-- asynchronous writer, which only prints the error, ends with 0.
pub write_asynchronously_failed :
    (c : Connecting) (answers : List Answer) (ec : ErrorCode) (out : Bytes)
    → AllSucceed (connecting_codes c)
    → write_loop answers hello 0 [] ≡ failed ec out
    → (write_synchronously c answers ≡ value ec) × (write_asynchronously c answers ≡ zero_status)
unfolding write_synchronously write_asynchronously connect_then
write_asynchronously_failed c answers ec out h e = (
  try_calls-AllSucceed (connecting_codes c) _ h ∙ ap exit_of_written e,
  try_calls-AllSucceed (connecting_codes c) _ h
      ∙ ap exit_of_session (run-write_to_socket answers _ _ ∙ e),
)

-- What Boost.Asio documents of resolve: with an error the range is empty, and with none it is not.
abbrev pub IsRange : Bool → List Bytes → Type 0
IsRange true endpoints = endpoints ≡ []
IsRange false endpoints = endpoints ≢ []

abbrev pub IsResolved : Resolved → Type 0
IsResolved r = IsRange (is_error r.ec) r.endpoints

-- When the name cannot be resolved, the program that iterates prints nothing and ends with 0, while
-- the other two print the error and end with its value.
pub dns_resolve_iteration_silent :
    (r : Resolved)
    → is_error r.ec ≡ true
    → IsResolved r
    → (dns_resolve_iteration r ≡ ([], zero_status))
      × (dns_resolve_udp r ≡ (error r.ec ∷ [], value r.ec))
      × (dns_resolve r ≡ (some (error r.ec ∷ []), value r.ec))
unfolding dns_resolve_iteration dns_resolve dns_resolve_udp
dns_resolve_iteration_silent r e h =
    let none_found : r.endpoints ≡ [] = subst (λ b. IsRange b r.endpoints) e h in
    (ap (λ es. (iterate r.ec es, zero_status)) none_found, simp e refl, simp e refl)

first_line_empty : (endpoints : List Bytes) → first_line endpoints ≡ none → endpoints ≡ []
first_line_empty [] h = refl
first_line_empty (e ∷ endpoints) h = cc

dns_resolve_error :
    (r : Resolved) → is_error r.ec ≡ true → (dns_resolve r).0 ≡ some (error r.ec ∷ [])
unfolding dns_resolve
dns_resolve_error r e = simp e refl

dns_resolve_found :
    (r : Resolved) → is_error r.ec ≡ false → (dns_resolve r).0 ≡ first_line r.endpoints
unfolding dns_resolve
dns_resolve_found r e = simp e refl

-- dns_resolve.cpp never reads through the end of the range.
pub dns_resolve_defined : (r : Resolved) → IsResolved r → (dns_resolve r).0 ≢ none
dns_resolve_defined r h = elim (Bool-cases (is_error r.ec)) [
  | inl e ↦ λ n. cc (dns_resolve_error r e)
  | inr e ↦ λ n.
      subst (λ b. IsRange b r.endpoints) e h
        (first_line_empty r.endpoints (sym (dns_resolve_found r e) ∙ n))
]
