-- ===== src/HttpServer/Returning.antt =====
-- When a connection can end the program: every status is in the table, so that only a directory that
-- cannot be listed or a shutdown that fails is left.
use boost_asio_cpp_network_p.Common.{
  ◌≡◌, ◌≢◌, refl, sym, subst, Bool, true, false, not, none, List, [], ◌∷◌, Bytes, codes, beq,
  if◌then◌else◌, inl, inr, All, Option-cases,
}
use boost_asio_cpp_network_p.Asio.{
  Completion, ErrorCode, success, Result, ok, throws, aborts, ◌>>=◌, is_error, is_not_found,
}
use boost_asio_cpp_network_p.HttpServer.Files.{FileSystem, Located, file, missing, unlistable}
use boost_asio_cpp_network_p.HttpServer.Service.{
  Service, Operation, read_request_line, read_headers, write_response, on_request_received,
  parse_request_line, check_line, start_handling, http_status, on_headers_received, send_response,
  process_request, take_located, parse_request_headers, on_read_error,
}
use boost_asio_cpp_network_p.HttpServer.Machine.{dispatch, complete, run}
use boost_asio_cpp_network_p.HttpServer.Lifecycle.{run-ne-aborts}

-- Nothing is thrown.
abbrev IsQuiet : Result Service → Type 0
IsQuiet (throws ec) = ⊥
IsQuiet _ = Unit

bind-IsQuiet :
    (m : Result Service) (f : Service → Result Service)
    → IsQuiet m
    → ((s : Service) → IsQuiet (f s))
    → IsQuiet (m >>= f)
bind-IsQuiet (ok s) f h g = g s
bind-IsQuiet (throws ec) f h g = h
bind-IsQuiet aborts f h g = tt

if-IsQuiet :
    (b : Bool) (m k : Result Service) → IsQuiet m → IsQuiet k → IsQuiet (if b then m else k)
if-IsQuiet true m k h g = h
if-IsQuiet false m k h g = g

send_response-IsQuiet : (s : Service) → IsQuiet (send_response success s)
unfolding send_response
send_response-IsQuiet s = elim (Option-cases (http_status s.response_status_code)) [
  | inl e ↦ rw (e, send_response) tt
  | inr (text, e) ↦ rw (e, send_response) tt
]

on_read_error-IsQuiet : (ec : ErrorCode) (s : Service) → IsQuiet (on_read_error success ec s)
on_read_error-IsQuiet ec s = if-IsQuiet (is_not_found ec) _ _ (send_response-IsQuiet _) tt

check_line-IsQuiet :
    (method version : Bytes) (read named : Service)
    → IsQuiet (check_line success method version read named)
unfolding check_line
check_line-IsQuiet method version read named =
    if-IsQuiet (not (beq (codes "GET") method)) _ _ (send_response-IsQuiet _)
      (if-IsQuiet (not (beq (codes "HTTP/1.1") version)) _ _ (send_response-IsQuiet _) tt)

module _ (fs : FileSystem) (unspecified : Bytes) where
  take_located-IsQuiet :
      (s : Service) (l : Located)
      → IsQuiet (take_located fs unspecified s l >>= send_response success)
  unfolding take_located
  take_located-IsQuiet s unlistable = tt
  take_located-IsQuiet s missing = send_response-IsQuiet _
  take_located-IsQuiet s (file path) = send_response-IsQuiet _

  dispatch-IsQuiet :
      (op : Operation) (c : Completion) (s : Service)
      → c.shutdown_ec ≡ success
      → IsQuiet (dispatch fs unspecified op c s)
  unfolding dispatch on_request_received parse_request_line on_headers_received process_request
  dispatch-IsQuiet (read_request_line delim) c s h =
      subst (λ x. IsQuiet (on_request_received x c.ec c.bytes_transferred s)) (sym h)
        (if-IsQuiet (is_error c.ec) _ _ (on_read_error-IsQuiet c.ec s) (check_line-IsQuiet _ _ _ _))
  dispatch-IsQuiet (read_headers delim) c s h =
      subst (λ x. IsQuiet (on_headers_received fs unspecified x c.ec c.bytes_transferred s)) (sym h)
        (if-IsQuiet (is_error c.ec) _ _ (on_read_error-IsQuiet c.ec s)
          (take_located-IsQuiet (parse_request_headers s) _))
  dispatch-IsQuiet (write_response buffers) c s h = tt

  complete-IsQuiet :
      (c : Completion) (s : Service)
      → c.shutdown_ec ≡ success
      → IsQuiet (complete fs unspecified c s)
  unfolding complete
  complete-IsQuiet c s h = elim (Option-cases s.pending) [
    | inl e ↦ rw (e, complete) tt
    | inr (op, e) ↦ rw (e, complete) (dispatch-IsQuiet op c _ h)
  ]

  run-IsQuiet :
      (cs : List Completion) (s : Service)
      → All (λ c. c.shutdown_ec ≡ success) cs
      → IsQuiet (run fs unspecified cs s)
  unfolding run
  run-IsQuiet [] s h = tt
  run-IsQuiet (c ∷ cs) s h =
      bind-IsQuiet (complete fs unspecified c s) (run fs unspecified cs) (complete-IsQuiet c s h.0)
        (λ t. run-IsQuiet cs t h.1)

returned : (m : Result Service) → IsQuiet m → m ≢ aborts → (s : Service) × (m ≡ ok s)
returned (ok s) h n = (s, refl)
returned (throws ec) h n = absurd h
returned aborts h n = absurd (n refl)

pub run_returns :
    (fs : FileSystem) (unspecified root : Bytes) (cs : List Completion)
    → ((path : Bytes) → fs.list_directory path ≢ none)
    → All (λ c. c.shutdown_ec ≡ success) cs
    → (s : Service) × (run fs unspecified cs (start_handling root) ≡ ok s)
run_returns fs unspecified root cs listable h =
    returned (run fs unspecified cs (start_handling root))
      (run-IsQuiet fs unspecified cs (start_handling root) h)
      (run-ne-aborts fs unspecified root cs listable)
