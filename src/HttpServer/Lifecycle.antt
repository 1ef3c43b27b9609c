-- ===== src/HttpServer/Lifecycle.antt =====
-- At most one response for each connection, with a status that the table has.
use boost_asio_cpp_network_p.Common.{
  ℕ, suc, ◌-◌, ◌≤◌, ◌≡◌, ◌≢◌, refl, ap, subst, ◌∙◌, Bool, true, false, not, Option, none, some,
  List, [], ◌∷◌, Bytes, codes, if◌then◌else◌, length, arith, inl, inr, Option-cases, Bool-cases,
  beq,
}
use native.Mathlib.Nat.{le_refl}
use boost_asio_cpp_network_p.Asio.{
  Completion, ErrorCode, Result, ok, throws, aborts, ◌>>=◌, ◌>>◌, is_error, is_not_found, check,
}
use boost_asio_cpp_network_p.Cxx.Charconv.{to_chars}
use boost_asio_cpp_network_p.HttpServer.Files.{
  FileSystem, Located, file, missing, unlistable, locate,
}
use boost_asio_cpp_network_p.HttpServer.Service.{
  Service, Operation, read_request_line, read_headers, write_response, on_request_received,
  parse_request_line, check_line, start_handling, http_status, on_headers_received,
  on_response_sent, send_response, process_request, response_buffers, status_line, send_status,
  take_located, load, parse_request_headers, on_read_error,
}
use boost_asio_cpp_network_p.HttpServer.Machine.{dispatch, complete, run}

-- How many completions an operation is away from the end.
abbrev pub rank : Option Operation → ℕ
rank none = 0
rank (some (read_request_line delim)) = 3
rank (some (read_headers delim)) = 2
rank (some (write_response buffers)) = 1

-- A connection that is still read has had no response, one that is written has had that response,
-- and one that is gone has had one at most.
abbrev pub Fits : Option Operation → List (List Bytes) → Type 0
Fits none rs = length rs ≤ 1
Fits (some (read_request_line delim)) rs = rs ≡ []
Fits (some (read_headers delim)) rs = rs ≡ []
Fits (some (write_response buffers)) rs = rs ≡ buffers ∷ []

abbrev pub HasStatus : ℕ → Type 0
HasStatus code = (text : Bytes) × (http_status code ≡ some text)

abbrev Advances : ℕ → Result Service → Type 0
Advances n (ok t) =
    Fits t.pending t.responses × (rank t.pending ≤ n) × HasStatus t.response_status_code
Advances n (throws e) = Unit
Advances n aborts = ⊥

Advances-mono : {m n : ℕ} (r : Result Service) → m ≤ n → Advances m r → Advances n r
Advances-mono (ok t) h a = (a.0, omega arith, a.2)
Advances-mono (throws e) h a = tt
Advances-mono aborts h a = a

bind-Advances :
    (n k : ℕ) (r : Result Service) (f : Service → Result Service)
    → Advances n r
    → ((t : Service)
        → Fits t.pending t.responses
        → rank t.pending ≤ n
        → HasStatus t.response_status_code
        → Advances k (f t))
    → Advances k (r >>= f)
bind-Advances n k (ok t) f a g = g t a.0 a.1 a.2
bind-Advances n k (throws e) f a g = tt
bind-Advances n k aborts f a g = a

if-Advances :
    (n : ℕ) (b : Bool) (m k : Result Service)
    → Advances n m
    → Advances n k
    → Advances n (if b then m else k)
if-Advances n true m k h g = h
if-Advances n false m k h g = g

check-Advances :
    (x : ErrorCode) (n : ℕ) (m : Result Service) → Advances n m → Advances n (check x >> m)
check-Advances ErrorCode.success n m h = h
check-Advances _ n m h = tt

send_response-Advances :
    (x : ErrorCode) (s : Service)
    → s.responses ≡ []
    → HasStatus s.response_status_code
    → Advances 1 (send_response x s)
unfolding send_response
send_response-Advances x s e h =
    rw (h.1, send_response)
      (check-Advances x 1 _ (
        ap (◌∷◌ (response_buffers (status_line h.0) s.response_headers s.resource_buffer)) e,
        le_refl 1,
        h,
      ))

send_status-Advances :
    (x : ErrorCode) (code n : ℕ) (s : Service)
    → s.responses ≡ []
    → HasStatus code
    → Advances (suc n) (send_status x code s)
send_status-Advances x code n s e h =
    Advances-mono (send_status x code s) (omega arith)
      (send_response-Advances x (record s { response_status_code = code }) e h)

on_read_error-Advances :
    (x ec : ErrorCode) (n : ℕ) (s : Service)
    → s.pending ≡ none
    → s.responses ≡ []
    → HasStatus s.response_status_code
    → Advances (suc n) (on_read_error x ec s)
unfolding http_status
on_read_error-Advances x ec n s p e h =
    if-Advances (suc n) (is_not_found ec) _ _
      (send_status-Advances x 413 n (record s { errors = ec ∷ s.errors }) e (_, refl))
      (rw (p, e) (omega arith, omega arith, h))

check_line-Advances :
    (x : ErrorCode) (method version : Bytes) (read named : Service)
    → read.responses ≡ []
    → named.responses ≡ []
    → HasStatus named.response_status_code
    → Advances 2 (check_line x method version read named)
unfolding check_line http_status
check_line-Advances x method version read named e f h =
    if-Advances 2 (not (beq (codes "GET") method)) _ _
      (send_status-Advances x 501 1 read e (_, refl))
      (if-Advances 2 (not (beq (codes "HTTP/1.1") version)) _ _
        (send_status-Advances x 505 1 named f (_, refl))
        (let ready : Advances 2
              (ok (record named { pending = some (read_headers (13 ∷ 10 ∷ 13 ∷ 10 ∷ [])) })) =
            (f, omega arith, h) in
          ready))

load-HasStatus :
    (fs : FileSystem) (unspecified path : Bytes) (s : Service)
    → HasStatus s.response_status_code
    → HasStatus (load fs unspecified path s).response_status_code
unfolding load http_status
load-HasStatus fs unspecified path s h = elim (Option-cases (fs.read path)) [
  | inl e ↦ rw (e, load) (_, refl)
  | inr (content, e) ↦ elim (Option-cases (to_chars 5 (length content))) [
    | inl f ↦ rw (e, load) (rw f (_, refl))
    | inr (buffer, f) ↦ rw (e, load) (rw f h)
  ]
]

load-responses :
    (fs : FileSystem) (unspecified path : Bytes) (s : Service)
    → (load fs unspecified path s).responses ≡ s.responses
unfolding load
load-responses fs unspecified path s = ground arith

take_located-Advances :
    (fs : FileSystem) (unspecified : Bytes) (x : ErrorCode) (s : Service) (l : Located)
    → l ≢ unlistable
    → s.responses ≡ []
    → HasStatus s.response_status_code
    → Advances 1 (take_located fs unspecified s l >>= send_response x)
unfolding take_located http_status
take_located-Advances fs unspecified x s unlistable n e h = absurd (n refl)
take_located-Advances fs unspecified x s missing n e h =
    send_response-Advances x (record s { response_status_code = 404 }) e (_, refl)
take_located-Advances fs unspecified x s (file path) n e h =
    send_response-Advances x (load fs unspecified path s) (load-responses fs unspecified path s ∙ e)
      (load-HasStatus fs unspecified path s h)

locate-ne-unlistable :
    (fs : FileSystem) (root requested : Bytes)
    → fs.list_directory root ≢ none
    → locate fs root requested ≢ unlistable
unfolding locate
locate-ne-unlistable fs root requested h = ground arith

module _ (fs : FileSystem) (unspecified : Bytes)
    (listable : (path : Bytes) → fs.list_directory path ≢ none) where
  dispatch-Advances :
      (op : Operation) (c : Completion) (s : Service)
      → s.pending ≡ none
      → Fits (some op) s.responses
      → HasStatus s.response_status_code
      → Advances (rank (some op) - 1) (dispatch fs unspecified op c s)
  unfolding dispatch on_request_received parse_request_line on_headers_received process_request
      parse_request_headers on_response_sent
  dispatch-Advances (read_request_line delim) c s p e h =
      if-Advances 2 (is_error c.ec) _ _ (on_read_error-Advances c.shutdown_ec c.ec 1 s p e h)
        (check_line-Advances c.shutdown_ec _ _ _ _ e e h)
  dispatch-Advances (read_headers delim) c s p e h =
      if-Advances 1 (is_error c.ec) _ _ (on_read_error-Advances c.shutdown_ec c.ec 0 s p e h) (
        take_located-Advances fs unspecified c.shutdown_ec (parse_request_headers s) _
          (locate-ne-unlistable fs s.resource_root s.requested_resource (listable s.resource_root))
          e h)
  dispatch-Advances (write_response buffers) c s p e h = elim (Bool-cases (is_error c.ec)) [
    | inl b ↦ rw (b, p, e) (omega arith, omega arith, h)
    | inr b ↦ rw (b, p, e) (omega arith, omega arith, h)
  ]

  complete-Advances :
      (c : Completion) (s : Service)
      → Fits s.pending s.responses
      → HasStatus s.response_status_code
      → Advances (rank s.pending - 1) (complete fs unspecified c s)
  unfolding complete
  complete-Advances c s f h = elim (Option-cases s.pending) [
    | inl e ↦ rw (e, complete) (f, rw e (omega arith), h)
    | inr (op, e) ↦
        rw (e, complete) (dispatch-Advances op c _ refl (subst (λ o. Fits o s.responses) e f) h)
  ]

  run-Advances :
      (cs : List Completion) (s : Service)
      → Fits s.pending s.responses
      → HasStatus s.response_status_code
      → Advances (rank s.pending - length cs) (run fs unspecified cs s)
  unfolding run
  run-Advances [] s f h = (f, omega arith, h)
  run-Advances (c ∷ cs) s f h =
      bind-Advances (rank s.pending - 1) (rank s.pending - length (c ∷ cs))
        (complete fs unspecified c s) (run fs unspecified cs) (complete-Advances c s f h)
        (λ t f' n h'.
          Advances-mono (run fs unspecified cs t) (omega arith) (run-Advances cs t f' h'))

  started :
      (cs : List Completion) (root : Bytes)
      → Advances (3 - length cs) (run fs unspecified cs (start_handling root))
  unfolding start_handling http_status
  started cs root = run-Advances cs (start_handling root) refl (_, refl)

-- If the directory iterator never throws, then whatever its operations complete with, no handler of
-- a connection fails an assertion: each status that is sent stands in http_status_table.
pub run-ne-aborts :
    (fs : FileSystem) (unspecified root : Bytes) (cs : List Completion)
    → ((path : Bytes) → fs.list_directory path ≢ none)
    → run fs unspecified cs (start_handling root) ≢ aborts
run-ne-aborts fs unspecified root cs listable e =
    subst (Advances (3 - length cs)) e (started fs unspecified listable cs root)

-- Under the same condition, for each connection at most one response is written, it is written only
-- after the reads, and each completion brings the object nearer to its end: after three of them
-- nothing is pending, so it has been destroyed.
pub run_responses :
    (fs : FileSystem) (unspecified root : Bytes) (cs : List Completion) (s : Service)
    → ((path : Bytes) → fs.list_directory path ≢ none)
    → run fs unspecified cs (start_handling root) ≡ ok s
    → Fits s.pending s.responses × (rank s.pending ≤ 3 - length cs)
run_responses fs unspecified root cs s listable e =
    let a = subst (Advances (3 - length cs)) e (started fs unspecified listable cs root) in
    (a.0, a.1)
