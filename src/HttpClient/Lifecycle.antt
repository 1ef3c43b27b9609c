-- ===== src/HttpClient/Lifecycle.antt =====
-- One callback for each request, after at most six completions.
use boost_asio_cpp_network_p.Common.{
  ◌<◌, ◌≢◌, true, false, ℕ, ◌+◌, ◌-◌, ◌≤◌, ◌≡◌, refl, ap, subst, Option, none, some, List, [], ◌∷◌,
  length, arith, inl, inr, All, Option-cases, Bool-cases,
}
use boost_asio_cpp_network_p.Asio.{Completion, success, Result, ok, is_error, bind_returned}
use boost_asio_cpp_network_p.Cxx.Charconv.{digits, to_chars-fits}
use boost_asio_cpp_network_p.HttpClient.Request.{
  start, Operation, async_resolve, async_connect, async_write, read_status_line, read_headers,
  read_body, HttpRequest, cancel, execute, on_host_name_resolved, on_connection_established,
  on_request_sent, on_status_line_received, on_headers_received, on_response_body_received,
}
use boost_asio_cpp_network_p.HttpClient.Machine.{
  Event, completes, cancels, dispatch, complete, step, run, completions,
}

-- How many completions an operation is away from the end.
abbrev pub rank : Option Operation → ℕ
rank none = 0
rank (some (async_resolve host port)) = 6
rank (some async_connect) = 5
rank (some (async_write buffer)) = 4
rank (some (read_status_line delim)) = 3
rank (some (read_headers delim)) = 2
rank (some read_body) = 1

abbrev pub waiting : Option Operation → ℕ
waiting none = 0
waiting (some op) = 1

rank_zero : (o : Option Operation) → rank o ≡ 0 → o ≡ none
rank_zero none h = refl
rank_zero (some (async_resolve host port)) h = absurd (omega arith)
rank_zero (some async_connect) h = absurd (omega arith)
rank_zero (some (async_write buffer)) h = absurd (omega arith)
rank_zero (some (read_status_line delim)) h = absurd (omega arith)
rank_zero (some (read_headers delim)) h = absurd (omega arith)
rank_zero (some read_body) h = absurd (omega arith)

-- One operation is pending, or the callback was called once.
abbrev pub IsLive : HttpRequest → Type 0
IsLive r = waiting r.pending + length r.calls ≡ 1

abbrev Advances : ℕ → Result HttpRequest → Type 0
Advances n (ok q) = IsLive q × (rank q.pending ≤ n)
Advances n _ = Unit

dispatch-Advances :
    (op : Operation) (c : Completion) (r : HttpRequest)
    → r.pending ≡ none
    → r.calls ≡ []
    → Advances (rank (some op) - 1) (dispatch op c r)
unfolding dispatch on_host_name_resolved on_connection_established on_request_sent
    on_status_line_received on_headers_received on_response_body_received
dispatch-Advances (async_resolve host port) c r p e = ground arith
dispatch-Advances async_connect c r p e = ground arith
dispatch-Advances (async_write buffer) c r p e = ground arith
dispatch-Advances (read_status_line delim) c r p e = ground arith
dispatch-Advances (read_headers delim) c r p e = ground arith
dispatch-Advances read_body c r p e = ground arith

nil_of_length {ℓ} : {A : Type ℓ} (xs : List A) → length xs ≡ 0 → xs ≡ []
nil_of_length [] h = refl
nil_of_length (x ∷ xs) h = absurd (omega arith)

complete-Advances :
    (c : Completion) (r : HttpRequest) → IsLive r → Advances (rank r.pending - 1) (complete c r)
unfolding complete
complete-Advances c r h = elim (Option-cases r.pending) [
  | inl e ↦ rw (e, complete) (ground arith)
  | inr (op, e) ↦
      rw (e, complete) (dispatch-Advances op c _ refl (nil_of_length r.calls (ground arith)))
]

step-Advances :
    (e : Event) (r : HttpRequest)
    → IsLive r
    → Advances (rank r.pending - completions (e ∷ [])) (step e r)
unfolding step cancel
step-Advances (completes c) r h = complete-Advances c r h
step-Advances (cancels b ec) r h = (h, omega arith)

completions-cons :
    (e : Event) (es : List Event) → completions (e ∷ es) ≡ completions (e ∷ []) + completions es
completions-cons (completes c) es = omega arith
completions-cons (cancels b ec) es = omega arith

run-IsLive :
    (es : List Event) (r q : HttpRequest)
    → IsLive r
    → run es r ≡ ok q
    → IsLive q × (rank q.pending ≤ rank r.pending - completions es)
unfolding run
run-IsLive [] r q h e = ground arith
run-IsLive (x ∷ es) r q h e =
    let (m, p, k) = bind_returned _ (step x r) e in
    let (live, near) =
      subst (Advances (rank r.pending - completions (x ∷ []))) p (step-Advances x r h) in
    let (done, left) = run-IsLive es m q live k in (done, omega (arith, completions-cons x es))

execute-IsLive :
    (r a : HttpRequest)
    → r.pending ≡ none
    → r.calls ≡ []
    → execute r ≡ ok a
    → IsLive a × (rank a.pending ≤ 6)
unfolding execute
execute-IsLive r a p c e = ground arith

-- The completions of a schedule find the socket fit for a shutdown.
abbrev pub ShutsDown : Event → Type 0
ShutsDown (completes c) = c.shutdown_ec ≡ success
ShutsDown (cancels b ec) = Unit

abbrev Returns {ℓ} : {A : Type ℓ} → Result A → Type ℓ
Returns {A = A} m = (a : A) × (m ≡ ok a)

dispatch-Returns :
    (op : Operation) (c : Completion) (r : HttpRequest)
    → c.shutdown_ec ≡ success
    → Returns (dispatch op c r)
unfolding dispatch on_request_sent
dispatch-Returns (async_resolve host port) c r h = (_, refl)
dispatch-Returns async_connect c r h = (_, refl)
dispatch-Returns (async_write buffer) c r h = elim (Bool-cases (is_error c.ec)) [
  | inl e ↦ rw e (_, refl)
  | inr e ↦ rw (e, h) (_, refl)
]
dispatch-Returns (read_status_line delim) c r h = (_, refl)
dispatch-Returns (read_headers delim) c r h = (_, refl)
dispatch-Returns read_body c r h = (_, refl)

step-Returns : (e : Event) (r : HttpRequest) → ShutsDown e → Returns (step e r)
unfolding step complete
step-Returns (cancels b ec) r h = (_, refl)
step-Returns (completes c) r h = elim (Option-cases r.pending) [
  | inl e ↦ (r, rw e)
  | inr (op, e) ↦ rw (e, complete) (dispatch-Returns op c _ h)
]

run-Returns : (es : List Event) (r : HttpRequest) → All ShutsDown es → Returns (run es r)
unfolding run
run-Returns [] r h = (r, refl)
run-Returns (e ∷ es) r h = let (q, p) = step-Returns e r h.0 in rw p (run-Returns es q h.1)

-- From a request that is executed, whatever the operations complete with and whenever the user
-- cancels: as long as the program runs, either one operation is pending and the callback has not
-- been called, or none is pending and it has been called once.
pub execute-run_calls :
    (r a q : HttpRequest) (es : List Event)
    → r.pending ≡ none
    → r.calls ≡ []
    → execute r ≡ ok a
    → run es a ≡ ok q
    → waiting q.pending + length q.calls ≡ 1
execute-run_calls r a q es p c e k = (run-IsLive es a q (execute-IsLive r a p c e).0 k).0

-- If no shutdown of the socket fails, then after six completions at the latest, with any
-- cancellations between them, the program runs on, nothing is pending and the callback of an
-- executed request has been called exactly once.
pub execute-run_finishes :
    (r a : HttpRequest) (es : List Event)
    → r.pending ≡ none
    → r.calls ≡ []
    → execute r ≡ ok a
    → All ShutsDown es
    → 6 ≤ completions es
    → (q : HttpRequest) × (run es a ≡ ok q) × (q.pending ≡ none) × (length q.calls ≡ 1)
execute-run_finishes r a es p c e h n =
    let (q, k) = run-Returns es a h in
    let (live, near) = execute-IsLive r a p c e in
    let (done, left) = run-IsLive es a q live k in
    let idle = rank_zero q.pending (omega arith) in (q, k, idle, omega (arith, ap waiting idle))

-- With a port that fits uint16_t, a host, a URI, a callback and no cancellation, a request starts by
-- resolving its host under the port in decimal: the five bytes for the port are always enough.
pub execute_lem :
    (r : HttpRequest)
    → 0 < r.port
    → r.port < 65536
    → r.host ≢ []
    → r.uri ≢ []
    → r.has_callback ≡ true
    → r.was_cancelled ≡ false
    → execute r ≡ ok (start (async_resolve r.host (digits r.port)) r)
unfolding execute
execute_lem r p q h u c w = ground (arith, to_chars-fits 4 r.port)
