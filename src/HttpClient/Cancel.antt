-- ===== src/HttpClient/Cancel.antt =====
-- What a cancellation guarantees.
use boost_asio_cpp_network_p.Common.{
  ◌≡◌, refl, subst, Bool, true, false, Option, some, List, [], ◌∷◌, arith, inl, inr, All,
  Option-cases,
}
use boost_asio_cpp_network_p.Asio.{Completion, ErrorCode, Result, ok, is_error, bind_returned}
use boost_asio_cpp_network_p.HttpClient.Response.{HttpResponse}
use boost_asio_cpp_network_p.HttpClient.Request.{
  Operation, async_resolve, async_connect, async_write, read_status_line, read_headers, read_body,
  HttpRequest, cancel, on_host_name_resolved, on_connection_established, on_request_sent,
  on_status_line_received, on_headers_received, on_response_body_received,
}
use boost_asio_cpp_network_p.HttpClient.Machine.{
  Event, completes, cancels, dispatch, complete, step, run,
}

-- The body of the response is being read.
abbrev pub reads_body : Option Operation → Bool
reads_body (some read_body) = true
reads_body _ = false

-- Every call of the callback has reported an error.
abbrev pub AllFailed : List (ErrorCode × HttpResponse) → Type 0
AllFailed = All (λ call. is_error call.0 ≡ true)

abbrev IsDoomed : HttpRequest → Type 0
IsDoomed r = (r.was_cancelled ≡ true) × (reads_body r.pending ≡ false) × AllFailed r.calls

abbrev Ensures : (HttpRequest → Type 0) → Result HttpRequest → Type 0
Ensures P (ok q) = P q
Ensures P _ = Unit

dispatch-IsDoomed :
    (op : Operation) (c : Completion) (r : HttpRequest)
    → reads_body (some op) ≡ false
    → IsDoomed r
    → Ensures IsDoomed (dispatch op c r)
unfolding dispatch on_host_name_resolved on_connection_established on_request_sent
    on_status_line_received on_headers_received on_response_body_received
dispatch-IsDoomed (async_resolve host port) c r b d = ground arith
dispatch-IsDoomed async_connect c r b d = ground arith
dispatch-IsDoomed (async_write buffer) c r b d = ground arith
dispatch-IsDoomed (read_status_line delim) c r b d = ground arith
dispatch-IsDoomed (read_headers delim) c r b d = ground arith
dispatch-IsDoomed read_body c r b d = cc

step-IsDoomed : (e : Event) (r : HttpRequest) → IsDoomed r → Ensures IsDoomed (step e r)
unfolding step complete cancel
step-IsDoomed (cancels b ec) r d = ground arith
step-IsDoomed (completes c) r d = elim (Option-cases r.pending) [
  | inl e ↦ rw (e, complete) d
  | inr (op, e) ↦ rw (e, complete) (dispatch-IsDoomed op c _ (ground arith) (d.0, refl, d.2))
]

run-IsDoomed : (es : List Event) (r q : HttpRequest) → IsDoomed r → run es r ≡ ok q → IsDoomed q
unfolding run
run-IsDoomed [] r q d e = ground arith
run-IsDoomed (x ∷ es) r q d e =
    let (m, p, k) = bind_returned _ (step x r) e in
    run-IsDoomed es m q (subst (Ensures IsDoomed) p (step-IsDoomed x r d)) k

-- A request that is cancelled before the reading of its body starts, at any point, with the socket
-- open or not and however the cancel of the socket ends, never reports success afterwards: whatever follows, every call of the callback
-- carries an error code.
pub cancel-run_fails :
    (is_open : Bool) (ec : ErrorCode) (r q : HttpRequest) (es : List Event)
    → reads_body r.pending ≡ false
    → AllFailed r.calls
    → run es (cancel is_open ec r).0 ≡ ok q
    → AllFailed q.calls
unfolding cancel
cancel-run_fails is_open ec r q es b f e =
    (run-IsDoomed es (cancel is_open ec r).0 q (refl, b, f) e).2
