-- ===== src/AsyncTcpClient/Sessions.antt =====
-- One session of the asynchronous client: its operations end in one call of the callback.
use boost_asio_cpp_network_p.Common.{
  ℕ, suc, ◌-◌, ◌≤◌, ◌≡◌, refl, subst, inl, inr, Bool, true, false, Option, none, some, List, [],
  ◌∷◌, ◌++◌, All, All-append, length, arith, Bool-cases, if◌then◌else◌,
}
use boost_asio_cpp_network_p.Asio.{ErrorCode, operation_aborted, Completion, is_error}
use boost_asio_cpp_network_p.AsyncTcpClient.{
  Operation, async_connect, async_write, async_read_until, Call, Session, Active, Work, cancel,
  invoke_callback, on_request_complete, continue, on_connect, on_write_complete, on_read_complete,
  dispatch, dispatch_pending, complete,
}

unfoldable pub run_session : List Completion → Work → Work
run_session [] w = w
run_session (c ∷ cs) w = run_session cs (complete c w)

-- While an operation is pending the callback has not been called; with none pending it has been
-- called once.
abbrev pub IsCalled : Option Operation → List Call → Type 0
IsCalled none calls = length calls ≡ 1
IsCalled (some op) calls = calls ≡ []

abbrev pub IsSession : Session → Type 0
IsSession s = IsCalled s.pending s.calls

-- The operations that are left.
abbrev pub rank : Option Operation → ℕ
rank none = 0
rank (some async_connect) = 3
rank (some (async_write text)) = 2
rank (some (async_read_until delim)) = 1

on_request_complete-IsSession :
    (ec : ErrorCode) (b : Bool) (w : Work)
    → w.0.pending ≡ none
    → w.0.calls ≡ []
    → IsSession (on_request_complete ec b w).0
unfolding on_request_complete invoke_callback
on_request_complete-IsSession ec b w p h = rw (p, h) refl

rank-on_request_complete :
    (ec : ErrorCode) (b : Bool) (w : Work)
    → w.0.pending ≡ none
    → rank (on_request_complete ec b w).0.pending ≡ 0
unfolding on_request_complete invoke_callback
rank-on_request_complete ec b w p = rw p refl

continue-IsSession :
    (next : Operation) (ec : ErrorCode) (w : Work)
    → w.0.pending ≡ none
    → w.0.calls ≡ []
    → IsSession (continue next ec w).0
continue-IsSession next ec w p h = elim (Bool-cases (is_error ec)) [
  | inl e ↦ rw e (on_request_complete-IsSession ec false w p h)
  | inr e ↦ elim (Bool-cases w.0.was_cancelled) [
    | inl d ↦ simp (e, d) (on_request_complete-IsSession ec true w p h)
    | inr d ↦ simp (e, d) h
  ]
]

rank-continue :
    (next : Operation) (ec : ErrorCode) (w : Work)
    → w.0.pending ≡ none
    → rank (continue next ec w).0.pending ≤ rank (some next)
rank-continue next ec w p = elim (Bool-cases (is_error ec)) [
  | inl e ↦ rw e (omega (arith, rank-on_request_complete ec false w p))
  | inr e ↦ elim (Bool-cases w.0.was_cancelled) [
    | inl d ↦ simp (e, d) (omega (arith, rank-on_request_complete ec true w p))
    | inr d ↦ simp (e, d) (omega arith)
  ]
]

dispatch-IsSession :
    (op : Operation) (ec : ErrorCode) (w : Work)
    → w.0.pending ≡ none
    → w.0.calls ≡ []
    → IsSession (dispatch op ec w).0
unfolding dispatch on_connect on_write_complete on_read_complete
dispatch-IsSession async_connect ec w p h = continue-IsSession _ ec w p h
dispatch-IsSession (async_write text) ec w p h = continue-IsSession _ ec w p h
dispatch-IsSession (async_read_until delim) ec w p h =
    on_request_complete-IsSession ec w.0.was_cancelled w p h

rank-dispatch :
    (op : Operation) (ec : ErrorCode) (w : Work)
    → w.0.pending ≡ none
    → suc (rank (dispatch op ec w).0.pending) ≤ rank (some op)
unfolding dispatch on_connect on_write_complete on_read_complete
rank-dispatch async_connect ec w p = omega (arith, rank-continue (async_write w.0.request) ec w p)
rank-dispatch (async_write text) ec w p =
    omega (arith, rank-continue (async_read_until (10 ∷ [])) ec w p)
rank-dispatch (async_read_until delim) ec w p =
    omega (arith, rank-on_request_complete ec w.0.was_cancelled w p)

dispatch_pending-IsSession :
    (p : Option Operation) (c : Completion) (w : Work)
    → p ≡ w.0.pending
    → IsCalled p w.0.calls
    → IsSession (dispatch_pending p c w).0
dispatch_pending-IsSession none c w e h = subst (λ p. IsCalled p w.0.calls) e h
dispatch_pending-IsSession (some op) c w e h = dispatch-IsSession op c.ec _ refl h

pub rank-dispatch_pending :
    (p : Option Operation) (c : Completion) (w : Work)
    → p ≡ w.0.pending
    → rank (dispatch_pending p c w).0.pending ≤ rank p - 1
rank-dispatch_pending none c w e = subst (λ p. rank p ≤ 0) e (omega arith)
rank-dispatch_pending (some op) c w e = omega (
  arith,
  rank-dispatch op c.ec
      (record w.0 { pending = none; response_buf = w.0.response_buf ++ c.received }, w.1) refl,
)

pub complete-IsSession : (c : Completion) (w : Work) → IsSession w.0 → IsSession (complete c w).0
unfolding complete
complete-IsSession c w h = dispatch_pending-IsSession w.0.pending c w refl h

rank-run_session :
    (cs : List Completion) (w : Work)
    → rank (run_session cs w).0.pending ≤ rank w.0.pending - length cs
unfolding run_session complete
rank-run_session [] w = omega arith
rank-run_session (c ∷ cs) w =
    omega (arith, rank-run_session cs (complete c w), rank-dispatch_pending w.0.pending c w refl)

run_session-IsSession :
    (cs : List Completion) (w : Work) → IsSession w.0 → IsSession (run_session cs w).0
unfolding run_session
run_session-IsSession [] w h = h
run_session-IsSession (c ∷ cs) w h =
    run_session-IsSession cs (complete c w) (complete-IsSession c w h)

rank-pending : (p : Option Operation) → rank p ≤ 3
rank-pending none = omega arith
rank-pending (some async_connect) = omega arith
rank-pending (some (async_write text)) = omega arith
rank-pending (some (async_read_until delim)) = omega arith

rank-zero : (p : Option Operation) → rank p ≤ 0 → p ≡ none
rank-zero none h = refl
rank-zero (some async_connect) h = ground arith
rank-zero (some (async_write text)) h = ground arith
rank-zero (some (async_read_until delim)) h = ground arith

-- A session that has either an operation pending and its callback not called, or none pending
-- and its callback called once, is over after three completions at the latest, and its callback
-- has then been called exactly once.
pub run_session_finishes :
    (cs : List Completion) (w : Work)
    → IsSession w.0
    → 3 ≤ length cs
    → ((run_session cs w).0.pending ≡ none) × (length (run_session cs w).0.calls ≡ 1)
run_session_finishes cs w h n =
    let over =
      rank-zero (run_session cs w).0.pending
        (omega (arith, rank-run_session cs w, rank-pending w.0.pending)) in
    (over, subst (λ p. IsCalled p (run_session cs w).0.calls) over (run_session-IsSession cs w h))

-- A session that has been cancelled, none of whose calls reported success.
abbrev pub IsCancelled : Session → Type 0
IsCancelled s = (s.was_cancelled ≡ true) × All (λ c. is_error c.ec ≡ true) s.calls

on_request_complete-IsCancelled :
    (ec : ErrorCode) (b : Bool) (w : Work)
    → is_error (if b then operation_aborted else ec) ≡ true
    → IsCancelled w.0
    → IsCancelled (on_request_complete ec b w).0
unfolding on_request_complete invoke_callback
on_request_complete-IsCancelled ec b w e h =
    (h.0, All-append (λ c. is_error c.ec ≡ true) w.0.calls _ h.1 (e, tt))

continue-IsCancelled :
    (next : Operation) (ec : ErrorCode) (w : Work)
    → IsCancelled w.0
    → IsCancelled (continue next ec w).0
continue-IsCancelled next ec w h = elim (Bool-cases (is_error ec)) [
  | inl e ↦ rw e (on_request_complete-IsCancelled ec false w e h)
  | inr e ↦ simp (e, h.0) (on_request_complete-IsCancelled ec true w refl h)
]

dispatch-IsCancelled :
    (op : Operation) (ec : ErrorCode) (w : Work)
    → IsCancelled w.0
    → IsCancelled (dispatch op ec w).0
unfolding dispatch on_connect on_write_complete on_read_complete
dispatch-IsCancelled async_connect ec w h = continue-IsCancelled _ ec w h
dispatch-IsCancelled (async_write text) ec w h = continue-IsCancelled _ ec w h
dispatch-IsCancelled (async_read_until delim) ec w h =
    on_request_complete-IsCancelled ec w.0.was_cancelled w (rw h.0 refl) h

dispatch_pending-IsCancelled :
    (p : Option Operation) (c : Completion) (w : Work)
    → IsCancelled w.0
    → IsCancelled (dispatch_pending p c w).0
dispatch_pending-IsCancelled none c w h = h
dispatch_pending-IsCancelled (some op) c w h = dispatch-IsCancelled op c.ec _ h

run_session-IsCancelled :
    (cs : List Completion) (w : Work) → IsCancelled w.0 → IsCancelled (run_session cs w).0
unfolding run_session complete
run_session-IsCancelled [] w h = h
run_session-IsCancelled (c ∷ cs) w h =
    run_session-IsCancelled cs (complete c w) (dispatch_pending-IsCancelled w.0.pending c w h)

-- A session that is cancelled while one of its operations is pending, so not while one of its
-- handlers runs, never reports success, whatever its operations complete with and however the cancel
-- of its socket ends.
pub run_session-cancel :
    (cs : List Completion) (s : Session) (active : Active) (op : Operation) (ec : ErrorCode)
    → IsSession s
    → s.pending ≡ some op
    → All (λ c. is_error c.ec ≡ true) (run_session cs ((cancel ec s).0, active)).0.calls
unfolding cancel
run_session-cancel cs s active op ec h p =
    let not_called : s.calls ≡ [] = subst (λ o. IsCalled o s.calls) p h in
    (run_session-IsCancelled cs ((cancel ec s).0, active) (refl, rw not_called tt)).1
