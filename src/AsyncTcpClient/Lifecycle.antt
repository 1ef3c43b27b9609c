-- ===== src/AsyncTcpClient/Lifecycle.antt =====
-- The asynchronous client as a whole: its sessions through every event, and a request that the
-- server answers.
use boost_asio_cpp_network_p.Common.{
  ℕ, zero, suc, ◌≡◌, refl, sym, ap, ◌∙◌, subst, Option, none, some, List, [], ◌∷◌, codes, All,
  All-append, append-nil,
}
use boost_asio_cpp_network_p.Asio.{
  ErrorCode, success, Completion, arrives, ok, check, bind_returned, ok-injective,
}
use boost_asio_cpp_network_p.Cxx.Stream.{getline, fresh}
use boost_asio_cpp_network_p.Cxx.Signed.{ℤ, FitsInt}
use boost_asio_cpp_network_p.LongOp.{
  prepare_request, process_buffer, process_buffer-prepare_request,
}
use boost_asio_cpp_network_p.AsyncTcpClient.{
  async_connect, async_write, Session, Active, Client, new_client, Event, emulates, cancels,
  interrupts, completes, start, cancel, new_session, invoke_callback, on_request_complete,
  on_connect, on_write_complete, on_read_complete, dispatch, complete, find, change_at, session_at,
  cancel_session, cancel_found, complete_found, cancel_request, complete_at,
  emulate_long_computation_op, step, run,
}
use boost_asio_cpp_network_p.AsyncTcpClient.Sessions.{IsSession, complete-IsSession, run_session}

some-injective : (a b : Session) → Option.some a ≡ some b → a ≡ b
some-injective a b h = cc

All-session_at :
    (sessions : List Session) (n : ℕ) (s : Session)
    → All IsSession sessions
    → session_at n sessions ≡ some s
    → IsSession s
All-session_at [] n s h e = cc
All-session_at (x ∷ sessions) zero s h e = subst IsSession (some-injective x s e) h.0
All-session_at (x ∷ sessions) (suc n) s h e = All-session_at sessions n s h.1 e

All-change_at :
    (f : Session → Session) (n : ℕ) (sessions : List Session)
    → ((s : Session) → IsSession s → IsSession (f s))
    → All IsSession sessions
    → All IsSession (change_at f n sessions)
All-change_at f n [] k h = tt
All-change_at f zero (s ∷ sessions) k h = (k s h.0, h.1)
All-change_at f (suc n) (s ∷ sessions) k h = (h.0, All-change_at f n sessions k h.1)

cancel_session-AllSessions :
    (ec : ErrorCode) (n : ℕ) (o : Option Session) (client : Client)
    → All IsSession client.sessions
    → All IsSession (cancel_session ec n o client).0.sessions
unfolding cancel
cancel_session-AllSessions ec n none client h = h
cancel_session-AllSessions ec n (some s) client h =
    All-change_at (λ t. (cancel ec t).0) n client.sessions (λ t k. k) h

cancel_found-AllSessions :
    (ec : ErrorCode) (o : Option ℕ) (client : Client)
    → All IsSession client.sessions
    → All IsSession (cancel_found ec o client).0.sessions
cancel_found-AllSessions ec none client h = h
cancel_found-AllSessions ec (some n) client h =
    cancel_session-AllSessions ec n (session_at n client.sessions) client h

complete_found-AllSessions :
    (o : Option Session) (n : ℕ) (c : Completion) (client : Client)
    → session_at n client.sessions ≡ o
    → All IsSession client.sessions
    → All IsSession (complete_found o n c client).sessions
complete_found-AllSessions none n c client e h = h
complete_found-AllSessions (some s) n c client e h =
    All-change_at _ n client.sessions
      (λ _ _. complete-IsSession c (s, client.active) (All-session_at client.sessions n s h e)) h

step-AllSessions :
    (e : Event) (client next : Client)
    → All IsSession client.sessions
    → step e client ≡ ok next
    → All IsSession next.sessions
unfolding step emulate_long_computation_op cancel_request complete_at new_session
step-AllSessions (emulates ec seconds id) client next h r =
    let added = bind_returned _ (check ec) r in
    subst (λ t. All IsSession t.sessions) (ok-injective _ next added.2)
      (All-append IsSession client.sessions _ h (refl, tt))
step-AllSessions (cancels id ec) client next h r =
    let returned = bind_returned _ (cancel_request id ec client).1 r in
    subst (λ t. All IsSession t.sessions) (ok-injective _ next returned.2)
      (cancel_found-AllSessions ec (find id client.active) client h)
step-AllSessions (interrupts n c ec) client next h r =
    let returned = bind_returned _ (cancel_found ec (some n) (complete_at n c client)).1 r in
    subst (λ t. All IsSession t.sessions) (ok-injective _ next returned.2)
      (cancel_found-AllSessions ec (some n) (complete_at n c client)
        (complete_found-AllSessions (session_at n client.sessions) n c client refl h))
step-AllSessions (completes n c) client next h r =
    subst (λ t. All IsSession t.sessions) (ok-injective _ next r)
      (complete_found-AllSessions (session_at n client.sessions) n c client refl h)

pub run-AllSessions :
    (es : List Event) (client next : Client)
    → All IsSession client.sessions
    → run es client ≡ ok next
    → All IsSession next.sessions
unfolding run
run-AllSessions [] client next h r =
    subst (λ t. All IsSession t.sessions) (ok-injective client next r) h
run-AllSessions (e ∷ es) client next h r =
    let stepped = bind_returned (λ t. run es t) (step e client) r in
    run-AllSessions es stepped.0 next (step-AllSessions e client stepped.0 h stepped.1) stepped.2

-- Whatever the user and the operations do, each session of the client has either an operation
-- pending and its callback not called, or none pending and its callback called once.
pub run-new_client :
    (es : List Event) (client : Client)
    → run es new_client ≡ ok client
    → All IsSession client.sessions
run-new_client es client r = run-AllSessions es new_client client tt r

-- A request for a number of seconds that fits int, sent to the server without an error, is written
-- as it was prepared, and the server's answer reaches the callback as "OK" and success.
pub run_session_answered :
    (z : ℤ) (id : ℕ) (active : Active)
    → FitsInt z
    → ((run_session
          (arrives success [] ∷ [])
          (start async_connect (new_session (prepare_request z) id), active)).0.pending
        ≡ some (async_write (prepare_request z)))
      × ((run_session
            (arrives success []
              ∷ arrives success []
              ∷ arrives success (process_buffer (prepare_request z)).response
              ∷ [])
            (start async_connect (new_session (prepare_request z) id), active)).0.calls
          ≡ record { response = codes "OK"; ec = success } ∷ [])
unfolding run_session complete dispatch on_connect on_write_complete on_read_complete
    on_request_complete invoke_callback new_session getline
run_session_answered z id active h = (
  refl,
  ap (λ p. record { response = (getline 10 [] (fresh p.response)).0; ec = success } ∷ [])
      (sym (ap process_buffer (append-nil (prepare_request z)))
        ∙ process_buffer-prepare_request z [] h),
)
