-- ===== src/HttpClient/Client/Finishing.antt =====
-- The three requests of main, and close().
use boost_asio_cpp_network_p.Common.{
  ℕ, ◌≤◌, ◌≡◌, ◌≢◌, refl, Bool, true, false, none, List, [], ◌∷◌, ◌++◌, Bytes, codes, All, length,
  fun_ext, ap, sym, ◌∙◌, ◌&&◌, if◌then◌else◌, arith,
}
use boost_asio_cpp_network_p.Asio.{
  ErrorCode, Result, ok, throws, is_error, ◌>>=◌, ◌>>◌, bind_returned, bind_assoc,
}
use boost_asio_cpp_network_p.Programs.{zero_status, terminated}
use boost_asio_cpp_network_p.HttpClient.Request.{
  HttpRequest, create_request, set_host, set_port, set_uri, set_callback, execute, cancel,
}
use boost_asio_cpp_network_p.HttpClient.Machine.{Event, cancels, step, run, completions}
use boost_asio_cpp_network_p.HttpClient.Lifecycle.{ShutsDown, execute_lem, execute-run_finishes}
use boost_asio_cpp_network_p.HttpClient.Client.{
  HttpClient, close, thread_ends, prepare, main_calls, exit_of_calls, main_http_client,
}

-- The request is over, and its callback has been called once.
abbrev pub IsAnswered : HttpRequest → Type 0
IsAnswered r = (r.pending ≡ none) × (length r.calls ≡ 1)

-- A request that main prepares, executed, comes to its end.
prepare_finishes :
    (id : ℕ) (host uri : Bytes) (es : List Event)
    → host ≢ []
    → uri ≢ []
    → All ShutsDown es
    → 6 ≤ completions es
    → (a q : HttpRequest) × (execute (prepare id host uri) ≡ ok a)
      × (run es a ≡ ok q)
      × IsAnswered q
unfolding prepare create_request set_host set_port set_uri set_callback
prepare_finishes id host uri es h u s n =
    let r = prepare id host uri in
    let started = execute_lem r (omega arith) (omega arith) h u refl refl in
    let done = execute-run_finishes r _ es refl refl started s n in
    (_, done.0, started, done.1, (done.2, done.3))

run-append :
    (es fs : List Event) (r : HttpRequest) → run (es ++ fs) r ≡ (run es r >>= λ q. run fs q)
unfolding run
run-append [] fs r = refl
run-append (e ∷ es) fs r =
    ap (λ f. step e r >>= f) (fun_ext (run-append es fs))
    ∙ bind_assoc (step e r) (λ q. run es q) (λ q. run fs q)

-- A request that ends well, with a cancellation among its events, seen up to the cancellation and
-- behind it.
run_split :
    (es_before : List Event) (is_open : Bool) (ec : ErrorCode) (es_after : List Event)
    (r q : HttpRequest)
    → run (es_before ++ cancels is_open ec ∷ es_after) r ≡ ok q
    → (m : HttpRequest) × (run es_before r ≡ ok m) × (run es_after (cancel is_open ec m).0 ≡ ok q)
unfolding run step
run_split es_before is_open ec es_after r q h =
    bind_returned _ (run es_before r)
      (sym (run-append es_before (cancels is_open ec ∷ es_after) r) ∙ h)

-- What the caller of cancel() sees.
cancel_lem :
    (is_open : Bool) (ec : ErrorCode) (r : HttpRequest) (rest : Result HttpClient)
    → ((cancel is_open ec r).1 >> rest) ≡ (if is_open && is_error ec then throws ec else rest)
unfolding cancel
cancel_lem false ec r rest = refl
cancel_lem true ErrorCode.success r rest = refl
cancel_lem true ErrorCode.operation_aborted r rest = refl
cancel_lem true ErrorCode.eof r rest = refl
cancel_lem true ErrorCode.not_found r rest = refl
cancel_lem true ErrorCode.not_connected r rest = refl
cancel_lem true (ErrorCode.http_error n) r rest = refl
cancel_lem true (ErrorCode.system_error n) r rest = refl

exit_of_calls_lem :
    (b : Bool) (ec : ErrorCode) (client : HttpClient)
    → thread_ends client ≡ true
    → exit_of_calls (if b then throws ec else ok client) ≡ (if b then terminated else zero_status)
exit_of_calls_lem true ec client h = refl
exit_of_calls_lem false ec client h = rw h refl

-- If no shutdown of a socket fails, and each of the three requests is given six completions, then
-- whenever main cancels the second, the calls of main end in one of two ways. If the socket is open
-- and its cancel fails, then that is thrown, and main ends by std::terminate. Otherwise close()
-- returns, each callback has been called exactly once, and main ends with 0.
pub main_http_client_finishes :
    (es_one es_before : List Event) (is_open : Bool) (ec : ErrorCode) (es_after es_thr : List Event)
    → All ShutsDown es_one
    → All ShutsDown (es_before ++ cancels is_open ec ∷ es_after)
    → All ShutsDown es_thr
    → 6 ≤ completions es_one
    → 6 ≤ completions (es_before ++ cancels is_open ec ∷ es_after)
    → 6 ≤ completions es_thr
    → (client : HttpClient) × (main_calls es_one es_before is_open ec es_after es_thr
        ≡ (if is_open && is_error ec then throws ec else ok client))
      × (thread_ends client ≡ true)
      × All IsAnswered client.requests
      × (main_http_client es_one es_before is_open ec es_after es_thr
          ≡ (if is_open && is_error ec then terminated else zero_status))
unfolding main_http_client main_calls thread_ends close
main_http_client_finishes es_one es_before is_open ec es_after es_thr s1 s2 s3 n1 n2 n3 =
    let es_two = es_before ++ cancels is_open ec ∷ es_after in
    let one = prepare_finishes 1 (codes "localhost") (codes "/") es_one (λ e. cc) (λ e. cc) s1 n1 in
    let two =
      prepare_finishes 2 (codes "localhost") (codes "/example.html") es_two (λ e. cc) (λ e. cc) s2
        n2 in
    let thr =
      prepare_finishes 3 (codes "127.0.0.1") (codes "/index.html") es_thr (λ e. cc) (λ e. cc) s3
        n3 in
    let split = run_split es_before is_open ec es_after two.0 two.1 two.3 in
    let client : HttpClient = record {
      requests = one.1 ∷ two.1 ∷ thr.1 ∷ [];
      has_work = false;
      joinable = true;
    } in
    let calls : main_calls es_one es_before is_open ec es_after es_thr
        ≡ (if is_open && is_error ec then throws ec else ok client) =
      rw (one.2, two.2, split.1, thr.2, one.3, split.2, thr.3)
        (cancel_lem is_open ec split.0 (ok client)) in
    let ends : thread_ends client ≡ true = simp (one.4.0, two.4.0, thr.4.0) refl in
    (
      client,
      calls,
      ends,
      (one.4, (two.4, (thr.4, tt))),
      ap exit_of_calls calls ∙ exit_of_calls_lem (is_open && is_error ec) ec client ends,
    )
