-- ===== src/AsyncTcpClient/Closing/Main.antt =====
-- How main of tcp_asynchronous.cpp ends.
use boost_asio_cpp_network_p.Common.{
  ℕ, ◌≡◌, ◌≢◌, refl, sym, ap, ◌∙◌, subst, Bool, true, false, List, [], ◌∷◌, ◌++◌, length,
  if◌then◌else◌, ◌&&◌, some, none, Option,
}
use boost_asio_cpp_network_p.Asio.{ErrorCode, success, ok, check, is_error, ◌>>=◌, ◌>>◌}
use boost_asio_cpp_network_p.Cxx.Signed.{ℤ, pos}
use boost_asio_cpp_network_p.LongOp.{prepare_request}
use boost_asio_cpp_network_p.Programs.{Exit, zero_status, terminated, blocked}
use boost_asio_cpp_network_p.AsyncTcpClient.{
  async_connect, Session, session_at, cancel_session, cancel_found, unless_thrown, start,
  new_session, insert, Client, new_client, Event, emulates, cancels, cancel, cancel_request, find,
  emulate_long_computation_op, complete_at, run, step,
}
use boost_asio_cpp_network_p.AsyncTcpClient.Closing.{
  close, thread_ends, Completions, Schedule, drain, as_events, Program, new_program, exit_of_close,
  exit_of_client, main_async_client,
}

-- How main ends when the events that are left take the client on.
abbrev ending : List Event → Client → Exit
ending es client = exit_of_client (run es client)

ending-append :
    (cs : Completions) (es : List Event) (client : Client)
    → ending (as_events cs ++ es) client ≡ ending es (drain cs client)
unfolding run step drain
ending-append [] es client = refl
ending-append (c ∷ cs) es client = ending-append cs es (complete_at c.0 c.1 client)

ending_checked :
    (ec : ErrorCode) (es : List Event) (next : Client)
    → exit_of_client (check ec >> ok next >>= λ t. run es t)
      ≡ (if is_error ec then terminated else ending es next)
ending_checked ErrorCode.success es next = refl
ending_checked ErrorCode.operation_aborted es next = refl
ending_checked ErrorCode.eof es next = refl
ending_checked ErrorCode.not_found es next = refl
ending_checked ErrorCode.not_connected es next = refl
ending_checked (ErrorCode.http_error n) es next = refl
ending_checked (ErrorCode.system_error n) es next = refl

abbrev opened : ℤ → ℕ → Client → Client
opened z id client = record {
  sessions = client.sessions ++ (start async_connect (new_session (prepare_request z) id) ∷ []);
  active = insert id (length client.sessions) client.active;
}

-- A session that cannot be opened ends the program.
ending-emulates :
    (ec : ErrorCode) (z : ℤ) (id : ℕ) (es : List Event) (client : Client)
    → ending (emulates ec z id ∷ es) client
      ≡ (if is_error ec then terminated else ending es (opened z id client))
unfolding run step emulate_long_computation_op
ending-emulates ec z id es client = ending_checked ec es (opened z id client)

abbrev is_found : Option Session → Bool
is_found none = false
is_found (some s) = true

abbrev found_session : Option ℕ → Client → Option Session
found_session none client = none
found_session (some handle) client = session_at handle client.sessions

-- A number under which the map has a session.
abbrev pub is_active : ℕ → Client → Bool
is_active id client = is_found (found_session (find id client.active) client)

ending_session :
    (ec : ErrorCode) (handle : ℕ) (o : Option Session) (es : List Event) (client : Client)
    → exit_of_client (unless_thrown (cancel_session ec handle o client) >>= λ t. run es t) ≡ (
        if is_found o && is_error ec
        then terminated
        else ending es (cancel_session success handle o client).0)
unfolding cancel
ending_session ec handle none es client = refl
ending_session ec handle (some s) es client = ending_checked ec es _

ending_found :
    (ec : ErrorCode) (o : Option ℕ) (es : List Event) (client : Client)
    → exit_of_client (unless_thrown (cancel_found ec o client) >>= λ t. run es t) ≡ (
        if is_found (found_session o client) && is_error ec
        then terminated
        else ending es (cancel_found success o client).0)
ending_found ec none es client = refl
ending_found ec (some handle) es client =
    ending_session ec handle (session_at handle client.sessions) es client

-- A cancel that finds its session and fails ends the program.
ending-cancels :
    (id : ℕ) (ec : ErrorCode) (es : List Event) (client : Client)
    → ending (cancels id ec ∷ es) client ≡ (
        if is_active id client && is_error ec
        then terminated
        else ending es (cancel_request id success client).0)
unfolding run step cancel_request
ending-cancels id ec es client = ending_found ec (find id client.active) es client

-- The ways out of main on an error, in their order.
abbrev unless_error : Bool → ErrorCode → ErrorCode → ErrorCode → ErrorCode → Exit → Exit
unless_error active first second cancel_ec third rest =
    if is_error first
    then terminated
    else (if is_error second
        then terminated
        else (if active && is_error cancel_ec
            then terminated
            else (if is_error third then terminated else rest)))

-- The client when main calls cancelRequest(1), and behind that call.
abbrev pub at_cancel : Schedule → Client
at_cancel s =
    drain s.after_second (opened (pos 11) 2 (drain s.after_first (opened (pos 10) 1 new_client)))

abbrev behind_cancel : Schedule → Client
behind_cancel s = drain s.after_cancel (cancel_request 1 success (at_cancel s)).0

-- What main does when the three sessions are open.
abbrev rest_of_main : Schedule → Exit
rest_of_main s = ending (as_events s.after_third) (opened (pos 12) 3 (behind_cancel s))

main_async_client_lem :
    (first second cancel_ec third : ErrorCode) (s : Schedule)
    → main_async_client first second cancel_ec third s
      ≡ unless_error (is_active 1 (at_cancel s)) first second cancel_ec third (rest_of_main s)
unfolding main_async_client
main_async_client_lem first second cancel_ec third s =
    let c = opened (pos 10) 1 new_client in
    let d = opened (pos 11) 2 (drain s.after_first c) in
    ending-emulates first (pos 10) 1 _ new_client
    ∙ ap (λ e. if is_error first then terminated else e)
        (ending-append s.after_first _ c
          ∙ ending-emulates second (pos 11) 2 _ (drain s.after_first c)
          ∙ ap (λ e. if is_error second then terminated else e)
              (ending-append s.after_second _ d
                ∙ ending-cancels 1 cancel_ec _ (at_cancel s)
                ∙ ap
                    (λ e. if is_active 1 (at_cancel s) && is_error cancel_ec then terminated else e)
                    (ending-append s.after_cancel _ (cancel_request 1 success (at_cancel s)).0
                      ∙ ending-emulates third (pos 12) 3 _ (behind_cancel s))))

never_both : (b : Bool) (rest : Exit) → (if b && false then terminated else rest) ≡ rest
never_both false rest = refl
never_both true rest = refl

exit_of_close-terminated : (p : Program) → exit_of_close p ≢ terminated
exit_of_close-terminated p = ended (thread_ends p)
  where
    ended : (b : Bool) → (if b then zero_status else blocked) ≢ terminated
    ended true h = cc
    ended false h = cc

rest_of_main-terminated : (s : Schedule) → rest_of_main s ≢ terminated
unfolding run step
rest_of_main-terminated s = ended s.after_third (opened (pos 12) 3 (behind_cancel s))
  where
    ended : (cs : Completions) (client : Client) → ending (as_events cs) client ≢ terminated
    ended [] client = exit_of_close-terminated (close (new_program client))
    ended (c ∷ cs) client = ended cs (complete_at c.0 c.1 client)

-- Whatever completes and when: main is ended by std::terminate, and never with the value of the
-- error, if one of its three sessions cannot be opened, or if the first is still active when it is
-- cancelled and the cancel of its socket fails; otherwise it goes on as if there were no error codes,
-- and is not ended so.
pub main_async_client_ends :
    (first second cancel_ec third : ErrorCode) (s : Schedule)
    → (main_async_client first second cancel_ec third s ≡ (
        if is_error first
        then terminated
        else (if is_error second
            then terminated
            else (if is_active 1 (at_cancel s) && is_error cancel_ec
                then terminated
                else (if is_error third
                    then terminated
                    else main_async_client success success success success s)))))
      × (main_async_client success success success success s ≢ terminated)
main_async_client_ends first second cancel_ec third s =
    let active = is_active 1 (at_cancel s) in
    let without =
      main_async_client_lem success success success success s
      ∙ never_both (is_active 1 (at_cancel s)) (rest_of_main s) in
    (
      main_async_client_lem first second cancel_ec third s
          ∙ ap (unless_error active first second cancel_ec third) (sym without),
      subst (λ e. e ≢ terminated) (sym without) (rest_of_main-terminated s),
    )
