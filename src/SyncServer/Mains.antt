-- ===== src/SyncServer/Mains.antt =====
-- How main of tcp_iterative_synchronous.cpp ends.
use boost_asio_cpp_network_p.Common.{
  ◌≡◌, refl, ap, ◌∙◌, true, List, [], ◌∷◌, ◌++◌, All, fun_ext, if◌then◌else◌,
}
use boost_asio_cpp_network_p.Asio.{ErrorCode, success, aborts, ◌>>=◌, is_error, bind_assoc}
use boost_asio_cpp_network_p.Programs.{Exit, zero_status, terminated, blocked}
use boost_asio_cpp_network_p.SyncServer.{Client}
use boost_asio_cpp_network_p.SyncServer.Iterative.{
  Thread, has_finished, Server, Event, begins, accepts, stops, start, begin_run, stop, step_at,
  step, run, exit_of_server, main_server,
}
use boost_asio_cpp_network_p.SyncServer.Stopping.{
  all_accepted, handle_all, server_at, run_serves, no_accept, run_waits, run_stops,
}

run-append : (es fs : List Event) (s : Server) → run (es ++ fs) s ≡ (run es s >>= λ t. run fs t)
unfolding run
run-append [] fs s = refl
run-append (e ∷ es) fs s =
    ap (λ f. step e s >>= f) (fun_ext (run-append es fs))
    ∙ bind_assoc (step e s) (λ t. run es t) (λ t. run fs t)

-- The server that has served and is stopped in accept().
stopped :
    (cs : List Client) (es : List Event)
    → run ((begins success ∷ all_accepted cs) ++ stops ∷ es) start
      ≡ run es (server_at true Thread.accepting (handle_all cs))
unfolding run step stop step_at
stopped cs es =
    run-append (begins success ∷ all_accepted cs) (stops ∷ es) start
    ∙ ap (λ m. m >>= λ t. run (stops ∷ es) t) (run_serves cs)

abbrev exit_at : Thread → Exit
exit_at thread = if has_finished thread then zero_status else blocked

begin_fails :
    (ec : ErrorCode) (es : List Event) → is_error ec ≡ true → run (begins ec ∷ es) start ≡ aborts
unfolding run step step_at begin_run start
begin_fails ec es e = rw e refl

-- When enter is pressed on a server that serves: main is blocked in stop() as long as no client
-- comes, and ends with 0 once one more client is accepted. A server that cannot be opened, bound or
-- told to listen ends the program by std::terminate.
pub main_server_ends :
    (cs : List Client) (before after : List Event) (c : Client) (ec : ErrorCode)
    → All (λ e. no_accept e ≡ true) before
    → is_error ec ≡ true
    → (main_server (begins success ∷ all_accepted cs) before ≡ blocked)
      × (main_server (begins success ∷ all_accepted cs) (before ++ (accepts success c ∷ after))
          ≡ zero_status)
      × (main_server (begins ec ∷ before) after ≡ terminated)
unfolding main_server
main_server_ends cs before after c ec h e =
    let waits = run_waits before true (handle_all cs) h in
    let ends = run_stops before after c (handle_all cs) h in
    (
      ap exit_of_server (stopped cs before ∙ waits.1) ∙ ap exit_at waits.2,
      ap exit_of_server (stopped cs (before ++ (accepts success c ∷ after)) ∙ ends.1)
          ∙ ap exit_at ends.2,
      ap exit_of_server (begin_fails ec (before ++ stops ∷ after) e),
    )
