-- ===== src/SyncServer/Leaving.antt =====
-- The clients whose threads are still running when tcp_parallel_synchronous.cpp ends.
use boost_asio_cpp_network_p.Common.{
  ℕ, ◌+◌, ◌≡◌, refl, ap, ◌∙◌, List, [], ◌∷◌, ◌++◌, All, fun_ext, true, arith,
}
use boost_asio_cpp_network_p.Asio.{success, ok, ◌>>=◌, bind_assoc}
use boost_asio_cpp_network_p.Programs.{zero_status}
use boost_asio_cpp_network_p.SyncServer.{Client, Handled}
use boost_asio_cpp_network_p.SyncServer.Stopping.{handle_all}
use boost_asio_cpp_network_p.SyncServer.Parallel.{
  Thread, Server, Event, begins, accepts, stops, start, start_handling_client, turn, begin_run,
  accept, stop, step_at, step, run, exit_of_server, main_server,
}
use boost_asio_cpp_network_p.SyncServer.Threads.{serving, clients, IsWork, total, run_work}

run-append : (es fs : List Event) (s : Server) → run (es ++ fs) s ≡ (run es s >>= λ t. run fs t)
unfolding run
run-append [] fs s = refl
run-append (e ∷ es) fs s =
    ap (λ f. step e s >>= f) (fun_ext (run-append es fs))
    ∙ bind_assoc (step e s) (λ t. run es t) (λ t. run fs t)

-- The accepting thread has finished behind the client `c`.
abbrev left : List Client → List Handled → Client → Server
left ds ks c = record {
  is_stopped = true;
  thread = Thread.finished;
  detached = ds ++ (c ∷ []);
  handled = ks;
}

run_leaves :
    (es : List Event) (c : Client) (ds : List Client) (ks : List Handled)
    → run es (serving [] []) ≡ ok (serving ds ks)
    → run ((begins success ∷ es) ++ stops ∷ accepts success c ∷ []) start ≡ ok (left ds ks c)
unfolding run step step_at begin_run accept start_handling_client turn start stop
run_leaves es c ds ks h =
    run-append es (stops ∷ accepts success c ∷ []) (serving [] [])
    ∙ ap (λ m. m >>= λ t. run (stops ∷ accepts success c ∷ []) t) h

-- main does not wait for the detached threads. Let clients be accepted and detached threads run, in
-- any order, until enter is pressed and one more client is accepted: then main ends with 0, although
-- that client has not been handled, and others may not have been. By any count `f`, those that have
-- been handled and those others are all that came before.
pub main_server_leaves :
    (f : Handled → ℕ) (es : List Event) (c : Client)
    → All IsWork es
    → (t : Server) × (main_server (begins success ∷ es) (accepts success c ∷ [])
        ≡ (zero_status, ok t))
      × (others : List Client) × (t.detached ≡ others ++ (c ∷ []))
      × (total f t.handled + total f (handle_all others) ≡ total f (handle_all (clients es)))
unfolding main_server
main_server_leaves f es c h =
    let worked = run_work f es [] [] h in
    (
      left worked.0 worked.1 c,
      ap (λ m. (exit_of_server m, m)) (run_leaves es c worked.0 worked.1 worked.2),
      worked.0,
      refl,
      omega (arith, worked.3),
    )
