-- ===== src/SyncServer/Examples.antt =====
-- The blocking servers at concrete clients.
use boost_asio_cpp_network_p.Programs.{zero_status, terminated, blocked}
use boost_asio_cpp_network_p.SyncServer.Iterative.{main_server}
use boost_asio_cpp_network_p.SyncServer.Mains.{main_server_ends}
use boost_asio_cpp_network_p.SyncServer.Parallel.{begins as begins_parallel}
use boost_asio_cpp_network_p.SyncServer.Parallel.{main_server as main_parallel}
use boost_asio_cpp_network_p.SyncServer.Leaving.{main_server_leaves}
use boost_asio_cpp_network_p.Common.{
  ◌≡◌, ◌+◌, refl, ℕ, none, some, true, List, [], ◌∷◌, ◌++◌, length, codes,
}
use boost_asio_cpp_network_p.Asio.{success, eof, ok}
use boost_asio_cpp_network_p.SyncServer.{Client, Handled, handle_client}
use boost_asio_cpp_network_p.SyncServer.Iterative.{
  Thread, Server, Event, begins, accepts, stops, start, run, step, step_at, stop, accept, turn,
}
use boost_asio_cpp_network_p.SyncServer.Stopping.{
  all_accepted, handle_all, serving, server_at, run_serves, run_stops,
}
use boost_asio_cpp_network_p.SyncServer.Parallel.{
  Event as ParallelEvent, Server as ParallelServer, accepts as arrives, handles,
  run as run_parallel,
}
use boost_asio_cpp_network_p.SyncServer.Threads.{serving as working, total, run_conserves}

abbrev client : Client
client = record {
  read_ec = success;
  received = codes "EMULATE_LONG_COMP_OP 2\n";
  write_ec = success;
}

abbrev lost : Client
lost = record client { read_ec = eof }

run_serves_example :
    run (begins success ∷ all_accepted (client ∷ lost ∷ [])) start
    ≡ ok (serving (handle_all (client ∷ lost ∷ [])))
run_serves_example = run_serves (client ∷ lost ∷ [])

abbrev ended : Server
ended = server_at true Thread.finished (handle_client client ∷ [])

abbrev events : List Event
events = stops ∷ begins eof ∷ accepts success client ∷ accepts success lost ∷ []

run_returns : run events (serving []) ≡ ok ended
unfolding run step step_at stop accept turn
run_returns = refl

run_stops_example :
    (t : Server) × (run
        ((stops ∷ []) ++ (accepts success client ∷ events))
        (server_at true Thread.accepting [])
      ≡ ok t)
    × (t.thread ≡ Thread.finished)
    × (t.served ≡ handle_client client ∷ [])
run_stops_example = run_stops (stops ∷ []) events client [] (refl, tt)

abbrev sends : Handled → ℕ
sends h = elim h.sent [ none ↦ 0 | some s ↦ length s ]

abbrev work : List ParallelEvent
work = arrives success client ∷ handles 0 ∷ arrives success lost ∷ []

run_conserves_example :
    (t : ParallelServer) × (run_parallel work (working [] []) ≡ ok t)
    × (total sends t.handled + total sends (handle_all t.detached)
        ≡ 0 + 0 + total sends (handle_all (client ∷ lost ∷ [])))
run_conserves_example = run_conserves sends work [] [] (refl, (tt, (refl, tt)))

main_server_ends_example :
    (main_server (begins success ∷ all_accepted (lost ∷ [])) (stops ∷ []) ≡ blocked)
    × (main_server
          (begins success ∷ all_accepted (lost ∷ []))
          ((stops ∷ []) ++ (accepts success client ∷ []))
        ≡ zero_status)
    × (main_server (begins eof ∷ stops ∷ []) [] ≡ terminated)
main_server_ends_example = main_server_ends (lost ∷ []) (stops ∷ []) [] client eof (refl, tt) refl

main_server_leaves_example :
    (t : ParallelServer) × (main_parallel
        (begins_parallel success ∷ work)
        (arrives success client ∷ [])
      ≡ (zero_status, ok t))
    × (others : List Client) × (t.detached ≡ others ++ (client ∷ []))
    × (total sends t.handled + total sends (handle_all others)
        ≡ total sends (handle_all (client ∷ lost ∷ [])))
main_server_leaves_example = main_server_leaves sends work client (refl, (tt, (refl, tt)))
