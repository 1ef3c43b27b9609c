-- ===== src/SyncServer/Parallel.antt =====
-- The classes Service, Acceptor and Server of tcp_parallel_synchronous.cpp: the accepting thread
-- gives each client a detached thread of its own.
use boost_asio_cpp_network_p.Common.{
  ℕ, zero, suc, Bool, true, false, Option, none, some, List, [], ◌∷◌, ◌++◌, if◌then◌else◌,
}
use boost_asio_cpp_network_p.Asio.{ErrorCode, Result, ok, throws, aborts, ◌>>=◌, is_error}
use boost_asio_cpp_network_p.Programs.{Exit, zero_status, terminated, blocked}
use boost_asio_cpp_network_p.SyncServer.{Client, Handled, handle_client}

pub data Thread : Type 0 where
  ready accepting finished : Thread

abbrev pub has_finished : Thread → Bool
has_finished Thread.finished = true
has_finished _ = false

-- `detached` holds the clients whose threads have not run to their end; `handled` what the others did.
pub record Server : Type 0 where
  pub is_stopped : Bool
  pub thread : Thread
  pub detached : List Client
  pub handled : List Handled

-- What happens: as in the iterative server, and a detached thread, given by its place, runs.
pub data Event : Type 0 where
  begins : ErrorCode → Event
  accepts : ErrorCode → Client → Event
  handles : ℕ → Event
  stops : Event

unfoldable pub start : Server
start = record { is_stopped = false; thread = Thread.ready; detached = []; handled = [] }

-- Service::startHandlingClient.
unfoldable pub start_handling_client : Client → Server → Server
start_handling_client c s = record s { detached = s.detached ++ (c ∷ []) }

-- The test of the loop.
unfoldable pub turn : Server → Server
turn s = record s { thread = if s.is_stopped then Thread.finished else Thread.accepting }

-- What leaves run() as an exception has no handler in the thread and ends the program.
unfoldable pub begin_run : ErrorCode → Server → Result Server
begin_run ec s = if is_error ec then aborts else ok (turn s)

unfoldable pub accept : ErrorCode → Client → Server → Result Server
accept ec c s = if is_error ec then aborts else ok (turn (start_handling_client c s))

unfoldable pub stop : Server → Server
stop s = record s { is_stopped = true }

abbrev pub put_back : Client → Option (Client × List Client) → Option (Client × List Client)
put_back c none = none
put_back c (some p) = some (p.0, c ∷ p.1)

-- The client at a place of the list, and the others.
abbrev pub pick : ℕ → List Client → Option (Client × List Client)
pick n [] = none
pick zero (c ∷ cs) = some (c, cs)
pick (suc n) (c ∷ cs) = put_back c (pick n cs)

abbrev pub finish : Option (Client × List Client) → Server → Server
finish none s = s
finish (some p) s = record s { detached = p.1; handled = s.handled ++ (handle_client p.0 ∷ []) }

-- An event finds the accepting thread at the place that its first argument names.
unfoldable pub step_at : Thread → Event → Server → Result Server
step_at thread stops s = ok (stop s)
step_at thread (handles n) s = ok (finish (pick n s.detached) s)
step_at Thread.ready (begins ec) s = begin_run ec s
step_at Thread.accepting (accepts ec c) s = accept ec c s
step_at _ _ s = ok s

unfoldable pub step : Event → Server → Result Server
step e s = step_at s.thread e s

unfoldable pub run : List Event → Server → Result Server
run [] s = ok s
run (e ∷ es) s = step e s >>= λ t. run es t

-- stop() waits for the accepting thread and joins it; the end of main ends the process, and with it
-- the detached threads, for which nothing waits.
abbrev pub exit_of_server : Result Server → Exit
exit_of_server (ok s) = if has_finished s.thread then zero_status else blocked
exit_of_server (throws ec) = terminated
exit_of_server aborts = terminated

-- main, in which the user presses enter behind the first events: how it ends, and the server when
-- it ends.
unfoldable pub main_server : List Event → List Event → Exit × Result Server
main_server before after =
    let done = run (before ++ stops ∷ after) start in (exit_of_server done, done)
