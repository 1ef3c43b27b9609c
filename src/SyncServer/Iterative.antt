-- ===== src/SyncServer/Iterative.antt =====
-- The classes Acceptor and Server of tcp_iterative_synchronous.cpp: one thread accepts a client,
-- serves it, and looks at m_stop.
use boost_asio_cpp_network_p.Common.{Bool, true, false, List, [], ◌∷◌, ◌++◌, if◌then◌else◌}
use boost_asio_cpp_network_p.Asio.{ErrorCode, Result, ok, throws, aborts, ◌>>=◌, is_error}
use boost_asio_cpp_network_p.Programs.{Exit, zero_status, terminated, blocked}
use boost_asio_cpp_network_p.SyncServer.{Client, Handled, handle_client}

-- Where the thread is: not started yet, in accept(), or returned from run().
pub data Thread : Type 0 where
  ready accepting finished : Thread

abbrev pub has_finished : Thread → Bool
has_finished Thread.finished = true
has_finished _ = false

pub record Server : Type 0 where
  pub is_stopped : Bool
  pub thread : Thread
  pub served : List Handled

-- What happens: the thread begins run() and its acceptor is opened, bound and told to listen; accept
-- returns; the main thread sets m_stop.
pub data Event : Type 0 where
  begins : ErrorCode → Event
  accepts : ErrorCode → Client → Event
  stops : Event

unfoldable pub start : Server
start = record { is_stopped = false; thread = Thread.ready; served = [] }

-- The test of the loop.
unfoldable pub turn : Server → Server
turn s = record s { thread = if s.is_stopped then Thread.finished else Thread.accepting }

-- What leaves run() as an exception has no handler in the thread and ends the program.
unfoldable pub begin_run : ErrorCode → Server → Result Server
begin_run ec s = if is_error ec then aborts else ok (turn s)

unfoldable pub accept : ErrorCode → Client → Server → Result Server
accept ec c s =
    if is_error ec
    then aborts
    else ok (turn (record s { served = s.served ++ (handle_client c ∷ []) }))

unfoldable pub stop : Server → Server
stop s = record s { is_stopped = true }

-- An event finds the thread at the place that its first argument names.
unfoldable pub step_at : Thread → Event → Server → Result Server
step_at thread stops s = ok (stop s)
step_at Thread.ready (begins ec) s = begin_run ec s
step_at Thread.accepting (accepts ec c) s = accept ec c s
step_at _ _ s = ok s

unfoldable pub step : Event → Server → Result Server
step e s = step_at s.thread e s

unfoldable pub run : List Event → Server → Result Server
run [] s = ok s
run (e ∷ es) s = step e s >>= λ t. run es t

-- How main ends, given what the server has come to when stop() has joined the thread.
abbrev pub exit_of_server : Result Server → Exit
exit_of_server (ok s) = if has_finished s.thread then zero_status else blocked
exit_of_server (throws ec) = terminated
exit_of_server aborts = terminated

-- The user presses enter behind the first events.
unfoldable pub main_server : List Event → List Event → Exit
main_server before after = exit_of_server (run (before ++ stops ∷ after) start)
