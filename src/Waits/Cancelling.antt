-- ===== src/Waits/Cancelling.antt =====
-- cancel_async_io.cpp: a worker thread waits for a connection that the main thread cancels.
use boost_asio_cpp_network_p.Common.{Bool, true, false, List, [], ◌∷◌, ◌++◌, if◌then◌else◌}
use boost_asio_cpp_network_p.Asio.{ErrorCode, is_error, is_aborted}
use boost_asio_cpp_network_p.Programs.{Exit, zero_status, terminated}
use boost_asio_cpp_network_p.Waits.{
  Wait, pending, ended, handled, end_with, cancel, Printed, has_been_cancelled, error_occured,
}

-- Where main is: in front of cancel(), in join(), or at its end with the exit that it came to.
pub data Main : Type 0 where
  cancelling joining : Main
  over : Exit → Main

pub record Connecting : Type 0 where
  pub connect : Wait
  pub worker_ended : Bool
  pub main : Main
  pub printed : List Printed

unfoldable pub start : Connecting
start = record { connect = pending; worker_ended = false; main = cancelling; printed = [] }

-- The handler prints nothing of a connection.
unfoldable pub describe : ErrorCode → List Printed
describe ec =
    if is_error ec
    then (if is_aborted ec then has_been_cancelled ∷ [] else error_occured ec ∷ [])
    else []

-- The connection ends by itself; the worker calls the handler, or leaves run() when there is nothing
-- to wait for; main goes on, and its cancel() ends with a code.
pub data Event : Type 0 where
  connects : ErrorCode → Event
  worker_runs : Event
  main_runs : ErrorCode → Event

unfoldable pub work : Wait → Connecting → Connecting
work Wait.pending s = s
work (ended ec) s = record s { connect = handled ec; printed = s.printed ++ describe ec }
work (handled ec) s = record s { worker_ended = true }

-- If cancel() throws, the thread is destroyed while it can be joined, and the program terminates.
unfoldable pub main_step : Main → ErrorCode → Connecting → Connecting
main_step cancelling ec s =
    if is_error ec
    then record s { main = over terminated }
    else record s { main = joining; connect = cancel s.connect }
main_step joining ec s = if s.worker_ended then record s { main = over zero_status } else s
main_step (over exit) ec s = s

unfoldable pub step : Event → Connecting → Connecting
step (connects ec) s = record s { connect = end_with ec s.connect }
step worker_runs s = work s.connect s
step (main_runs ec) s = main_step s.main ec s

unfoldable pub run : List Event → Connecting → Connecting
run [] s = s
run (e ∷ es) s = run es (step e s)
