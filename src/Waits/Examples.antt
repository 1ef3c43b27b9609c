-- ===== src/Waits/Examples.antt =====
-- The timers and the connection at concrete orders.
use boost_asio_cpp_network_p.Common.{◌≡◌, refl, List, [], ◌∷◌}
use boost_asio_cpp_network_p.Asio.{ErrorCode, success}
use boost_asio_cpp_network_p.Programs.{zero_status}
use boost_asio_cpp_network_p.Waits.{handled, end_with, cancel, has_been_cancelled, has_expired}
use boost_asio_cpp_network_p.Waits.Timers.{
  elapses, calls_first, calls_second, elapse, call_first, call_second, describe,
}
use boost_asio_cpp_network_p.Waits.Timers.{Event as TimerEvent}
use boost_asio_cpp_network_p.Waits.Timers.{start as start_timers}
use boost_asio_cpp_network_p.Waits.Timers.{step as step_timers}
use boost_asio_cpp_network_p.Waits.Timers.{run as run_timers}
use boost_asio_cpp_network_p.Waits.Ends.{calls, lines_of, IsTimed, run-IsTimed}
use boost_asio_cpp_network_p.Waits.Finishing.{run_finishes}
use boost_asio_cpp_network_p.Waits.Cancelling.{
  over, start, Event, connects, worker_runs, main_runs, work, main_step, step, run,
}
use boost_asio_cpp_network_p.Waits.Cancelling.{describe as describe_connection}
use boost_asio_cpp_network_p.Waits.Joined.{run_joined}
use boost_asio_cpp_network_p.Waits.Joining.{run_ends}

abbrev prompt : List TimerEvent
prompt = elapses 1 ∷ elapses 1 ∷ calls_first ∷ calls_second ∷ []

prompt_printed :
    (run_timers prompt start_timers).printed ≡ (1, has_expired) ∷ (2, has_been_cancelled) ∷ []
unfolding run_timers step_timers start_timers elapse call_first call_second end_with cancel describe
prompt_printed = refl

-- A thread that is late finds both timers expired.
abbrev late : List TimerEvent
late = elapses 7 ∷ calls_second ∷ calls_first ∷ []

late_printed : (run_timers late start_timers).printed ≡ (2, has_expired) ∷ (1, has_expired) ∷ []
unfolding run_timers step_timers start_timers elapse call_first call_second end_with cancel describe
late_printed = refl

run-IsTimed_example : IsTimed (run_timers prompt start_timers)
run-IsTimed_example = run-IsTimed prompt

run_finishes_example :
    (calls (run_timers (elapses 1 ∷ elapses 2 ∷ calls_first ∷ calls_second ∷ []) start_timers).t1
      ≡ 1)
    × (calls (run_timers (elapses 1 ∷ elapses 2 ∷ calls_first ∷ calls_second ∷ []) start_timers).t2
        ≡ 1)
    × (lines_of 1
          (run_timers
            (elapses 1 ∷ elapses 2 ∷ calls_first ∷ calls_second ∷ [])
            start_timers).printed
        ≡ 1)
    × (lines_of 2
          (run_timers
            (elapses 1 ∷ elapses 2 ∷ calls_first ∷ calls_second ∷ [])
            start_timers).printed
        ≡ 1)
run_finishes_example = run_finishes (elapses 1 ∷ [])

abbrev cancelled_first : List Event
cancelled_first =
    main_runs success ∷ worker_runs ∷ connects success ∷ worker_runs ∷ main_runs success ∷ []

cancelled_first_ends : (run cancelled_first start).main ≡ over zero_status
unfolding run step start work main_step cancel end_with
cancelled_first_ends = refl

run_joined_example :
    (ec : ErrorCode) × ((run cancelled_first start).connect ≡ handled ec)
    × ((run cancelled_first start).printed ≡ describe_connection ec)
run_joined_example = run_joined cancelled_first cancelled_first_ends

run_ends_example :
    (run
      (connects success ∷ main_runs success ∷ worker_runs ∷ worker_runs ∷ main_runs success ∷ [])
      start).main
    ≡ over zero_status
run_ends_example = run_ends (connects success ∷ []) (tt, tt)
