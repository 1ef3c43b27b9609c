-- ===== src/Waits/Timers.antt =====
-- steady_timers.cpp: the first timer's handler cancels the second timer.
use boost_asio_cpp_network_p.Common.{ℕ, ◌+◌, leb, Bool, List, [], ◌∷◌, ◌++◌, if◌then◌else◌}
use boost_asio_cpp_network_p.Asio.{ErrorCode, success}
use boost_asio_cpp_network_p.Waits.{
  Wait, pending, ended, handled, end_with, cancel, Printed, has_expired, has_been_cancelled,
  error_occured,
}

-- The time in seconds, the two timers, and what was printed, with the number of the timer.
pub record Timers : Type 0 where
  pub now : ℕ
  pub t1 : Wait
  pub t2 : Wait
  pub printed : List (ℕ × Printed)

-- The three branches of both handlers.
unfoldable pub describe : ErrorCode → Printed
describe ErrorCode.success = has_expired
describe ErrorCode.operation_aborted = has_been_cancelled
describe ec = error_occured ec

unfoldable pub start : Timers
start = record { now = 0; t1 = pending; t2 = pending; printed = [] }

abbrev pub expire : Bool → Wait → Wait
expire over w = if over then end_with success w else w

-- The timers expire 2 and 5 seconds after the start.
unfoldable pub elapse : ℕ → Timers → Timers
elapse n t =
    let now = t.now + n in
    record t { now = now; t1 = expire (leb 2 now) t.t1; t2 = expire (leb 5 now) t.t2 }

-- A handler is called with the code that its wait ended with.
unfoldable pub call_first : Wait → Timers → Timers
call_first (ended ec) t = record t {
  t1 = handled ec;
  t2 = cancel t.t2;
  printed = t.printed ++ ((1, describe ec) ∷ []);
}
call_first _ t = t

unfoldable pub call_second : Wait → Timers → Timers
call_second (ended ec) t = record t {
  t2 = handled ec;
  printed = t.printed ++ ((2, describe ec) ∷ []);
}
call_second _ t = t

-- Time goes by, or the thread in run() calls a handler that is due; a late thread may find both.
pub data Event : Type 0 where
  elapses : ℕ → Event
  calls_first calls_second : Event

unfoldable pub step : Event → Timers → Timers
step (elapses n) t = elapse n t
step calls_first t = call_first t.t1 t
step calls_second t = call_second t.t2 t

unfoldable pub run : List Event → Timers → Timers
run [] t = t
run (e ∷ es) t = run es (step e t)
