-- ===== src/Waits/Finishing.antt =====
-- Both timers' handlers are called, two seconds after any time.
use boost_asio_cpp_network_p.Common.{◌≤◌, ◌≡◌, refl, ap, ◌∙◌, List, [], ◌∷◌, ◌++◌, arith}
use boost_asio_cpp_network_p.Waits.{Wait, ended, handled}
use boost_asio_cpp_network_p.Waits.Timers.{
  Timers, start, elapse, call_first, call_second, Event, elapses, calls_first, calls_second, step,
  run,
}
use boost_asio_cpp_network_p.Waits.Ends.{
  calls, lines_of, IsFirst, IsSecond, IsTimed, step-IsTimed, run-IsTimed,
}

run-append : (es fs : List Event) (t : Timers) → run (es ++ fs) t ≡ run fs (run es t)
unfolding run
run-append [] fs t = refl
run-append (e ∷ es) fs t = run-append es fs (step e t)

-- A timer that is due is called.
call_first_due :
    (w : Wait) (t : Timers) → t.t1 ≡ w → IsFirst t.now w → 2 ≤ t.now → calls (call_first w t).t1 ≡ 1
unfolding call_first
call_first_due Wait.pending t e h n = absurd (omega arith)
call_first_due (ended ec) t e h n = refl
call_first_due (handled ec) t e h n = ap calls e

call_second_due :
    (w : Wait) (t : Timers)
    → t.t2 ≡ w
    → IsSecond t.now t.t1 w
    → calls t.t1 ≡ 1
    → (calls (call_second w t).t1 ≡ 1) × (calls (call_second w t).t2 ≡ 1)
unfolding call_second
call_second_due Wait.pending t e h n = absurd (omega arith)
call_second_due (ended ec) t e h n = (n, refl)
call_second_due (handled ec) t e h n = (n, ap calls e)

elapse_due : (t : Timers) → 2 ≤ (elapse 2 t).now
unfolding elapse
elapse_due t = omega arith

run_last :
    (t : Timers)
    → run (elapses 2 ∷ calls_first ∷ calls_second ∷ []) t
      ≡ step calls_second (step calls_first (step (elapses 2) t))
unfolding run
run_last t = refl

both_called :
    (t : Timers)
    → IsTimed t
    → 2 ≤ t.now
    → (calls (step calls_second (step calls_first t)).t1 ≡ 1)
      × (calls (step calls_second (step calls_first t)).t2 ≡ 1)
unfolding step
both_called t h n =
    let u = call_first t.t1 t in
    let i = step-IsTimed calls_first t h in
    call_second_due u.t2 u refl i.second (call_first_due t.t1 t refl h.first n)

-- Whatever has happened, when two more seconds are over and the thread calls the handlers that are
-- due, the first and then the second, each has been called once and has printed one line: the
-- program does not wait for the second timer's five seconds.
pub run_finishes :
    (es : List Event)
    → let t = run (es ++ elapses 2 ∷ calls_first ∷ calls_second ∷ []) start in
      (calls t.t1 ≡ 1) × (calls t.t2 ≡ 1) × (lines_of 1 t.printed ≡ 1) × (lines_of 2 t.printed ≡ 1)
unfolding step
run_finishes es =
    let all = es ++ elapses 2 ∷ calls_first ∷ calls_second ∷ [] in
    let same =
      run-append es (elapses 2 ∷ calls_first ∷ calls_second ∷ []) start ∙ run_last (run es start) in
    let timed = step-IsTimed (elapses 2) (run es start) (run-IsTimed es) in
    let done = both_called (step (elapses 2) (run es start)) timed (elapse_due (run es start)) in
    let whole = run-IsTimed all in
    let first = ap (λ t. calls t.t1) same ∙ done.0 in
    let second = ap (λ t. calls t.t2) same ∙ done.1 in
    (first, second, whole.first_lines ∙ first, whole.second_lines ∙ second)
