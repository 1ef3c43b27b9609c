-- ===== src/Waits/Joining.antt =====
-- Both threads of cancel_async_io.cpp come to their ends.
use boost_asio_cpp_network_p.Common.{
  ◌≡◌, ◌≢◌, refl, sym, ap, ◌∙◌, subst, inl, inr, Bool, true, false, List, [], ◌∷◌, ◌++◌, All,
  if◌then◌else◌,
}
use boost_asio_cpp_network_p.Asio.{success, operation_aborted}
use boost_asio_cpp_network_p.Programs.{Exit, zero_status, terminated}
use boost_asio_cpp_network_p.Waits.{Wait, pending, ended, handled, cancel}
use boost_asio_cpp_network_p.Waits.Cancelling.{
  Main, cancelling, joining, over, Connecting, start, Event, connects, worker_runs, main_runs, work,
  main_step, step, run,
}
use boost_asio_cpp_network_p.Waits.Joined.{
  IsOrdered, IsAt, start-IsOrdered, from-IsOrdered, end_with-pending,
}

-- cancel() does not throw.
abbrev pub Succeeds : Event → Type 0
Succeeds (main_runs ec) = ec ≡ success
Succeeds _ = Unit

work-main : (w : Wait) (s : Connecting) → (work w s).main ≡ s.main
unfolding work
work-main Wait.pending s = refl
work-main (ended ec) s = refl
work-main (handled ec) s = refl

main_step_going :
    (m : Main) (s : Connecting)
    → s.main ≡ m
    → m ≢ over terminated
    → (main_step m success s).main ≢ over terminated
unfolding main_step
main_step_going cancelling s e h = λ k. cc
main_step_going joining s e h = join_going s.worker_ended s e
  where
    join_going :
        (b : Bool) (t : Connecting)
        → t.main ≡ joining
        → (if b then record t { main = over zero_status } else t).main ≢ over terminated
    join_going false t j = λ k. cc
    join_going true t j = λ k. cc
main_step_going (over exit) s e h = subst (λ m. m ≢ over terminated) (sym e) h

step_going :
    (e : Event) (s : Connecting)
    → Succeeds e
    → s.main ≢ over terminated
    → (step e s).main ≢ over terminated
unfolding step
step_going (connects ec) s k h = h
step_going worker_runs s k h = subst (λ m. m ≢ over terminated) (sym (work-main s.connect s)) h
step_going (main_runs ec) s k h =
    subst (λ c. (main_step s.main c s).main ≢ over terminated) (sym k)
      (main_step_going s.main s refl h)

run_going :
    (es : List Event) (s : Connecting)
    → All Succeeds es
    → s.main ≢ over terminated
    → (run es s).main ≢ over terminated
unfolding run
run_going [] s k h = h
run_going (e ∷ es) s k h = run_going es (step e s) k.1 (step_going e s k.0 h)

-- Two turns of the worker.
work_twice :
    (w : Wait) (s : Connecting)
    → s.connect ≡ w
    → w ≢ pending
    → (step worker_runs (step worker_runs s)).worker_ended ≡ true
unfolding step work
work_twice Wait.pending s e n = absurd (n refl)
work_twice (ended ec) s e n =
    subst (λ v. (work (work v s).connect (work v s)).worker_ended ≡ true) (sym e) refl
work_twice (handled ec) s e n =
    subst (λ v. (work (work v s).connect (work v s)).worker_ended ≡ true) (sym e)
      (subst (λ v. (work v (record s { worker_ended = true })).worker_ended ≡ true) (sym e) refl)

-- The last three turns.
abbrev final : Connecting → Connecting
final t = step (main_runs success) (step worker_runs (step worker_runs t))

works-main : (t : Connecting) → (step worker_runs (step worker_runs t)).main ≡ t.main
unfolding step
works-main t = work-main (work t.connect t).connect (work t.connect t) ∙ work-main t.connect t

joined :
    (u : Connecting)
    → u.main ≡ joining
    → u.worker_ended ≡ true
    → (step (main_runs success) u).main ≡ over zero_status
unfolding step main_step
joined u e k =
    subst (λ m. (main_step m success u).main ≡ over zero_status) (sym e)
      (subst (λ b. (if b then record u { main = over zero_status } else u).main ≡ over zero_status)
        (sym k) refl)

final_joining :
    (t : Connecting) → t.main ≡ joining → t.connect ≢ pending → (final t).main ≡ over zero_status
final_joining t e n =
    joined (step worker_runs (step worker_runs t)) (works-main t ∙ e)
      (work_twice t.connect t refl n)

final_at_end : (t : Connecting) → t.main ≡ over zero_status → (final t).main ≡ over zero_status
unfolding step main_step
final_at_end t e =
    let u = step worker_runs (step worker_runs t) in
    let there = works-main t ∙ e in
    subst (λ m. (main_step m success u).main ≡ over zero_status) (sym there) there

final_joins :
    (b : Bool) (s : Connecting)
    → s.worker_ended ≡ b
    → s.main ≡ joining
    → s.connect ≢ pending
    → (final (if b then record s { main = over zero_status } else s)).main ≡ over zero_status
final_joins false s k e n = final_joining s e n
final_joins true s k e n = final_at_end (record s { main = over zero_status }) refl

exited :
    (exit : Exit) (b : Bool) (w : Wait)
    → IsAt (over exit) b w
    → over exit ≢ over terminated
    → exit ≡ zero_status
exited exit b w (inl h) n = absurd (n (ap over h))
exited exit b w (inr h) n = h.0

-- main, the worker twice, and main again.
last_turns :
    (m : Main) (s : Connecting)
    → s.main ≡ m
    → IsOrdered s
    → m ≢ over terminated
    → (run (main_runs success ∷ worker_runs ∷ worker_runs ∷ main_runs success ∷ []) s).main
      ≡ over zero_status
unfolding run step main_step cancel
last_turns cancelling s e h n =
    subst (λ m. (final (main_step m success s)).main ≡ over zero_status) (sym e)
      (final_joining (record s { main = joining; connect = cancel s.connect }) refl
        (end_with-pending operation_aborted s.connect))
last_turns joining s e h n =
    subst (λ m. (final (main_step m success s)).main ≡ over zero_status) (sym e)
      (final_joins s.worker_ended s refl e (subst (λ m. IsAt m s.worker_ended s.connect) e h.is_at))
last_turns (over exit) s e h n =
    subst (λ m. (final (main_step m success s)).main ≡ over zero_status) (sym e)
      (final_at_end s (
        e
        ∙ ap over (
            exited exit s.worker_ended s.connect
              (subst (λ m. IsAt m s.worker_ended s.connect) e h.is_at) n)))

run-append : (es fs : List Event) (s : Connecting) → run (es ++ fs) s ≡ run fs (run es s)
unfolding run
run-append [] fs s = refl
run-append (e ∷ es) fs s = run-append es fs (step e s)

start_going : start.main ≢ over terminated
unfolding start
start_going h = cc

-- If cancel() never throws, then whatever has happened, a turn of main, two of the worker and
-- another of main bring the program to its end, with 0.
pub run_ends :
    (es : List Event)
    → All Succeeds es
    → (run
        (es ++ main_runs success ∷ worker_runs ∷ worker_runs ∷ main_runs success ∷ [])
        start).main
      ≡ over zero_status
run_ends es k =
    let s = run es start in
    ap (λ t. t.main)
      (run-append es (main_runs success ∷ worker_runs ∷ worker_runs ∷ main_runs success ∷ []) start)
    ∙ last_turns s.main s refl (from-IsOrdered es start start-IsOrdered)
        (run_going es start k start_going)
