-- ===== src/Waits/Joined.antt =====
-- How cancel_async_io.cpp ends.
use boost_asio_cpp_network_p.Common.{
  ◌≡◌, ◌≢◌, refl, sym, ap, subst, ◌⊎◌, inl, inr, Bool, true, false, List, [], ◌∷◌, ◌++◌, Bool-cases,
  if◌then◌else◌,
}
use boost_asio_cpp_network_p.Asio.{ErrorCode, operation_aborted, is_error}
use boost_asio_cpp_network_p.Programs.{zero_status, terminated}
use boost_asio_cpp_network_p.Waits.{Wait, pending, ended, handled, end_with, cancel, Printed}
use boost_asio_cpp_network_p.Waits.Cancelling.{
  Main, cancelling, joining, over, Connecting, start, describe, Event, connects, worker_runs,
  main_runs, work, main_step, step, run,
}

-- The handler prints when it is called, and then only; the worker's end comes behind it, and the
-- end of main behind that.
abbrev pub HasPrinted : Wait → List Printed → Type 0
HasPrinted (handled ec) printed = printed ≡ describe ec
HasPrinted _ printed = printed ≡ []

abbrev pub IsHandled : Wait → Type 0
IsHandled w = (ec : ErrorCode) × (w ≡ handled ec)

abbrev pub HasEnded : Bool → Wait → Type 0
HasEnded true w = IsHandled w
HasEnded false w = Unit

abbrev pub IsAt : Main → Bool → Wait → Type 0
IsAt cancelling worker w = Unit
IsAt joining worker w = w ≢ pending
IsAt (over exit) worker w = (exit ≡ terminated) ⊎ ((exit ≡ zero_status) × (worker ≡ true))

pub record IsOrdered (s : Connecting) : Type 0 where
  pub has_printed : HasPrinted s.connect s.printed
  pub has_ended : HasEnded s.worker_ended s.connect
  pub is_at : IsAt s.main s.worker_ended s.connect

pub start-IsOrdered : IsOrdered start
unfolding start
start-IsOrdered = record { has_printed = refl; has_ended = tt; is_at = tt }

-- A wait that ends keeps what is known of it.
end_with-HasPrinted :
    (ec : ErrorCode) (w : Wait) (printed : List Printed)
    → HasPrinted w printed
    → HasPrinted (end_with ec w) printed
unfolding end_with
end_with-HasPrinted ec Wait.pending printed h = h
end_with-HasPrinted ec (ended code) printed h = h
end_with-HasPrinted ec (handled code) printed h = h

end_with-IsHandled : (ec : ErrorCode) (w : Wait) → IsHandled w → IsHandled (end_with ec w)
unfolding end_with
end_with-IsHandled ec w h = (h.0, ap (end_with ec) h.1)

end_with-HasEnded :
    (ec : ErrorCode) (b : Bool) (w : Wait) → HasEnded b w → HasEnded b (end_with ec w)
end_with-HasEnded ec false w h = tt
end_with-HasEnded ec true w h = end_with-IsHandled ec w h

pub end_with-pending : (ec : ErrorCode) (w : Wait) → end_with ec w ≢ pending
unfolding end_with
end_with-pending ec Wait.pending h = cc
end_with-pending ec (ended code) h = cc
end_with-pending ec (handled code) h = cc

end_with-IsAt :
    (ec : ErrorCode) (m : Main) (b : Bool) (w : Wait) → IsAt m b w → IsAt m b (end_with ec w)
end_with-IsAt ec cancelling b w h = tt
end_with-IsAt ec joining b w h = end_with-pending ec w
end_with-IsAt ec (over exit) b w h = h

connects-IsOrdered :
    (ec : ErrorCode) (s : Connecting)
    → IsOrdered s
    → IsOrdered (record s { connect = end_with ec s.connect })
connects-IsOrdered ec s h = record {
  has_printed = end_with-HasPrinted ec s.connect s.printed h.has_printed;
  has_ended = end_with-HasEnded ec s.worker_ended s.connect h.has_ended;
  is_at = end_with-IsAt ec s.main s.worker_ended s.connect h.is_at;
}

-- The worker has not ended while the handler is still to be called.
not_ended : (b : Bool) (ec : ErrorCode) → HasEnded b (ended ec) → b ≡ false
not_ended false ec h = refl
not_ended true ec h = absurd (cc h.1)

ended-IsAt : (m : Main) (b : Bool) (v w : Wait) → w ≢ pending → IsAt m b v → IsAt m b w
ended-IsAt cancelling b v w n h = tt
ended-IsAt joining b v w n h = n
ended-IsAt (over exit) b v w n h = h

worker-IsAt : (m : Main) (b : Bool) (w : Wait) → IsAt m b w → IsAt m true w
worker-IsAt cancelling b w h = tt
worker-IsAt joining b w h = h
worker-IsAt (over exit) b w (inl h) = inl h
worker-IsAt (over exit) b w (inr h) = inr (h.0, refl)

work-IsOrdered : (w : Wait) (s : Connecting) → s.connect ≡ w → IsOrdered s → IsOrdered (work w s)
unfolding work
work-IsOrdered Wait.pending s e h = h
work-IsOrdered (ended ec) s e h =
    let going = not_ended s.worker_ended ec (subst (HasEnded s.worker_ended) e h.has_ended) in
    record {
      has_printed =
          ap (λ p. p ++ describe ec) (subst (λ w. HasPrinted w s.printed) e h.has_printed);
      has_ended = subst (λ b. HasEnded b (handled ec)) (sym going) tt;
      is_at = ended-IsAt s.main s.worker_ended s.connect (handled ec) (λ p. cc) h.is_at;
    }
work-IsOrdered (handled ec) s e h = record {
  has_printed = h.has_printed;
  has_ended = (ec, e);
  is_at = worker-IsAt s.main s.worker_ended s.connect h.is_at;
}

join-IsOrdered :
    (b : Bool) (s : Connecting)
    → s.worker_ended ≡ b
    → IsOrdered s
    → IsOrdered (if b then record s { main = over zero_status } else s)
join-IsOrdered false s e h = h
join-IsOrdered true s e h = record {
  has_printed = h.has_printed;
  has_ended = h.has_ended;
  is_at = inr (refl, e);
}

main_step-IsOrdered :
    (m : Main) (ec : ErrorCode) (s : Connecting)
    → s.main ≡ m
    → IsOrdered s
    → IsOrdered (main_step m ec s)
unfolding main_step cancel
main_step-IsOrdered cancelling ec s e h = elim (Bool-cases (is_error ec)) [
  | inl k ↦ rw k (record { has_printed = h.has_printed; has_ended = h.has_ended; is_at = inl refl })
  | inr k ↦
      let cancelled = connects-IsOrdered operation_aborted s h in
      rw k (record {
        has_printed = cancelled.has_printed;
        has_ended = cancelled.has_ended;
        is_at = end_with-pending operation_aborted s.connect;
      })
]
main_step-IsOrdered joining ec s e h = join-IsOrdered s.worker_ended s refl h
main_step-IsOrdered (over exit) ec s e h = h

step-IsOrdered : (e : Event) (s : Connecting) → IsOrdered s → IsOrdered (step e s)
unfolding step
step-IsOrdered (connects ec) s h = connects-IsOrdered ec s h
step-IsOrdered worker_runs s h = work-IsOrdered s.connect s refl h
step-IsOrdered (main_runs ec) s h = main_step-IsOrdered s.main ec s refl h

pub from-IsOrdered : (es : List Event) (s : Connecting) → IsOrdered s → IsOrdered (run es s)
unfolding run
from-IsOrdered [] s h = h
from-IsOrdered (e ∷ es) s h = from-IsOrdered es (step e s) (step-IsOrdered e s h)

ended_of_over : (b : Bool) (w : Wait) → IsAt (over zero_status) b w → HasEnded b w → IsHandled w
ended_of_over b w (inl h) k = absurd (cc h)
ended_of_over b w (inr h) k = subst (λ c. HasEnded c w) h.1 k

-- In every order of the two threads and the connection: if main ends with 0, then the handler has
-- been called, once, with the connection's result, and what was printed is what it prints of that.
pub run_joined :
    (es : List Event)
    → (run es start).main ≡ over zero_status
    → (ec : ErrorCode) × ((run es start).connect ≡ handled ec)
      × ((run es start).printed ≡ describe ec)
run_joined es e =
    let s = run es start in
    let h = from-IsOrdered es start start-IsOrdered in
    let done =
      ended_of_over s.worker_ended s.connect
        (subst (λ m. IsAt m s.worker_ended s.connect) e h.is_at) h.has_ended in
    (done.0, done.1, subst (λ w. HasPrinted w s.printed) done.1 h.has_printed)
