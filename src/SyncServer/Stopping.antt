-- ===== src/SyncServer/Stopping.antt =====
-- What tcp_iterative_synchronous.cpp serves, and when it stops.
use boost_asio_cpp_network_p.Common.{
  ◌≡◌, refl, sym, ap, ◌∙◌, subst, Bool, true, false, List, [], ◌∷◌, ◌++◌, All, append_assoc,
  append-nil, if◌then◌else◌,
}
use boost_asio_cpp_network_p.Asio.{
  success, Result, ok, aborts, is_error, bind_returned, ok-injective,
}
use boost_asio_cpp_network_p.SyncServer.{Client, Handled, handle_client}
use boost_asio_cpp_network_p.SyncServer.Iterative.{
  Thread, Server, Event, begins, accepts, stops, start, turn, begin_run, accept, stop, step_at,
  step, run,
}

abbrev pub all_accepted : List Client → List Event
all_accepted [] = []
all_accepted (c ∷ cs) = accepts success c ∷ all_accepted cs

abbrev pub handle_all : List Client → List Handled
handle_all [] = []
handle_all (c ∷ cs) = handle_client c ∷ handle_all cs

-- The server in accept(), not stopped.
abbrev pub serving : List Handled → Server
serving served = record { is_stopped = false; thread = Thread.accepting; served = served }

serving_all :
    (cs : List Client) (served : List Handled)
    → run (all_accepted cs) (serving served) ≡ ok (serving (served ++ handle_all cs))
unfolding run step step_at accept turn
serving_all [] served = ap (λ l. ok (serving l)) (sym (append-nil served))
serving_all (c ∷ cs) served =
    serving_all cs (served ++ (handle_client c ∷ []))
    ∙ ap (λ l. ok (serving l)) (append_assoc served (handle_client c ∷ []) (handle_all cs))

-- As long as nobody stops it and no call fails, the server handles every client, one after the
-- other in the order of their arrival, and waits for the next one.
pub run_serves :
    (cs : List Client) → run (begins success ∷ all_accepted cs) start ≡ ok (serving (handle_all cs))
unfolding run step step_at begin_run turn start
run_serves cs = serving_all cs []

-- A server by its fields.
abbrev pub server_at : Bool → Thread → List Handled → Server
server_at is_stopped thread served = record {
  is_stopped = is_stopped;
  thread = thread;
  served = served;
}

-- The thread has returned only if m_stop is set.
abbrev pub IsConsistentAt : Thread → Bool → Type 0
IsConsistentAt Thread.finished is_stopped = is_stopped ≡ true
IsConsistentAt _ is_stopped = Unit

abbrev pub IsConsistent : Server → Type 0
IsConsistent s = IsConsistentAt s.thread s.is_stopped

consistent_after_stop : (th : Thread) → IsConsistentAt th true
consistent_after_stop Thread.ready = tt
consistent_after_stop Thread.accepting = tt
consistent_after_stop Thread.finished = refl

turn-IsConsistent :
    (b : Bool) (th : Thread) (l : List Handled) → IsConsistent (turn (server_at b th l))
unfolding turn
turn-IsConsistent true th l = refl
turn-IsConsistent false th l = tt

carried : (s t : Server) → IsConsistent s → Result.ok s ≡ ok t → IsConsistent t
carried s t h e = subst IsConsistent (ok-injective s t e) h

turned :
    (b : Bool) (s t : Server)
    → IsConsistent s
    → (if b then aborts else ok s) ≡ ok t
    → IsConsistent t
turned true s t h e = cc
turned false s t h e = carried s t h e

step-IsConsistent :
    (th : Thread) (e : Event) (b : Bool) (l : List Handled) (t : Server)
    → IsConsistent (server_at b th l)
    → step e (server_at b th l) ≡ ok t
    → IsConsistent t
unfolding step step_at stop begin_run accept
step-IsConsistent th stops b l t h e =
    carried (stop (server_at b th l)) t (consistent_after_stop th) e
step-IsConsistent Thread.ready (begins ec) b l t h e =
    turned (is_error ec) _ t (turn-IsConsistent b Thread.ready l) e
step-IsConsistent Thread.ready (accepts ec c) b l t h e = carried (server_at b Thread.ready l) t h e
step-IsConsistent Thread.accepting (begins ec) b l t h e =
    carried (server_at b Thread.accepting l) t h e
step-IsConsistent Thread.accepting (accepts ec c) b l t h e =
    turned (is_error ec) _ t (turn-IsConsistent b Thread.accepting (l ++ (handle_client c ∷ []))) e
step-IsConsistent Thread.finished (begins ec) b l t h e =
    carried (server_at b Thread.finished l) t h e
step-IsConsistent Thread.finished (accepts ec c) b l t h e =
    carried (server_at b Thread.finished l) t h e

-- Whatever happens, the thread leaves its loop only after stop() has set m_stop.
pub run-IsConsistent :
    (es : List Event) (s t : Server) → IsConsistent s → run es s ≡ ok t → IsConsistent t
unfolding run
run-IsConsistent [] s t h e = carried s t h e
run-IsConsistent (x ∷ es) s t h e =
    let stepped = bind_returned (λ u. run es u) (step x s) e in
    run-IsConsistent es stepped.0 t
      (step-IsConsistent s.thread x s.is_stopped s.served stepped.0 h stepped.1) stepped.2

abbrev pub no_accept : Event → Bool
no_accept (accepts ec c) = false
no_accept _ = true

-- In accept() the thread waits: neither stop() nor anything else but a client lets it go on.
pub run_waits :
    (es : List Event) (b : Bool) (served : List Handled)
    → All (λ e. no_accept e ≡ true) es
    → (t : Server) × (run es (server_at b Thread.accepting served) ≡ ok t)
      × (t.thread ≡ Thread.accepting)
      × (t.served ≡ served)
unfolding run step stop step_at
run_waits [] b l h = (server_at b Thread.accepting l, refl, refl, refl)
run_waits (stops ∷ es) b l h = run_waits es true l h.1
run_waits (begins ec ∷ es) b l h = run_waits es b l h.1
run_waits (accepts ec c ∷ es) b l h = cc

run_finished :
    (es : List Event) (b : Bool) (served : List Handled)
    → (t : Server) × (run es (server_at b Thread.finished served) ≡ ok t)
      × (t.thread ≡ Thread.finished)
      × (t.served ≡ served)
unfolding run step stop step_at
run_finished [] b l = (server_at b Thread.finished l, refl, refl, refl)
run_finished (stops ∷ es) b l = run_finished es true l
run_finished (begins ec ∷ es) b l = run_finished es b l
run_finished (accepts ec c ∷ es) b l = run_finished es b l

-- The thread of a stopped server that waits in accept() waits, whatever else happens, until a
-- client is accepted, serves that client, and returns; whatever comes then is not served.
pub run_stops :
    (before after : List Event) (c : Client) (served : List Handled)
    → All (λ e. no_accept e ≡ true) before
    → (t : Server) × (run
          (before ++ (accepts success c ∷ after))
          (server_at true Thread.accepting served)
        ≡ ok t)
      × (t.thread ≡ Thread.finished)
      × (t.served ≡ served ++ (handle_client c ∷ []))
unfolding run step stop step_at accept turn
run_stops [] es c l h = run_finished es true (l ++ (handle_client c ∷ []))
run_stops (stops ∷ xs) es c l h = run_stops xs es c l h.1
run_stops (begins ec ∷ xs) es c l h = run_stops xs es c l h.1
run_stops (accepts ec x ∷ xs) es c l h = cc
