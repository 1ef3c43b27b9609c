-- ===== src/SyncServer/Threads.antt =====
-- The clients of tcp_parallel_synchronous.cpp: none is lost, and each is handled in the end.
use boost_asio_cpp_network_p.Common.{
  ℕ, zero, suc, ◌+◌, ◌≡◌, refl, sym, ap, ◌∙◌, false, Option, none, some, List, [], ◌∷◌, ◌++◌, All,
  length, replicate, arith, append_assoc, append-nil,
}
use boost_asio_cpp_network_p.Asio.{ErrorCode, success, ok}
use boost_asio_cpp_network_p.SyncServer.{Client, Handled, handle_client}
use boost_asio_cpp_network_p.SyncServer.Stopping.{handle_all}
use boost_asio_cpp_network_p.SyncServer.Parallel.{
  Thread, Server, Event, begins, accepts, handles, stops, start_handling_client, turn, accept,
  put_back, pick, finish, step_at, step, run,
}

-- A server that accepts.
abbrev pub serving : List Client → List Handled → Server
serving detached handled = record {
  is_stopped = false;
  thread = Thread.accepting;
  detached = detached;
  handled = handled;
}

-- The clients of a list of events.
abbrev pub clients : List Event → List Client
clients [] = []
clients (accepts ec c ∷ es) = c ∷ clients es
clients (_ ∷ es) = clients es

-- A client that is accepted, or a detached thread that runs.
abbrev pub IsWork : Event → Type 0
IsWork (accepts ec c) = ec ≡ success
IsWork (handles n) = Unit
IsWork _ = ⊥

abbrev pub total : (Handled → ℕ) → List Handled → ℕ
total f [] = 0
total f (h ∷ hs) = f h + total f hs

total-append :
    (f : Handled → ℕ) (xs ys : List Handled) → total f (xs ++ ys) ≡ total f xs + total f ys
total-append f [] ys = omega arith
total-append f (x ∷ xs) ys = omega (arith, total-append f xs ys)

total_snoc :
    (f : Handled → ℕ) (cs : List Client) (c : Client)
    → total f (handle_all (cs ++ (c ∷ []))) ≡ total f (handle_all cs) + f (handle_client c)
total_snoc f [] c = omega arith
total_snoc f (x ∷ cs) c = omega (arith, total_snoc f cs c)

-- The weight of everybody who has been accepted.
abbrev weight : (Handled → ℕ) → Server → ℕ
weight f s = total f s.handled + total f (handle_all s.detached)

abbrev PickedWeight : (Handled → ℕ) → Option (Client × List Client) → ℕ → Type 0
PickedWeight f none n = Unit
PickedWeight f (some p) n = f (handle_client p.0) + total f (handle_all p.1) ≡ n

PickedWeight-put_back :
    (f : Handled → ℕ) (c : Client) (o : Option (Client × List Client)) (n : ℕ)
    → PickedWeight f o n
    → PickedWeight f (put_back c o) (f (handle_client c) + n)
PickedWeight-put_back f c none n h = tt
PickedWeight-put_back f c (some p) n h = omega arith

PickedWeight-pick :
    (f : Handled → ℕ) (n : ℕ) (cs : List Client)
    → PickedWeight f (pick n cs) (total f (handle_all cs))
PickedWeight-pick f n [] = tt
PickedWeight-pick f zero (c ∷ cs) = refl
PickedWeight-pick f (suc n) (c ∷ cs) =
    PickedWeight-put_back f c (pick n cs) (total f (handle_all cs)) (PickedWeight-pick f n cs)

-- A detached thread that runs leaves an accepting server that accepts, with the same weight.
finish_lem :
    (f : Handled → ℕ) (cs : List Client) (hs : List Handled) (o : Option (Client × List Client))
    → PickedWeight f o (total f (handle_all cs))
    → (ds : List Client) × (ks : List Handled) × (finish o (serving cs hs) ≡ serving ds ks)
      × (weight f (serving ds ks) ≡ weight f (serving cs hs))
finish_lem f cs hs none h = (cs, hs, refl, refl)
finish_lem f cs hs (some p) h = (
  p.1,
  hs ++ (handle_client p.0 ∷ []),
  refl,
  omega (arith, total-append f hs (handle_client p.0 ∷ [])),
)

-- An accepting server at work goes on accepting, with the weight of all that came.
pub run_work :
    (f : Handled → ℕ) (es : List Event) (cs : List Client) (hs : List Handled)
    → All IsWork es
    → (ds : List Client) × (ks : List Handled) × (run es (serving cs hs) ≡ ok (serving ds ks))
      × (total f ks + total f (handle_all ds)
          ≡ total f hs + total f (handle_all cs) + total f (handle_all (clients es)))
unfolding run step step_at accept start_handling_client turn
run_work f [] cs hs h = (cs, hs, refl, omega arith)
run_work f (accepts ErrorCode.success c ∷ es) cs hs h =
    let rest = run_work f es (cs ++ (c ∷ [])) hs h.1 in
    (rest.0, rest.1, rest.2, omega (arith, total_snoc f cs c, rest.3))
run_work f (accepts _ c ∷ es) cs hs h = cc
run_work f (handles n ∷ es) cs hs h =
    let now = finish_lem f cs hs (pick n cs) (PickedWeight-pick f n cs) in
    let rest = run_work f es now.0 now.1 h.1 in
    (rest.0, rest.1, ap (run es) now.2 ∙ rest.2, omega (arith, rest.3, now.3))
run_work f (begins ec ∷ es) cs hs h = elim h.0 [ ]
run_work f (stops ∷ es) cs hs h = elim h.0 [ ]

-- While clients are accepted and detached threads run, in any order, no client is lost or
-- handled twice: those whose threads have run and those whose threads have still to run are, by
-- any count `f`, all that came.
pub run_conserves :
    (f : Handled → ℕ) (es : List Event) (cs : List Client) (hs : List Handled)
    → All IsWork es
    → (t : Server) × (run es (serving cs hs) ≡ ok t)
      × (total f t.handled + total f (handle_all t.detached)
          ≡ total f hs + total f (handle_all cs) + total f (handle_all (clients es)))
run_conserves f es cs hs h =
    let worked = run_work f es cs hs h in (serving worked.0 worked.1, worked.2, worked.3)

-- The clients of the detached threads are all handled, in their order, once the threads have
-- run in the order in which they were started.
pub run_drains :
    (cs : List Client) (hs : List Handled)
    → run (replicate (length cs) (handles 0)) (serving cs hs)
      ≡ ok (serving [] (hs ++ handle_all cs))
unfolding run step step_at
run_drains [] hs = ap (λ l. ok (serving [] l)) (sym (append-nil hs))
run_drains (c ∷ cs) hs =
    run_drains cs (hs ++ (handle_client c ∷ []))
    ∙ ap (λ l. ok (serving [] l)) (append_assoc hs (handle_client c ∷ []) (handle_all cs))
