-- ===== src/AsyncTcpClient/Closing/Drained.antt =====
-- close() returns, and until then each request is answered.
use boost_asio_cpp_network_p.Common.{
  ℕ, zero, suc, ◌+◌, ◌*◌, ◌≤◌, ◌<◌, ◌≡◌, refl, sym, subst, ◌⊎◌, inl, inr, true, false, Option, none,
  some, List, [], ◌∷◌, All, length, Bool-cases, arith,
}
use boost_asio_cpp_network_p.Asio.{Completion, ok}
use boost_asio_cpp_network_p.AsyncTcpClient.{
  Operation, async_connect, async_write, async_read_until, Call, Session, Work, Client, new_client,
  Event, complete, change_at, session_at, complete_found, complete_at, run, step,
}
use boost_asio_cpp_network_p.AsyncTcpClient.Sessions.{
  IsCalled, IsSession, rank, rank-dispatch_pending,
}
use boost_asio_cpp_network_p.AsyncTcpClient.Lifecycle.{run-new_client, run-AllSessions}
use boost_asio_cpp_network_p.AsyncTcpClient.Registry.{is_live, some-injective}
use boost_asio_cpp_network_p.AsyncTcpClient.Closing.{
  is_idle, thread_ends, close, Completions, drain, as_events,
}

-- Each completion is that of an operation that is pending.
abbrev pub IsPendingAt : ℕ → List Session → Type 0
IsPendingAt n sessions =
    (s : Session) × (session_at n sessions ≡ some s) × (is_live s.pending ≡ true)

abbrev pub HasPending : ℕ → Client → Type 0
HasPending n client = IsPendingAt n client.sessions

abbrev pub AllPending : Completions → Client → Type 0
AllPending [] client = Unit
AllPending (c ∷ cs) client = HasPending c.0 client × AllPending cs (complete_at c.0 c.1 client)

-- The operations that are left.
abbrev left : List Session → ℕ
left [] = 0
left (s ∷ sessions) = rank s.pending + left sessions

rank_le : (p : Option Operation) → rank p ≤ 3
rank_le none = omega arith
rank_le (some async_connect) = omega arith
rank_le (some (async_write text)) = omega arith
rank_le (some (async_read_until delim)) = omega arith

rank-is_live : (p : Option Operation) → is_live p ≡ true → 0 < rank p
rank-is_live none h = cc
rank-is_live (some async_connect) h = omega arith
rank-is_live (some (async_write text)) h = omega arith
rank-is_live (some (async_read_until delim)) h = omega arith

left_le : (sessions : List Session) → left sessions ≤ 3 * length sessions
left_le [] = omega arith
left_le (s ∷ sessions) = omega (arith, rank_le s.pending, left_le sessions)

rank-complete :
    (c : Completion) (w : Work)
    → is_live w.0.pending ≡ true
    → rank (complete c w).0.pending < rank w.0.pending
unfolding complete
rank-complete c w h =
    omega (arith, rank-dispatch_pending w.0.pending c w refl, rank-is_live w.0.pending h)

left-change_at :
    (f : Session → Session) (n : ℕ) (sessions : List Session) (s : Session)
    → session_at n sessions ≡ some s
    → rank (f s).pending < rank s.pending
    → left (change_at f n sessions) < left sessions
left-change_at f n [] s e h = cc
left-change_at f zero (x ∷ sessions) s e h =
    let same = some-injective x s e in
    let less = subst (λ t. rank (f t).pending < rank t.pending) (sym same) h in omega (arith, less)
left-change_at f (suc n) (x ∷ sessions) s e h = omega (arith, left-change_at f n sessions s e h)

left-complete_at :
    (n : ℕ) (c : Completion) (client : Client)
    → HasPending n client
    → left (complete_at n c client).sessions < left client.sessions
unfolding complete_at
left-complete_at n c client h =
    subst (λ o. left (complete_found o n c client).sessions < left client.sessions) (sym h.1)
      (left-change_at _ n client.sessions h.0 h.1 (rank-complete c (h.0, client.active) h.2))

left-drain :
    (cs : Completions) (client : Client)
    → AllPending cs client
    → length cs + left (drain cs client).sessions ≤ left client.sessions
unfolding drain
left-drain [] client h = omega arith
left-drain (c ∷ cs) client h =
    omega
      (arith, left-drain cs (complete_at c.0 c.1 client) h.1, left-complete_at c.0 c.1 client h.0)

run-as_events :
    (cs : Completions) (client : Client) → run (as_events cs) client ≡ ok (drain cs client)
unfolding run step drain
run-as_events [] client = refl
run-as_events (c ∷ cs) client = run-as_events cs (complete_at c.0 c.1 client)

drain-IsSession :
    (cs : Completions) (client : Client)
    → All IsSession client.sessions
    → All IsSession (drain cs client).sessions
drain-IsSession cs client h =
    run-AllSessions (as_events cs) client (drain cs client) h (run-as_events cs client)

-- Either nothing is pending, and each callback has been called once, or some operation is.
abbrev pub AreCalled : List Session → Type 0
AreCalled sessions = All (λ s. length s.calls ≡ 1) sessions

called_once :
    (p : Option Operation) (calls : List Call)
    → is_live p ≡ false
    → IsCalled p calls
    → length calls ≡ 1
called_once none calls l h = h
called_once (some op) calls l h = cc

idle-cases :
    (sessions : List Session)
    → All IsSession sessions
    → ((is_idle sessions ≡ true) × AreCalled sessions) ⊎ ((n : ℕ) × IsPendingAt n sessions)
idle-cases [] h = inl (refl, tt)
idle-cases (s ∷ sessions) h = elim (Bool-cases (is_live s.pending)) [
  | inl l ↦ inr (0, (s, refl, l))
  | inr l ↦ elim (idle-cases sessions h.1) [
    | inl rest ↦ inl (ground (arith, l, rest.0), (called_once s.pending s.calls l h.0, rest.1))
    | inr rest ↦ inr (suc rest.0, rest.1)
  ]
]

-- From a state that the client can reach, let operations that are pending complete, in any order
-- and with any results. They are three for a request at most; and when close() is called then
-- either it returns, and each callback has been called exactly once, or an operation is pending.
pub close_returns :
    (es : List Event) (client : Client) (cs : Completions)
    → run es new_client ≡ ok client
    → AllPending cs client
    → (length cs ≤ 3 * length client.sessions)
      × (((thread_ends
                (close (record { client = drain cs client; has_work = true; joinable = true }))
              ≡ true)
            × AreCalled (drain cs client).sessions)
          ⊎ ((n : ℕ) × HasPending n (drain cs client)))
unfolding thread_ends close
close_returns es client cs h p = (
  omega (arith, left-drain cs client p, left_le client.sessions),
  idle-cases (drain cs client).sessions (drain-IsSession cs client (run-new_client es client h)),
)
