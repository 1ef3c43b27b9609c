-- ===== src/AsyncTcpClient/Registry/Completed.antt =====
-- A session whose operation ends: the map and the store still agree.
use boost_asio_cpp_network_p.Common.{
  ℕ, ◌≡◌, refl, sym, ap, ◌∙◌, ◌⊎◌, inl, inr, Bool, true, false, Option, none, some, ◌++◌, ◌==◌,
  Bool-cases, ==_iff, arith,
}
use boost_asio_cpp_network_p.Asio.{ErrorCode, Completion, is_error}
use boost_asio_cpp_network_p.AsyncTcpClient.{
  Operation, async_connect, async_write, async_read_until, Session, Active, Client, Work,
  invoke_callback, on_request_complete, continue, on_connect, on_write_complete, on_read_complete,
  dispatch, dispatch_pending, complete, erase, find, change_at, session_at,
}
use boost_asio_cpp_network_p.AsyncTcpClient.Registry.Maps.{find-erase, session_at-change_at}
use boost_asio_cpp_network_p.AsyncTcpClient.Registry.{is_live, IsRegistry, some-injective}
use boost_asio_cpp_network_p.AsyncTcpClient.Registry.Changes.{changed-cases}

-- What a completion makes of a session and the map: the session goes on; or it is over, and its
-- number is taken out of the map; or it had been over, and nothing changes.
abbrev pub Outcome : Session → Active → Work → Type 0
Outcome s active w =
    (w.0.id ≡ s.id)
    × (((is_live s.pending ≡ true) × (is_live w.0.pending ≡ true) × (w.1 ≡ active))
        ⊎ (((is_live s.pending ≡ true) × (is_live w.0.pending ≡ false) × (w.1 ≡ erase s.id active))
            ⊎ ((is_live s.pending ≡ false) × (w ≡ (s, active)))))

on_request_complete-Outcome :
    (s : Session) (ec : ErrorCode) (b : Bool) (w : Work)
    → w.0.id ≡ s.id
    → w.0.pending ≡ none
    → is_live s.pending ≡ true
    → Outcome s w.1 (on_request_complete ec b w)
unfolding on_request_complete invoke_callback
on_request_complete-Outcome s ec b w i p l =
    (i, inr (inl (l, ap is_live p, ap (λ id. erase id w.1) i)))

continue-Outcome :
    (s : Session) (next : Operation) (ec : ErrorCode) (w : Work)
    → w.0.id ≡ s.id
    → w.0.pending ≡ none
    → is_live s.pending ≡ true
    → Outcome s w.1 (continue next ec w)
continue-Outcome s next ec w i p l = elim (Bool-cases (is_error ec)) [
  | inl e ↦ simp e (on_request_complete-Outcome s ec false w i p l)
  | inr e ↦ elim (Bool-cases w.0.was_cancelled) [
    | inl d ↦ simp (e, d) (on_request_complete-Outcome s ec true w i p l)
    | inr d ↦ simp (e, d) (i, inl (l, refl, refl))
  ]
]

dispatch-Outcome :
    (s : Session) (op : Operation) (ec : ErrorCode) (w : Work)
    → w.0.id ≡ s.id
    → w.0.pending ≡ none
    → is_live s.pending ≡ true
    → Outcome s w.1 (dispatch op ec w)
unfolding dispatch on_connect on_write_complete on_read_complete
dispatch-Outcome s async_connect ec w i p l = continue-Outcome s _ ec w i p l
dispatch-Outcome s (async_write text) ec w i p l = continue-Outcome s _ ec w i p l
dispatch-Outcome s (async_read_until delim) ec w i p l =
    on_request_complete-Outcome s ec w.0.was_cancelled w i p l

dispatch_pending-Outcome :
    (o : Option Operation) (c : Completion) (s : Session) (active : Active)
    → o ≡ s.pending
    → Outcome s active (dispatch_pending o c (s, active))
dispatch_pending-Outcome none c s active e = (refl, inr (inr (ap is_live (sym e), refl)))
dispatch_pending-Outcome (some op) c s active e =
    dispatch-Outcome s op c.ec
      (record s { pending = none; response_buf = s.response_buf ++ c.received }, active) refl refl
      (ap is_live (sym e))

pub complete-Outcome :
    (c : Completion) (s : Session) (active : Active) → Outcome s active (complete c (s, active))
unfolding complete
complete-Outcome c s active = dispatch_pending-Outcome s.pending c s active refl

-- The client after a completion of the session `s` at the place `n`, which made it `w`.
module _ (client : Client) (r : IsRegistry client) (n : ℕ) (s : Session) (w : Work)
    (here : session_at n client.sessions ≡ some s) (made : Outcome s client.active w) where
  abbrev pub completed : Client
  completed = record { sessions = change_at (λ _. w.0) n client.sessions; active = w.1 }

  pub completed_registered :
      (h : ℕ) (t : Session)
      → session_at h completed.sessions ≡ some t
      → is_live t.pending ≡ true
      → find t.id completed.active ≡ some h
  completed_registered h t e l = elim (changed-cases (λ _. w.0) h n client.sessions t e) [
    | inl q ↦ elim made.1 [
      | inl going ↦
          ap (find t.id) going.2
          ∙ ap (λ id. find id client.active) (ap (λ u. u.id) (sym q.3) ∙ made.0)
          ∙ r.registered n s here going.0
          ∙ ap some (sym q.0)
      | inr (inl over) ↦ cc (ap (λ u. is_live u.pending) q.3)
      | inr (inr same) ↦ cc (ap (λ u. is_live u.pending) q.3, ap (λ u. is_live u.0.pending) same.1)
    ]
    | inr q ↦ elim made.1 [
      | inl going ↦ ap (find t.id) going.2 ∙ r.registered h t q.1 l
      | inr (inl over) ↦
          ap (find t.id) over.2
          ∙ ground (
            arith,
            find-erase t.id s.id client.active,
            r.registered n s here over.0,
            r.registered h t q.1 l,
          )
      | inr (inr same) ↦ ap (λ u. find t.id u.1) same.1 ∙ r.registered h t q.1 l
    ]
  ]

  same_session :
      (h : ℕ) (t : Session) → (h == n) ≡ true → session_at h client.sessions ≡ some t → s ≡ t
  same_session h t p e =
      some-injective s t
        (sym here ∙ ap (λ k. session_at k client.sessions) (sym ((==_iff h n).0 p)) ∙ e)

  changed_here :
      (h : ℕ) (t : Session)
      → (h == n) ≡ true
      → session_at h client.sessions ≡ some t
      → session_at h completed.sessions ≡ some w.0
  changed_here h t p e = ground (arith, session_at-change_at (λ _. w.0) h n client.sessions)

  changed_elsewhere :
      (h : ℕ) (t : Session)
      → (h == n) ≡ false
      → session_at h client.sessions ≡ some t
      → session_at h completed.sessions ≡ some t
  changed_elsewhere h t p e = ground (arith, session_at-change_at (λ _. w.0) h n client.sessions)

  pub completed_sound :
      (id h : ℕ)
      → find id completed.active ≡ some h
      → (t : Session) × (session_at h completed.sessions ≡ some t)
        × (is_live t.pending ≡ true)
        × (t.id ≡ id)
  completed_sound id h e = elim made.1 [
    | inl going ↦
        let before = r.sound id h (sym (ap (find id) going.2) ∙ e) in
        elim (Bool-cases (h == n)) [
          | inl p ↦ (
            w.0,
            changed_here h before.0 p before.1,
            going.1,
            made.0 ∙ ap (λ u. u.id) (same_session h before.0 p before.1) ∙ before.3,
          )
          | inr p ↦ (before.0, changed_elsewhere h before.0 p before.1, before.2, before.3)
        ]
    | inr (inl over) ↦
        let found : find id client.active ≡ some h =
          ground (arith, find-erase id s.id client.active, ap (find id) over.2) in
        let before = r.sound id h found in
        elim (Bool-cases (h == n)) [
          | inl p ↦ absurd (
              ground (
                arith,
                find-erase id s.id client.active,
                ap (find id) over.2,
                ap (λ u. u.id) (same_session h before.0 p before.1),
                before.3,
              ))
          | inr p ↦ (before.0, changed_elsewhere h before.0 p before.1, before.2, before.3)
        ]
    | inr (inr same) ↦
        let before = r.sound id h (sym (ap (λ u. find id u.1) same.1) ∙ e) in
        elim (Bool-cases (h == n)) [
          | inl p ↦ cc (ap (λ u. is_live u.pending) (same_session h before.0 p before.1), before.2)
          | inr p ↦ (before.0, changed_elsewhere h before.0 p before.1, before.2, before.3)
        ]
  ]
