-- ===== src/AsyncTcpClient/Registry/Changes.antt =====
-- A session that is added, and one that is cancelled: the map and the store still agree.
use boost_asio_cpp_network_p.Common.{
  ℕ, ◌≡◌, sym, ap, ◌∙◌, subst, ◌⊎◌, inl, inr, true, false, none, some, List, [], ◌∷◌, ◌++◌, length,
  ◌==◌, Bool-cases, Option-cases, ==_iff, arith,
}
use boost_asio_cpp_network_p.Asio.{ErrorCode}
use boost_asio_cpp_network_p.AsyncTcpClient.{
  Session, Client, cancel, insert, find, change_at, session_at,
}
use boost_asio_cpp_network_p.AsyncTcpClient.Registry.Maps.{
  find-insert, session_at-append, session_at-change_at, session_at_below,
}
use boost_asio_cpp_network_p.AsyncTcpClient.Registry.{is_live, IsRegistry, some-injective}

abbrev pub added : Session → Client → Client
added s client = record {
  sessions = client.sessions ++ (s ∷ []);
  active = insert s.id (length client.sessions) client.active;
}

module _ (s : Session) (client : Client) (r : IsRegistry client)
    (fresh : find s.id client.active ≡ none) (live : is_live s.pending ≡ true) where
  pub added_registered :
      (h : ℕ) (t : Session)
      → session_at h (added s client).sessions ≡ some t
      → is_live t.pending ≡ true
      → find t.id (added s client).active ≡ some h
  added_registered h t e l = elim (Bool-cases (h == length client.sessions)) [
    | inl p ↦ ground (
      arith,
      session_at-append h client.sessions s,
      find-insert t.id s.id (length client.sessions) client.active,
    )
    | inr p ↦ ground (
      arith,
      session_at-append h client.sessions s,
      find-insert t.id s.id (length client.sessions) client.active,
      r.registered h t,
    )
  ]

  pub added_sound :
      (id h : ℕ)
      → find id (added s client).active ≡ some h
      → (t : Session) × (session_at h (added s client).sessions ≡ some t)
        × (is_live t.pending ≡ true)
        × (t.id ≡ id)
  added_sound id h e = elim (Bool-cases (s.id == id)) [
    | inl p ↦ (
      s,
      ground (
        arith,
        find-insert id s.id (length client.sessions) client.active,
        session_at-append h client.sessions s,
      ),
      live,
      ground arith,
    )
    | inr p ↦
        let before =
          r.sound id h
            (ground (arith, find-insert id s.id (length client.sessions) client.active)) in
        (
          before.0,
          ground (
            arith,
            session_at-append h client.sessions s,
            session_at_below h client.sessions before.0,
          ),
          before.2,
          before.3,
        )
  ]

-- A session of a changed store: the changed one, or one that stood there before.
pub changed-cases :
    (f : Session → Session) (h n : ℕ) (sessions : List Session) (t : Session)
    → session_at h (change_at f n sessions) ≡ some t
    → ((h ≡ n) × (s : Session) × (session_at n sessions ≡ some s) × (f s ≡ t))
      ⊎ (((h == n) ≡ false) × (session_at h sessions ≡ some t))
changed-cases f h n sessions t e = elim (Bool-cases (h == n)) [
  | inl p ↦ elim (Option-cases (session_at h sessions)) [
    | inl q ↦ absurd (ground (arith, session_at-change_at f h n sessions))
    | inr q ↦ inl (
      (==_iff h n).0 p,
      q.0,
      ap (λ k. session_at k sessions) (sym ((==_iff h n).0 p)) ∙ q.1,
      some-injective (f q.0) t (ground (arith, session_at-change_at f h n sessions)),
    )
  ]
  | inr p ↦ inr (p, ground (arith, session_at-change_at f h n sessions))
]

module _ (ec : ErrorCode) (client : Client) (r : IsRegistry client) (n : ℕ) where
  abbrev pub cancel_one : Session → Session
  cancel_one s = (cancel ec s).0

  abbrev pub cancelled : Client
  cancelled = record client { sessions = change_at cancel_one n client.sessions }

  pub cancelled_registered :
      (h : ℕ) (t : Session)
      → session_at h cancelled.sessions ≡ some t
      → is_live t.pending ≡ true
      → find t.id client.active ≡ some h
  unfolding cancel
  cancelled_registered h t e l = elim (changed-cases cancel_one h n client.sessions t e) [
    | inl q ↦
        subst (λ k. find t.id client.active ≡ some k) (sym q.0)
          (subst (λ u. find u.id client.active ≡ some n) q.3
            (r.registered n q.1 q.2 (ap (λ u. is_live u.pending) q.3 ∙ l)))
    | inr q ↦ r.registered h t q.1 l
  ]

  pub cancelled_sound :
      (id h : ℕ)
      → find id client.active ≡ some h
      → (t : Session) × (session_at h cancelled.sessions ≡ some t)
        × (is_live t.pending ≡ true)
        × (t.id ≡ id)
  unfolding cancel
  cancelled_sound id h e =
      let before = r.sound id h e in
      elim (Bool-cases (h == n)) [
        | inl p ↦ (
          cancel_one before.0,
          ground (arith, session_at-change_at cancel_one h n client.sessions),
          before.2,
          before.3,
        )
        | inr p ↦ (
          before.0,
          ground (arith, session_at-change_at cancel_one h n client.sessions),
          before.2,
          before.3,
        )
      ]
