-- ===== src/AsyncServer/Accepting.antt =====
-- The accept loop of the servers with a pool of threads.
use boost_asio_cpp_network_p.Common.{
  Bool, suc, ◌≤◌, true, false, List, [], ◌∷◌, ◌++◌, ◌≡◌, ◌≢◌, refl, sym, ap, subst, ◌∙◌, inl, inr,
  length, length-append, arith, append_assoc, append-nil, Bool-cases,
}
use boost_asio_cpp_network_p.Asio.{ErrorCode, success, is_error}
use boost_asio_cpp_network_p.AsyncServer.{
  Acceptor, AcceptorEvent, accepts, stops, init_accept, stop_acceptor, close_acceptor, on_accept,
  acceptor_step, acceptor_run,
}

-- The accept loop ends only after stop() or after an error; an open acceptor is closed only after
-- stop(), and nothing is accepted on a closed one.
abbrev pub IsConsistentAt : Bool → Bool → Bool → List ErrorCode → Type 0
IsConsistentAt true is_open is_stopped errors = is_open ≡ true
IsConsistentAt false true is_stopped errors = errors ≢ []
IsConsistentAt false false is_stopped errors = is_stopped ≡ true

unfoldable pub IsConsistent : {S : Type 0} → Acceptor S → Type 0
IsConsistent a = IsConsistentAt a.accepting a.is_open a.is_stopped a.errors

accepting_open_at :
    (b o d : Bool) (es : List ErrorCode) → IsConsistentAt b o d es → b ≡ true → o ≡ true
accepting_open_at true o d es h p = h
accepting_open_at false o d es h p = cc

consistent_after_stop :
    (b o d : Bool) (es : List ErrorCode) → IsConsistentAt b o d es → IsConsistentAt b o true es
consistent_after_stop true o d es h = h
consistent_after_stop false true d es h = h
consistent_after_stop false false d es h = refl

abbrev pub all_accepted : {C : Type 0} → List C → List (AcceptorEvent C)
all_accepted [] = []
all_accepted (client ∷ clients) = accepts success client ∷ all_accepted clients

module _ {S C : Type 0} (start_handling : C → S) where
  abbrev pub all_services : List C → List S
  all_services [] = []
  all_services (client ∷ clients) = start_handling client ∷ all_services clients

  accepting_open : (a : Acceptor S) → IsConsistent a → a.accepting ≡ true → a.is_open ≡ true
  unfolding IsConsistent
  accepting_open a h = accepting_open_at a.accepting a.is_open a.is_stopped a.errors h

  append-ne-nil : (es : List ErrorCode) (e : ErrorCode) → es ++ (e ∷ []) ≢ []
  append-ne-nil [] e h = cc
  append-ne-nil (x ∷ es) e h = cc

  on_accept-IsConsistent :
      (ec : ErrorCode) (s : S) (a : Acceptor S)
      → a.accepting ≡ false
      → a.is_open ≡ true
      → IsConsistent (on_accept ec s a)
  unfolding on_accept IsConsistent init_accept close_acceptor
  on_accept-IsConsistent ec s a p o = elim (Bool-cases (is_error ec)) [
    | inl e ↦ rw (e, p, o) (append-ne-nil a.errors ec)
    | inr e ↦ elim (Bool-cases a.is_stopped) [ inl t ↦ rw (e, t) refl | inr t ↦ rw (e, t) o ]
  ]

  acceptor_step_idle :
      (ec : ErrorCode) (client : C) (a : Acceptor S)
      → a.accepting ≡ false
      → acceptor_step start_handling (accepts ec client) a ≡ a
  unfolding acceptor_step
  acceptor_step_idle ec client a p = rw p refl

  acceptor_step_accepting :
      (ec : ErrorCode) (client : C) (a : Acceptor S)
      → a.accepting ≡ true
      → acceptor_step start_handling (accepts ec client) a
        ≡ on_accept ec (start_handling client) (record a { accepting = false })
  unfolding acceptor_step
  acceptor_step_accepting ec client a p = rw p refl

  stop_acceptor-IsConsistent : (a : Acceptor S) → IsConsistent a → IsConsistent (stop_acceptor a)
  unfolding IsConsistent stop_acceptor
  stop_acceptor-IsConsistent a h =
      consistent_after_stop a.accepting a.is_open a.is_stopped a.errors h

  -- `IsConsistent` survives every event.
  acceptor_step-IsConsistent :
      (e : AcceptorEvent C) (a : Acceptor S)
      → IsConsistent a
      → IsConsistent (acceptor_step start_handling e a)
  unfolding acceptor_step
  acceptor_step-IsConsistent stops a h = stop_acceptor-IsConsistent a h
  acceptor_step-IsConsistent (accepts ec client) a h = elim (Bool-cases a.accepting) [
    | inl p ↦ subst IsConsistent (sym (acceptor_step_accepting ec client a p)) (
        on_accept-IsConsistent ec (start_handling client) (record a { accepting = false }) refl
          (accepting_open a h p))
    | inr p ↦ subst IsConsistent (sym (acceptor_step_idle ec client a p)) h
  ]

  pub acceptor_run-IsConsistent :
      (es : List (AcceptorEvent C)) (a : Acceptor S)
      → IsConsistent a
      → IsConsistent (acceptor_run start_handling es a)
  unfolding acceptor_run
  acceptor_run-IsConsistent [] a h = h
  acceptor_run-IsConsistent (e ∷ es) a h =
      acceptor_run-IsConsistent es (acceptor_step start_handling e a)
        (acceptor_step-IsConsistent e a h)

  -- An acceptor that does not accept never serves anyone again.
  pub acceptor_run_idle :
      (es : List (AcceptorEvent C)) (a : Acceptor S)
      → a.accepting ≡ false
      → (acceptor_run start_handling es a).services ≡ a.services
  unfolding acceptor_run acceptor_step stop_acceptor
  acceptor_run_idle [] a h = refl
  acceptor_run_idle (stops ∷ es) a h = acceptor_run_idle es (stop_acceptor a) h
  acceptor_run_idle (accepts ec client ∷ es) a h =
      rw (ap (λ b. (acceptor_run start_handling es b).services) (acceptor_step_idle ec client a h))
        (acceptor_run_idle es a h)

  -- What one accept does to a stopped acceptor.
  on_accept_stopped :
      (ec : ErrorCode) (s : S) (a : Acceptor S)
      → a.accepting ≡ false
      → a.is_stopped ≡ true
      → ((on_accept ec s a).accepting ≡ false)
        × (length (on_accept ec s a).services ≤ suc (length a.services))
  unfolding on_accept close_acceptor
  on_accept_stopped ec s a p t = elim (Bool-cases (is_error ec)) [
    | inl e ↦ rw e (p, omega arith)
    | inr e ↦ rw (e, t) (refl, omega (arith, length-append a.services (s ∷ [])))
  ]

  -- From a stopped acceptor at most one more client is served.
  pub acceptor_run_stopped :
      (es : List (AcceptorEvent C)) (a : Acceptor S)
      → a.is_stopped ≡ true
      → length (acceptor_run start_handling es a).services ≤ suc (length a.services)
  unfolding acceptor_run acceptor_step stop_acceptor
  acceptor_run_stopped [] a h = omega arith
  acceptor_run_stopped (stops ∷ es) a h = acceptor_run_stopped es (stop_acceptor a) refl
  acceptor_run_stopped (accepts ec client ∷ es) a h = elim (Bool-cases a.accepting) [
    | inl p ↦
        let served =
          on_accept_stopped ec (start_handling client) (record a { accepting = false }) refl h in
        subst (λ b. length (acceptor_run start_handling es b).services ≤ suc (length a.services))
          (sym (acceptor_step_accepting ec client a p))
          (rw
            (acceptor_run_idle es
              (on_accept ec (start_handling client) (record a { accepting = false })) served.0)
            served.1)
    | inr p ↦
        subst (λ b. length (acceptor_run start_handling es b).services ≤ suc (length a.services))
          (sym (acceptor_step_idle ec client a p)) (acceptor_run_stopped es a h)
  ]

  acceptor_step_serves :
      (client : C) (a : Acceptor S)
      → a.accepting ≡ true
      → a.is_stopped ≡ false
      → acceptor_step start_handling (accepts success client) a
        ≡ record a { accepting = true; services = a.services ++ (start_handling client ∷ []) }
  unfolding acceptor_step on_accept init_accept
  acceptor_step_serves client a p t = rw (p, t) refl

  -- Without errors and without stop() every client is served, in order.
  pub acceptor_run_serves :
      (clients : List C) (a : Acceptor S)
      → a.accepting ≡ true
      → a.is_stopped ≡ false
      → (acceptor_run start_handling (all_accepted clients) a).services
        ≡ a.services ++ all_services clients
  unfolding acceptor_run
  acceptor_run_serves [] a p t = sym (append-nil a.services)
  acceptor_run_serves (client ∷ clients) a p t =
      ap (λ b. (acceptor_run start_handling (all_accepted clients) b).services)
        (acceptor_step_serves client a p t)
      ∙ (acceptor_run_serves clients
            (record a { accepting = true; services = a.services ++ (start_handling client ∷ []) })
            refl t
          ∙ append_assoc a.services (start_handling client ∷ []) (all_services clients))

  -- After an accept that failed no client is served any more, whatever arrives.
  pub acceptor_run_failed :
      (ec : ErrorCode) (client : C) (es : List (AcceptorEvent C)) (a : Acceptor S)
      → is_error ec ≡ true
      → (acceptor_run start_handling (accepts ec client ∷ es) a).services ≡ a.services
  unfolding acceptor_run on_accept
  acceptor_run_failed ec client es a h = elim (Bool-cases a.accepting) [
    | inl p ↦
        ap (λ b. (acceptor_run start_handling es b).services)
          (acceptor_step_accepting ec client a p ∙ rw (h, on_accept) refl)
        ∙ acceptor_run_idle es (record a { accepting = false; errors = a.errors ++ (ec ∷ []) }) refl
    | inr p ↦
        ap (λ b. (acceptor_run start_handling es b).services) (acceptor_step_idle ec client a p)
        ∙ acceptor_run_idle es a p
  ]
