-- ===== src/AsyncTcpClient/Registry/Runs.antt =====
-- Every run keeps the map and the store in agreement.
use boost_asio_cpp_network_p.Common.{
  ℕ, zero, suc, ◌+◌, ◌≡◌, ◌≢◌, refl, sym, ap, ◌∙◌, subst, inl, inr, true, ◌&&◌, Option, none, some,
  List, [], ◌∷◌, ◌==◌, if◌then◌else◌, Bool-cases, Option-cases, arith,
}
use boost_asio_cpp_network_p.Asio.{
  ErrorCode, Completion, Result, ok, check, throws, aborts, bind_returned, ok-injective,
}
use boost_asio_cpp_network_p.LongOp.{prepare_request}
use boost_asio_cpp_network_p.AsyncTcpClient.{
  async_connect, Session, Client, new_client, Event, emulates, cancels, interrupts, completes,
  start, cancel, new_session, complete, find, session_at, cancel_session, cancel_found,
  complete_found, cancel_request, complete_at, emulate_long_computation_op, step, run,
}
use boost_asio_cpp_network_p.AsyncTcpClient.Registry.Maps.{session_at-change_at}
use boost_asio_cpp_network_p.AsyncTcpClient.Registry.{is_live, IsRegistry, new_client-IsRegistry}
use boost_asio_cpp_network_p.AsyncTcpClient.Registry.Changes.{
  added_registered, added_sound, cancelled_registered, cancelled_sound,
}
use boost_asio_cpp_network_p.AsyncTcpClient.Registry.Completed.{
  complete-Outcome, completed_registered, completed_sound,
}

-- A number is new if no session that is in the map has it. What is given to the client is a list of
-- events, each of whose new requests has a new number.
abbrev pub HasNewNumber : Event → Client → Type 0
HasNewNumber (emulates open_ec seconds id) client = find id client.active ≡ none
HasNewNumber _ client = Unit

cancel_session-IsRegistry :
    (ec : ErrorCode) (n : ℕ) (o : Option Session) (client : Client)
    → IsRegistry client
    → IsRegistry (cancel_session ec n o client).0
cancel_session-IsRegistry ec n none client r = r
cancel_session-IsRegistry ec n (some s) client r = record {
  registered = cancelled_registered ec client r n;
  sound = cancelled_sound ec client r n;
}

cancel_found-IsRegistry :
    (ec : ErrorCode) (o : Option ℕ) (client : Client)
    → IsRegistry client
    → IsRegistry (cancel_found ec o client).0
cancel_found-IsRegistry ec none client r = r
cancel_found-IsRegistry ec (some n) client r =
    cancel_session-IsRegistry ec n (session_at n client.sessions) client r

complete_found-IsRegistry :
    (o : Option Session) (n : ℕ) (c : Completion) (client : Client)
    → session_at n client.sessions ≡ o
    → IsRegistry client
    → IsRegistry (complete_found o n c client)
complete_found-IsRegistry none n c client e r = r
complete_found-IsRegistry (some s) n c client e r =
    let made = complete-Outcome c s client.active in
    record {
      registered = completed_registered client r n s (complete c (s, client.active)) e made;
      sound = completed_sound client r n s (complete c (s, client.active)) e made;
    }

step-IsRegistry :
    (e : Event) (client next : Client)
    → HasNewNumber e client
    → IsRegistry client
    → step e client ≡ ok next
    → IsRegistry next
unfolding step emulate_long_computation_op cancel_request complete_at new_session
step-IsRegistry (emulates ec seconds id) client next fresh r h =
    let opened = bind_returned _ (check ec) h in
    let s = start async_connect (new_session (prepare_request seconds) id) in
    subst IsRegistry (ok-injective _ next opened.2) (record {
      registered = added_registered s client r fresh refl;
      sound = added_sound s client r fresh refl;
    })
step-IsRegistry (cancels id ec) client next fresh r h =
    let returned = bind_returned _ (cancel_request id ec client).1 h in
    subst IsRegistry (ok-injective _ next returned.2)
      (cancel_found-IsRegistry ec (find id client.active) client r)
step-IsRegistry (interrupts n c ec) client next fresh r h =
    let returned = bind_returned _ (cancel_found ec (some n) (complete_at n c client)).1 h in
    subst IsRegistry (ok-injective _ next returned.2) (
      cancel_found-IsRegistry ec (some n) (complete_at n c client)
        (complete_found-IsRegistry (session_at n client.sessions) n c client refl r))
step-IsRegistry (completes n c) client next fresh r h =
    subst IsRegistry (ok-injective _ next h)
      (complete_found-IsRegistry (session_at n client.sessions) n c client refl r)

abbrev pub Holds : (Client → Type 0) → Result Client → Type 0
Holds P (ok client) = P client
Holds P (throws ec) = Unit
Holds P aborts = Unit

-- Each new request of a list of events has, when it is made, a number that is not in the map.
abbrev pub AllNewNumbers : List Event → Client → Type 0
AllNewNumbers [] client = Unit
AllNewNumbers (e ∷ es) client = HasNewNumber e client × Holds (AllNewNumbers es) (step e client)

run-IsRegistry :
    (es : List Event) (client next : Client)
    → AllNewNumbers es client
    → IsRegistry client
    → run es client ≡ ok next
    → IsRegistry next
unfolding run
run-IsRegistry [] client next n r h = subst IsRegistry (ok-injective client next h) r
run-IsRegistry (e ∷ es) client next n r h =
    let stepped = bind_returned (λ t. run es t) (step e client) h in
    run-IsRegistry es stepped.0 next (subst (Holds (AllNewNumbers es)) stepped.1 n.1)
      (step-IsRegistry e client stepped.0 n.0 r stepped.1) stepped.2

-- The abstract view: the place of the live session with a number, in the sessions from the place `n`.
abbrev pub owner : ℕ → ℕ → List Session → Option ℕ
owner id n [] = none
owner id n (s ∷ sessions) =
    let rest = owner id (suc n) sessions in
    if is_live s.pending && (s.id == id) then some n else rest

owner_found :
    (id n : ℕ) (sessions : List Session) (k : ℕ)
    → owner id n sessions ≡ some k
    → (h : ℕ) × (k ≡ n + h)
      × (s : Session) × (session_at h sessions ≡ some s)
      × (is_live s.pending ≡ true)
      × (s.id ≡ id)
owner_found id n [] k e = cc
owner_found id n (s ∷ sessions) k e = elim (Bool-cases (is_live s.pending && (s.id == id))) [
  | inl p ↦ (0, ground arith, s, refl, ground arith, ground arith)
  | inr p ↦
      let later = owner_found id (suc n) sessions k (ground arith) in
      (suc later.0, omega (arith, later.1), later.2, later.3, later.4, later.5)
]

owner_missing :
    (id n : ℕ) (sessions : List Session) (h : ℕ) (s : Session)
    → owner id n sessions ≡ none
    → session_at h sessions ≡ some s
    → is_live s.pending ≡ true
    → s.id ≢ id
owner_missing id n [] h s e f l = cc
owner_missing id n (x ∷ sessions) zero s e f l = ground arith
owner_missing id n (x ∷ sessions) (suc h) s e f l =
    owner_missing id (suc n) sessions h s (ground arith) f l

find-owner :
    (client : Client) (id : ℕ)
    → IsRegistry client
    → find id client.active ≡ owner id 0 client.sessions
find-owner client id r = elim (Option-cases (owner id 0 client.sessions)) [
  | inl p ↦ elim (Option-cases (find id client.active)) [
    | inl q ↦ q ∙ sym p
    | inr q ↦
        let s = r.sound id q.0 q.1 in
        absurd (owner_missing id 0 client.sessions q.0 s.0 p s.1 s.2 s.3)
  ]
  | inr p ↦
      let s = owner_found id 0 client.sessions p.0 p.1 in
      ap (λ i. find i client.active) (sym s.5)
      ∙ r.registered s.0 s.2 s.3 s.4
      ∙ ap some (omega (arith, s.1))
      ∙ sym p.1
]

-- If no request is given the number of one that is in the map, then at every time the map gives for
-- each number exactly the session with that number that is not over: what the client promises of
-- its map is what a search through all its sessions would find.
pub run_refines :
    (es : List Event) (client : Client) (id : ℕ)
    → AllNewNumbers es new_client
    → run es new_client ≡ ok client
    → find id client.active ≡ owner id 0 client.sessions
run_refines es client id n h =
    find-owner client id (run-IsRegistry es new_client client n new_client-IsRegistry h)

-- Under the same condition a request that is not over is cancelled by its number.
pub cancel_request_reaches :
    (es : List Event) (client : Client) (h : ℕ) (s : Session) (ec : ErrorCode)
    → AllNewNumbers es new_client
    → run es new_client ≡ ok client
    → session_at h client.sessions ≡ some s
    → is_live s.pending ≡ true
    → (session_at h (cancel_request s.id ec client).0.sessions ≡ some (cancel ec s).0)
unfolding cancel_request
cancel_request_reaches es client h s ec n e f l =
    let r = run-IsRegistry es new_client client n new_client-IsRegistry e in
    ap (λ o. session_at h (cancel_found ec o client).0.sessions) (r.registered h s f l)
    ∙ ap (λ o. session_at h (cancel_session ec h o client).0.sessions) f
    ∙ ground (arith, session_at-change_at (λ s. (cancel ec s).0) h h client.sessions)
