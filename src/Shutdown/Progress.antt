-- ===== src/Shutdown/Progress.antt =====
-- The two programs always come to their ends, with both messages whole.
use boost_asio_cpp_network_p.Common.{
  ℕ, suc, ◌+◌, ◌<◌, ◌≤◌, ◌≡◌, refl, ap, subst, ◌∙◌, ◌⊎◌, inl, inr, true, [], ◌∷◌, Bytes, length,
  length-append, arith,
}
use boost_asio_cpp_network_p.Shutdown.Code.{request, response, communicate, process_request}
use boost_asio_cpp_network_p.Shutdown.Printing.{communicate-response, process_request-request}
use boost_asio_cpp_network_p.Asio.{success, eof, ok}
use boost_asio_cpp_network_p.Shutdown.Network.{
  ClientPc, ServerPc, System, start, Step, client_writes, client_shuts, client_reads, client_ends,
  server_reads, server_has_read, server_answers, server_closes, Reach, here, next,
}
use boost_asio_cpp_network_p.Shutdown.Invariant.{
  IsSound, has_shut_request, has_shut_response, HasResponse, HasRequest, Reach-IsSound,
}

-- The steps that are left at most.
abbrev client_work : ClientPc → ℕ
client_work ClientPc.writing = 9
client_work ClientPc.shutting = 2
client_work ClientPc.reading = 1
client_work ClientPc.ended = 0

abbrev server_work : ServerPc → ℕ
server_work ServerPc.receiving = 6
server_work ServerPc.answering = 5
server_work ServerPc.closing = 1
server_work ServerPc.finished = 0

abbrev work : System → ℕ
work s =
    client_work s.client
    + server_work s.server
    + length s.request_way.bytes
    + length s.response_way.bytes

work-Step : {s t : System} → Step s t → work t < work s
work-Step {s} (client_writes p) =
    omega (arith, ap client_work p, length-append s.request_way.bytes request)
work-Step {s} (client_shuts p) = omega (arith, ap client_work p)
work-Step {s} (client_reads c rest p q) = omega (arith, ap length q)
work-Step {s} (client_ends p q r) = omega (arith, ap client_work p)
work-Step {s} (server_reads c rest p q) = omega (arith, ap length q)
work-Step {s} (server_has_read p q r) = omega (arith, ap server_work p)
work-Step {s} (server_answers p) =
    omega (arith, ap server_work p, length-append s.response_way.bytes response)
work-Step {s} (server_closes p) = omega (arith, ap server_work p)

-- Both programs have come to their ends.
abbrev pub IsOver : System → Type 0
IsOver s = (s.client ≡ ClientPc.ended) × (s.server ≡ ServerPc.finished)

-- A side that reads takes a byte, or sees the end.
client_goes_on :
    (s : System) (bytes : Bytes)
    → s.client ≡ ClientPc.reading
    → s.response_way.bytes ≡ bytes
    → s.response_way.is_shut ≡ true
    → (t : System) × Step s t
client_goes_on s [] p q r = (_, client_ends p q r)
client_goes_on s (c ∷ rest) p q r = (_, client_reads c rest p q)

server_goes_on :
    (s : System) (bytes : Bytes)
    → s.server ≡ ServerPc.receiving
    → s.request_way.bytes ≡ bytes
    → s.request_way.is_shut ≡ true
    → (t : System) × Step s t
server_goes_on s [] p q r = (_, server_has_read p q r)
server_goes_on s (c ∷ rest) p q r = (_, server_reads c rest p q)

goes_on :
    (client : ClientPc) (server : ServerPc) (s : System)
    → s.client ≡ client
    → s.server ≡ server
    → IsSound s
    → IsOver s ⊎ ((t : System) × Step s t)
goes_on ClientPc.writing server s p q i = inr (_, client_writes p)
goes_on ClientPc.shutting server s p q i = inr (_, client_shuts p)
goes_on ClientPc.ended server s p q i =
    inl (p, (subst (λ k. HasResponse k s.server s.response_buf) p i.has_response).1)
goes_on ClientPc.reading ServerPc.receiving s p q i =
    inr (server_goes_on s s.request_way.bytes q refl (i.request_shut ∙ ap has_shut_request p))
goes_on ClientPc.reading ServerPc.answering s p q i = inr (_, server_answers q)
goes_on ClientPc.reading ServerPc.closing s p q i = inr (_, server_closes q)
goes_on ClientPc.reading ServerPc.finished s p q i =
    inr (client_goes_on s s.response_way.bytes p refl (i.response_shut ∙ ap has_shut_response q))

-- There is no deadlock: from every state that the two programs can reach, one of them can go on,
-- unless both have ended.
pub Reach_goes_on : {s : System} → Reach start s → IsOver s ⊎ ((t : System) × Step s t)
Reach_goes_on {s} r = goes_on s.client s.server s refl refl (Reach-IsSound r)

-- When the client has ended, the server has too, and each has the other's message, whole: the
-- client prints the response, and the server the request with the zero byte in it.
pub Reach_delivers :
    {s : System}
    → Reach start s
    → s.client ≡ ClientPc.ended
    → (s.server ≡ ServerPc.finished)
      × (communicate success success eof s.response_buf ≡ ok (response ∷ []))
      × (process_request eof s.request_buf success success ≡ (request ∷ [], ok tt))
Reach_delivers {s} r p =
    let i = Reach-IsSound r in
    let e = subst (λ k. HasResponse k s.server s.response_buf) p i.has_response in
    let got : s.request_buf ≡ request = subst (λ k. HasRequest k s.request_buf) e.1 i.has_request in
    (
      e.1,
      ap (communicate success success eof) e.0 ∙ communicate-response,
      ap (λ b. process_request eof b success success) got ∙ process_request-request,
    )

-- The length of a run.
abbrev pub steps : {s t : System} → Reach s t → ℕ
steps here = 0
steps (next r st) = suc (steps r)

-- Each step leaves less to do.
steps-work : {s : System} (r : Reach start s) → steps r + work s ≤ 15
steps-work here = omega arith
steps-work (next r st) = omega (arith, work-Step st, steps-work r)

-- Whatever steps the two programs take and in whatever order, they take fifteen at most, and as long
-- as they have not both come to their ends, one of them can take another: every run that goes on as
-- long as it can ends with both programs at their ends.
pub Reach_finishes :
    {s : System} (r : Reach start s) → (steps r ≤ 15) × (IsOver s ⊎ ((t : System) × Step s t))
Reach_finishes r = (omega (arith, steps-work r), Reach_goes_on r)
