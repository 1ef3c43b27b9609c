-- ===== src/Shutdown/Invariant.antt =====
-- What is on the way and what has arrived, in every reachable state.
use boost_asio_cpp_network_p.Common.{
  ℕ, ◌≡◌, refl, sym, ap, subst, ◌≢◌, ◌∙◌, Bool, true, false, [], ◌∷◌, ◌++◌, append_assoc,
  append-nil, Bytes,
}
use boost_asio_cpp_network_p.Shutdown.Code.{request, response}
use boost_asio_cpp_network_p.Shutdown.Network.{
  ClientPc, ServerPc, System, start, Step, client_writes, client_shuts, client_reads, client_ends,
  server_reads, server_has_read, server_answers, server_closes, Reach, here, next,
}

-- What a side has sent, and whether it has shut its way, by the place in its code.
abbrev pub sent_request : ClientPc → Bytes
sent_request ClientPc.writing = []
sent_request _ = request

abbrev pub has_shut_request : ClientPc → Bool
has_shut_request ClientPc.writing = false
has_shut_request ClientPc.shutting = false
has_shut_request _ = true

abbrev pub sent_response : ServerPc → Bytes
sent_response ServerPc.receiving = []
sent_response ServerPc.answering = []
sent_response _ = response

abbrev pub has_shut_response : ServerPc → Bool
has_shut_response ServerPc.finished = true
has_shut_response _ = false

-- What a side knows when it has read to the end.
abbrev pub HasRequest : ServerPc → Bytes → Type 0
HasRequest ServerPc.receiving buf = Unit
HasRequest _ buf = buf ≡ request

abbrev pub HasResponse : ClientPc → ServerPc → Bytes → Type 0
HasResponse ClientPc.ended server buf = (buf ≡ response) × (server ≡ ServerPc.finished)
HasResponse _ server buf = Unit

pub record IsSound (s : System) : Type 0 where
  pub request_on_way : s.request_buf ++ s.request_way.bytes ≡ sent_request s.client
  pub request_shut : s.request_way.is_shut ≡ has_shut_request s.client
  pub response_on_way : s.response_buf ++ s.response_way.bytes ≡ sent_response s.server
  pub response_shut : s.response_way.is_shut ≡ has_shut_response s.server
  pub has_request : HasRequest s.server s.request_buf
  pub has_response : HasResponse s.client s.server s.response_buf

start-IsSound : IsSound start
start-IsSound = record {
  request_on_way = refl;
  request_shut = refl;
  response_on_way = refl;
  response_shut = refl;
  has_request = tt;
  has_response = tt;
}

finished_of_shut :
    (server : ServerPc) → has_shut_response server ≡ true → server ≡ ServerPc.finished
finished_of_shut ServerPc.finished h = refl
finished_of_shut ServerPc.receiving h = cc
finished_of_shut ServerPc.answering h = cc
finished_of_shut ServerPc.closing h = cc

sent_of_shut : (client : ClientPc) → has_shut_request client ≡ true → sent_request client ≡ request
sent_of_shut ClientPc.writing h = cc
sent_of_shut ClientPc.shutting h = refl
sent_of_shut ClientPc.reading h = refl
sent_of_shut ClientPc.ended h = refl

-- The client has not ended while the server goes on.
keep_response :
    (client : ClientPc) (v w : ServerPc) (buf : Bytes)
    → HasResponse client v buf
    → v ≢ ServerPc.finished
    → HasResponse client w buf
keep_response ClientPc.writing v w buf h n = tt
keep_response ClientPc.shutting v w buf h n = tt
keep_response ClientPc.reading v w buf h n = tt
keep_response ClientPc.ended v w buf h n = absurd (n h.1)

-- A way on which something is sent, and one from which a byte is taken.
sent_more : (buf bytes text : Bytes) → buf ++ bytes ≡ [] → buf ++ (bytes ++ text) ≡ text
sent_more buf bytes text h = sym (append_assoc buf bytes text) ∙ ap (λ t. t ++ text) h

taken :
    (buf bytes rest all : Bytes) (c : ℕ)
    → bytes ≡ c ∷ rest
    → buf ++ bytes ≡ all
    → (buf ++ (c ∷ [])) ++ rest ≡ all
taken buf bytes rest all c q h = append_assoc buf (c ∷ []) rest ∙ ap (◌++◌ buf) (sym q) ∙ h

all_taken : (buf bytes all : Bytes) → bytes ≡ [] → buf ++ bytes ≡ all → buf ≡ all
all_taken buf bytes all q h = sym (append-nil buf) ∙ ap (◌++◌ buf) (sym q) ∙ h

pub Step-IsSound : {s t : System} → Step s t → IsSound s → IsSound t
Step-IsSound {s} (client_writes p) i = record {
  request_on_way =
      sent_more s.request_buf s.request_way.bytes request (i.request_on_way ∙ ap sent_request p);
  request_shut = i.request_shut ∙ ap has_shut_request p;
  response_on_way = i.response_on_way;
  response_shut = i.response_shut;
  has_request = i.has_request;
  has_response = tt;
}
Step-IsSound {s} (client_shuts p) i = record {
  request_on_way = i.request_on_way ∙ ap sent_request p;
  request_shut = refl;
  response_on_way = i.response_on_way;
  response_shut = i.response_shut;
  has_request = i.has_request;
  has_response = tt;
}
Step-IsSound {s} (client_reads c rest p q) i = record {
  request_on_way = i.request_on_way;
  request_shut = i.request_shut;
  response_on_way =
      taken s.response_buf s.response_way.bytes rest (sent_response s.server) c q i.response_on_way;
  response_shut = i.response_shut;
  has_request = i.has_request;
  has_response = subst (λ k. HasResponse k s.server (s.response_buf ++ (c ∷ []))) (sym p) tt;
}
Step-IsSound {s} (client_ends p q r) i =
    let over = finished_of_shut s.server (sym i.response_shut ∙ r) in
    record {
      request_on_way = i.request_on_way ∙ ap sent_request p;
      request_shut = i.request_shut ∙ ap has_shut_request p;
      response_on_way = i.response_on_way;
      response_shut = i.response_shut;
      has_request = i.has_request;
      has_response = (
        all_taken s.response_buf s.response_way.bytes response q
            (i.response_on_way ∙ ap sent_response over),
        over,
      );
    }
Step-IsSound {s} (server_reads c rest p q) i = record {
  request_on_way =
      taken s.request_buf s.request_way.bytes rest (sent_request s.client) c q i.request_on_way;
  request_shut = i.request_shut;
  response_on_way = i.response_on_way;
  response_shut = i.response_shut;
  has_request = subst (λ k. HasRequest k (s.request_buf ++ (c ∷ []))) (sym p) tt;
  has_response = i.has_response;
}
Step-IsSound {s} (server_has_read p q r) i = record {
  request_on_way = i.request_on_way;
  request_shut = i.request_shut;
  response_on_way = i.response_on_way ∙ ap sent_response p;
  response_shut = i.response_shut ∙ ap has_shut_response p;
  has_request =
      all_taken s.request_buf s.request_way.bytes request q
        (i.request_on_way ∙ sent_of_shut s.client (sym i.request_shut ∙ r));
  has_response =
      keep_response s.client s.server ServerPc.answering s.response_buf i.has_response (λ e. cc);
}
Step-IsSound {s} (server_answers p) i = record {
  request_on_way = i.request_on_way;
  request_shut = i.request_shut;
  response_on_way =
      sent_more s.response_buf s.response_way.bytes response
        (i.response_on_way ∙ ap sent_response p);
  response_shut = i.response_shut ∙ ap has_shut_response p;
  has_request = subst (λ k. HasRequest k s.request_buf) p i.has_request;
  has_response =
      keep_response s.client s.server ServerPc.closing s.response_buf i.has_response (λ e. cc);
}
Step-IsSound {s} (server_closes p) i = record {
  request_on_way = i.request_on_way;
  request_shut = i.request_shut;
  response_on_way = i.response_on_way ∙ ap sent_response p;
  response_shut = refl;
  has_request = subst (λ k. HasRequest k s.request_buf) p i.has_request;
  has_response =
      keep_response s.client s.server ServerPc.finished s.response_buf i.has_response (λ e. cc);
}

pub Reach-IsSound : {s : System} → Reach start s → IsSound s
Reach-IsSound here = start-IsSound
Reach-IsSound (next r st) = Step-IsSound st (Reach-IsSound r)
