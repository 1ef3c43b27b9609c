-- ===== src/Shutdown/Network.antt =====
-- The two programs on one connection. Each side takes the steps of its code in their order; what is
-- on the way arrives byte by byte, and eof once the way is empty and shut. No call fails
-- here; Code has what an error makes of them.
use boost_asio_cpp_network_p.Common.{ℕ, ◌≡◌, Bool, true, false, [], ◌∷◌, ◌++◌, Bytes}
use boost_asio_cpp_network_p.Shutdown.Code.{request, response}

-- Where communicate is, in front of its write, its shutdown, in its read, or at its end.
pub data ClientPc : Type 0 where
  writing shutting reading ended : ClientPc

-- Where processRequest is.
pub data ServerPc : Type 0 where
  receiving answering closing finished : ServerPc

pub record Way : Type 0 where
  pub bytes : Bytes
  pub is_shut : Bool

pub record System : Type 0 where
  pub client : ClientPc
  pub server : ServerPc
  pub request_way : Way
  pub response_way : Way
  pub request_buf : Bytes
  pub response_buf : Bytes

abbrev pub start : System
start = record {
  client = ClientPc.writing;
  server = ServerPc.receiving;
  request_way = record { bytes = []; is_shut = false };
  response_way = record { bytes = []; is_shut = false };
  request_buf = [];
  response_buf = [];
}

abbrev pub put : Bytes → Way → Way
put text way = record way { bytes = way.bytes ++ text }

abbrev pub shut : Way → Way
shut way = record way { is_shut = true }

pub data Step (s : System) : System → Type 0 where
  client_writes :
      s.client ≡ ClientPc.writing
      → Step s (record s { client = ClientPc.shutting; request_way = put request s.request_way })
  client_shuts :
      s.client ≡ ClientPc.shutting
      → Step s (record s { client = ClientPc.reading; request_way = shut s.request_way })
  client_reads :
      (c : ℕ) (rest : Bytes)
      → s.client ≡ ClientPc.reading
      → s.response_way.bytes ≡ c ∷ rest
      → Step s (record s {
        response_way = record s.response_way { bytes = rest };
        response_buf = s.response_buf ++ (c ∷ []);
      })
  client_ends :
      s.client ≡ ClientPc.reading
      → s.response_way.bytes ≡ []
      → s.response_way.is_shut ≡ true
      → Step s (record s { client = ClientPc.ended })
  server_reads :
      (c : ℕ) (rest : Bytes)
      → s.server ≡ ServerPc.receiving
      → s.request_way.bytes ≡ c ∷ rest
      → Step s (record s {
        request_way = record s.request_way { bytes = rest };
        request_buf = s.request_buf ++ (c ∷ []);
      })
  server_has_read :
      s.server ≡ ServerPc.receiving
      → s.request_way.bytes ≡ []
      → s.request_way.is_shut ≡ true
      → Step s (record s { server = ServerPc.answering })
  server_answers :
      s.server ≡ ServerPc.answering
      → Step s (record s { server = ServerPc.closing; response_way = put response s.response_way })
  server_closes :
      s.server ≡ ServerPc.closing
      → Step s (record s { server = ServerPc.finished; response_way = shut s.response_way })

pub data Reach (s : System) : System → Type 0 where
  here : Reach s s
  next : {t u : System} → Reach s t → Step t u → Reach s u
