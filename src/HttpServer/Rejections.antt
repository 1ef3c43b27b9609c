-- ===== src/HttpServer/Rejections.antt =====
-- Requests that are refused, and reads that fail.
use boost_asio_cpp_network_p.Common.{
  ◌≡◌, ◌≢◌, refl, sym, true, false, none, [], ◌∷◌, ◌++◌, Bytes, codes, inl, inr, Bool-cases, beq,
  eq_of_beq,
}
use boost_asio_cpp_network_p.Asio.{
  arrives, ErrorCode, success, not_found, ok, is_error, is_not_found, >>=-ok,
}
use boost_asio_cpp_network_p.Cxx.Stream.{extract, getline, fresh, Stream}
use boost_asio_cpp_network_p.HttpServer.Files.{FileSystem}
use boost_asio_cpp_network_p.HttpServer.Service.{
  Service, parse_request_line, check_line, crlf, start_handling, on_request_received, send_response,
  http_status, status_line,
}
use boost_asio_cpp_network_p.HttpServer.Machine.{dispatch, complete, run}
use boost_asio_cpp_network_p.HttpServer.Responses.{Answers, send_response-Answers}

-- The first word of the request line, the stream behind it, and the third word.
abbrev pub method_of : Bytes → Bytes
method_of text = (extract [] (fresh (getline 13 [] (fresh text)).0)).0

abbrev behind_method : Bytes → Stream
behind_method text = (extract [] (fresh (getline 13 [] (fresh text)).0)).1

abbrev pub version_of : Bytes → Bytes
version_of text = (extract [] (extract [] (behind_method text)).1).0

beq_ne : (s t : Bytes) → t ≢ s → beq s t ≡ false
beq_ne s t h = elim (Bool-cases (beq s t)) [
  | inl e ↦ absurd (h (sym (eq_of_beq s t e)))
  | inr e ↦ e
]

module _ (fs : FileSystem) (unspecified root text : Bytes) where
  -- Whatever else the text holds, a method other than GET is answered by status 501 with no body.
  pub run_rejects_method :
      method_of text ≢ codes "GET"
      → Answers
          (run fs unspecified (arrives success text ∷ []) (start_handling root))
          (status_line (codes "501 Not Implemented") ∷ (crlf ++ crlf) ∷ [])
  unfolding run complete dispatch start_handling on_request_received parse_request_line check_line
      http_status
  run_rejects_method h = rw (beq_ne (codes "GET") (method_of text) h) (
      rw (>>=-ok (send_response success _))
        (send_response-Answers _ (codes "501 Not Implemented") refl refl))

  -- GET with a version other than HTTP/1.1 is answered by status 505 with no body.
  pub run_rejects_version :
      method_of text ≡ codes "GET"
      → version_of text ≢ codes "HTTP/1.1"
      → Answers
          (run fs unspecified (arrives success text ∷ []) (start_handling root))
          (status_line (codes "505 HTTP Version Not Supported") ∷ (crlf ++ crlf) ∷ [])
  unfolding run complete dispatch start_handling on_request_received parse_request_line check_line
      http_status
  run_rejects_version g h =
      rw (g, beq_ne (codes "HTTP/1.1") (version_of text) h)
        (rw (>>=-ok (send_response success _))
          (send_response-Answers _ (codes "505 HTTP Version Not Supported") refl refl))

  -- A request line with no end in a full buffer is answered by status 413 with no body.
  pub run_rejects_long :
      Answers
        (run fs unspecified (arrives not_found text ∷ []) (start_handling root))
        (status_line (codes "413 Request Entity Too Large") ∷ (crlf ++ crlf) ∷ [])
  unfolding run complete dispatch start_handling on_request_received http_status
  run_rejects_long =
      rw (>>=-ok (send_response _ _))
        (send_response-Answers _ (codes "413 Request Entity Too Large") refl refl)

  -- Any other error of the read closes the connection with no response, and is logged.
  pub run_drops :
      (ec : ErrorCode)
      → is_error ec ≡ true
      → is_not_found ec ≡ false
      → (t : Service) × (run fs unspecified (arrives ec text ∷ []) (start_handling root) ≡ ok t)
        × (t.pending ≡ none)
        × (t.responses ≡ [])
        × (t.errors ≡ ec ∷ [])
  unfolding run complete dispatch start_handling on_request_received
  run_drops ec e n = rw (e, n) (_, refl, refl, refl, refl)
