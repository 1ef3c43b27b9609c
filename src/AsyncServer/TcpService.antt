-- ===== src/AsyncServer/TcpService.antt =====
-- The class Service of tcp_asynchronous.cpp: one connection, from the request to the response. The
-- object belongs to the operation that is pending; with none pending it has been destroyed.
use boost_asio_cpp_network_p.Common.{
  ◌≡◌, refl, ap, ◌∙◌, append-nil, Bool-cases, inl, inr, Option, none, some, List, [], ◌∷◌, ◌++◌,
  Bytes, if◌then◌else◌,
}
use boost_asio_cpp_network_p.Asio.{ErrorCode, success, Completion, arrives, is_error}
use boost_asio_cpp_network_p.Cxx.Signed.{ℤ, FitsInt}
use boost_asio_cpp_network_p.LongOp.{
  Processed, process_buffer, done, prepare_request, process_buffer-prepare_request,
}

pub data Operation : Type 0 where
  read_request : Operation
  write_response : Bytes → Operation

-- `slept` holds how long the requests kept a thread, `responses` what was written, `errors` what was
-- printed as an error.
pub record TcpService : Type 0 where
  pub request : Bytes
  pub response : Bytes
  pub pending : Option Operation
  pub slept : Option ℤ
  pub responses : List Bytes
  pub errors : List ErrorCode

unfoldable pub start_handling : TcpService
start_handling = record {
  request = [];
  response = [];
  pending = some read_request;
  slept = none;
  responses = [];
  errors = [];
}

abbrev pub start_write : Processed → TcpService → TcpService
start_write p s = record s {
  response = p.response;
  slept = p.slept;
  pending = some (write_response p.response);
  responses = s.responses ++ (p.response ∷ []);
}

unfoldable pub on_request_received : ErrorCode → TcpService → TcpService
on_request_received ec s =
    if is_error ec
    then record s { errors = s.errors ++ (ec ∷ []) }
    else start_write (process_buffer s.request) s

-- The code prints an error where there is none.
unfoldable pub on_response_sent : ErrorCode → TcpService → TcpService
on_response_sent ec s = if is_error ec then s else record s { errors = s.errors ++ (ec ∷ []) }

unfoldable pub dispatch : Operation → Completion → TcpService → TcpService
dispatch read_request c s = on_request_received c.ec s
dispatch (write_response response) c s = on_response_sent c.ec s

unfoldable pub complete : Completion → TcpService → TcpService
complete c s = elim s.pending [
  | none ↦ s
  | some op ↦ dispatch op c (record s { pending = none; request = s.request ++ c.received })
]

unfoldable pub run : List Completion → TcpService → TcpService
run [] s = s
run (c ∷ cs) s = run cs (complete c s)

-- What is printed once the response has been sent, or has not.
abbrev pub printed : ErrorCode → List ErrorCode
printed ec = if is_error ec then [] else ec ∷ []

-- The object that has answered `request`.
abbrev pub answered : Bytes → Processed → ErrorCode → TcpService
answered request p write_ec = record {
  request = request;
  response = p.response;
  pending = none;
  slept = p.slept;
  responses = p.response ∷ [];
  errors = printed write_ec;
}

run_ended : (cs : List Completion) (s : TcpService) → s.pending ≡ none → run cs s ≡ s
unfolding run complete
run_ended [] s h = refl
run_ended (c ∷ cs) s h =
    ap (run cs) (
      ap
        (λ pending. elim pending [
          | none ↦ s
          | some op ↦ dispatch op c (record s { pending = none; request = s.request ++ c.received })
        ])
        h)
    ∙ run_ended cs s h

on_response_sent_lem :
    (request : Bytes) (p : Processed) (ec : ErrorCode)
    → on_response_sent ec (record (answered request p ec) { errors = [] }) ≡ answered request p ec
unfolding on_response_sent
on_response_sent_lem request p ec = elim (Bool-cases (is_error ec)) [
  | inl e ↦ rw e refl
  | inr e ↦ rw e refl
]

-- A client that asks for a number of seconds that fits int is served for that time and answered by
-- OK, once, and the object is gone when the write ends; "Error occured" is printed exactly if the
-- write did not fail.
pub run-prepare_request :
    (z : ℤ) (rest : Bytes) (write_ec : ErrorCode) (cs : List Completion)
    → FitsInt z
    → run (arrives success (prepare_request z ++ rest) ∷ arrives write_ec [] ∷ cs) start_handling
      ≡ answered (prepare_request z ++ rest) (done z) write_ec
unfolding run complete dispatch on_request_received on_response_sent start_handling
run-prepare_request z rest write_ec cs h =
    let text = prepare_request z ++ rest in
    ap (run cs) (rw (append-nil text) (on_response_sent_lem text (process_buffer text) write_ec))
    ∙ run_ended cs (answered text (process_buffer text) write_ec) refl
    ∙ ap (λ p. answered text p write_ec) (process_buffer-prepare_request z rest h)
