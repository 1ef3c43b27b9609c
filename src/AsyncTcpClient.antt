-- ===== src/AsyncTcpClient.antt =====
-- The asynchronous client, tcp_asynchronous.cpp: the class Session, which is the context of one
-- request, and AsyncTCPClient with its map of the active sessions. The callback of a session is
-- known by its calls. The shutdown of the socket is left out: its error code is ignored.
mod Sessions
mod Lifecycle
mod Registry
mod Closing
mod Examples
use boost_asio_cpp_network_p.Common.{
  ℕ, zero, suc, ◌==◌, Bool, true, false, Option, none, some, List, [], ◌∷◌, ◌++◌, Bytes, codes,
  length, if◌then◌else◌,
}
use boost_asio_cpp_network_p.Asio.{
  ErrorCode, operation_aborted, Completion, Result, ok, ◌>>=◌, ◌>>◌, check, is_error,
}
use boost_asio_cpp_network_p.Cxx.Stream.{fresh, getline}
use boost_asio_cpp_network_p.Cxx.Signed.{ℤ}
use boost_asio_cpp_network_p.LongOp.{prepare_request}

-- The operations of BaseSession, with what is written and the delimiter of the read.
pub data Operation : Type 0 where
  async_connect : Operation
  async_write : Bytes → Operation
  async_read_until : Bytes → Operation

-- The arguments of the callback behind the request's number.
pub record Call : Type 0 where
  pub response : Bytes
  pub ec : ErrorCode

pub record Session : Type 0 where
  pub id : ℕ
  pub request : Bytes
  pub response_buf : Bytes
  pub was_cancelled : Bool
  pub pending : Option Operation
  pub calls : List Call

-- m_active_sessions: the sessions by their numbers, a session given by its place in the store.
abbrev pub Active : Type 0
Active = List (ℕ × ℕ)

abbrev pub erase : ℕ → Active → Active
erase id [] = []
erase id (entry ∷ active) =
    let rest = erase id active in if entry.0 == id then rest else entry ∷ rest

abbrev pub insert : ℕ → ℕ → Active → Active
insert id handle active = (id, handle) ∷ erase id active

abbrev pub find : ℕ → Active → Option ℕ
find id [] = none
find id (entry ∷ active) = let rest = find id active in if entry.0 == id then some entry.1 else rest

unfoldable pub new_session : Bytes → ℕ → Session
new_session request id = record {
  id = id;
  request = request;
  response_buf = [];
  was_cancelled = false;
  pending = none;
  calls = [];
}

abbrev pub start : Operation → Session → Session
start op s = record s { pending = some op }

-- Session::cancel, with how the cancel of the socket ends, which throws; what it does to the pending
-- operation is seen in how that completes.
unfoldable pub cancel : ErrorCode → Session → Session × Result (Unit {0})
cancel ec s = (record s { was_cancelled = true }, check ec)

unfoldable pub invoke_callback : ErrorCode → Session → Session
invoke_callback ec s =
    let line = getline 10 [] (fresh s.response_buf) in
    record s {
      response_buf = line.1.chars;
      calls = s.calls ++ (record { response = line.0; ec = ec } ∷ []);
    }

-- The handlers change a session and the map.
abbrev pub Work : Type 0
Work = Session × Active

unfoldable pub on_request_complete : ErrorCode → Bool → Work → Work
on_request_complete ec cancelled w =
    (invoke_callback (if cancelled then operation_aborted else ec) w.0, erase w.0.id w.1)

-- A handler goes on to the next operation if there was no error and no cancellation.
abbrev pub continue : Operation → ErrorCode → Work → Work
continue next ec w =
    if is_error ec
    then on_request_complete ec false w
    else if w.0.was_cancelled
    then on_request_complete ec true w
    else (start next w.0, w.1)

unfoldable pub on_connect : ErrorCode → Work → Work
on_connect ec w = continue (async_write w.0.request) ec w

unfoldable pub on_write_complete : ErrorCode → Work → Work
on_write_complete ec w = continue (async_read_until (10 ∷ [])) ec w

-- The handler of the read. A cancellation that comes between its test of the flag and the callback
-- is the event `interrupts`.
unfoldable pub on_read_complete : ErrorCode → Work → Work
on_read_complete ec w = on_request_complete ec w.0.was_cancelled w

unfoldable pub dispatch : Operation → ErrorCode → Work → Work
dispatch async_connect ec w = on_connect ec w
dispatch (async_write text) ec w = on_write_complete ec w
dispatch (async_read_until delim) ec w = on_read_complete ec w

abbrev pub dispatch_pending : Option Operation → Completion → Work → Work
dispatch_pending none c w = w
dispatch_pending (some op) c w =
    dispatch op c.ec
      (record w.0 { pending = none; response_buf = w.0.response_buf ++ c.received }, w.1)

-- The pending operation of a session ends.
unfoldable pub complete : Completion → Work → Work
complete c w = dispatch_pending w.0.pending c w

pub record Client : Type 0 where
  pub sessions : List Session
  pub active : Active

abbrev pub new_client : Client
new_client = record { sessions = []; active = [] }

-- A session is opened, which may throw, is added to the map, and connects.
unfoldable pub emulate_long_computation_op : ErrorCode → ℤ → ℕ → Client → Result Client
emulate_long_computation_op open_ec seconds request_id client =
    check open_ec
    >> ok (record {
      sessions =
          client.sessions
          ++ (start async_connect (new_session (prepare_request seconds) request_id) ∷ []);
      active = insert request_id (length client.sessions) client.active;
    })

abbrev pub change_at : (Session → Session) → ℕ → List Session → List Session
change_at f n [] = []
change_at f zero (s ∷ sessions) = f s ∷ sessions
change_at f (suc n) (s ∷ sessions) = s ∷ change_at f n sessions

abbrev pub session_at : ℕ → List Session → Option Session
session_at n [] = none
session_at zero (s ∷ sessions) = some s
session_at (suc n) (s ∷ sessions) = session_at n sessions

-- A session that is found is cancelled, and what its cancel() throws is passed on.
abbrev pub cancel_session : ErrorCode → ℕ → Option Session → Client → Client × Result (Unit {0})
cancel_session ec handle none client = (client, ok tt)
cancel_session ec handle (some s) client = (
  record client { sessions = change_at (λ t. (cancel ec t).0) handle client.sessions },
  (cancel ec s).1,
)

abbrev pub cancel_found : ErrorCode → Option ℕ → Client → Client × Result (Unit {0})
cancel_found ec none client = (client, ok tt)
cancel_found ec (some handle) client =
    cancel_session ec handle (session_at handle client.sessions) client

unfoldable pub cancel_request : ℕ → ErrorCode → Client → Client × Result (Unit {0})
cancel_request request_id ec client = cancel_found ec (find request_id client.active) client

abbrev pub complete_found : Option Session → ℕ → Completion → Client → Client
complete_found none handle c client = client
complete_found (some s) handle c client =
    let done = complete c (s, client.active) in
    record { sessions = change_at (λ _. done.0) handle client.sessions; active = done.1 }

unfoldable pub complete_at : ℕ → Completion → Client → Client
complete_at handle c client = complete_found (session_at handle client.sessions) handle c client

-- cancelRequest is called from another thread: `cancels` is one that comes while no handler of its
-- session runs, and `interrupts` one that has found its session in the map while a handler runs,
-- behind the handler's test of the flag, so that it takes effect behind the handler.
pub data Event : Type 0 where
  emulates : ErrorCode → ℤ → ℕ → Event
  cancels : ℕ → ErrorCode → Event
  interrupts : ℕ → Completion → ErrorCode → Event
  completes : ℕ → Completion → Event

abbrev pub unless_thrown : Client × Result (Unit {0}) → Result Client
unless_thrown done = done.1 >> ok done.0

unfoldable pub step : Event → Client → Result Client
step (emulates open_ec seconds request_id) client =
    emulate_long_computation_op open_ec seconds request_id client
step (cancels request_id ec) client = unless_thrown (cancel_request request_id ec client)
step (interrupts handle c ec) client =
    unless_thrown (cancel_found ec (some handle) (complete_at handle c client))
step (completes handle c) client = ok (complete_at handle c client)

unfoldable pub run : List Event → Client → Result Client
run [] client = ok client
run (e ∷ es) client = step e client >>= λ next. run es next
