-- ===== src/AsyncTcpClient/Closing.antt =====
-- close() of AsyncTCPClient with its I/O thread, the handler that prints, and main.
pub mod Drained
pub mod Main
use boost_asio_cpp_network_p.Common.{
  ℕ, Bool, true, false, not, ◌&&◌, List, [], ◌∷◌, ◌++◌, Bytes, if◌then◌else◌,
}
use boost_asio_cpp_network_p.Asio.{
  ErrorCode, Completion, Result, ok, throws, aborts, ◌>>=◌, is_error, is_aborted,
}
use boost_asio_cpp_network_p.Cxx.Signed.{pos}
use boost_asio_cpp_network_p.Programs.{
  Exit, zero_status, value, terminated, blocked, destroy_thread,
}
use boost_asio_cpp_network_p.AsyncTcpClient.{
  Call, Session, Client, new_client, Event, emulates, cancels, completes, run, complete_at,
}
use boost_asio_cpp_network_p.AsyncTcpClient.Registry.{is_live}

-- What the handler prints.
pub data Printed : Type 0 where
  has_completed : ℕ → Bytes → Printed
  has_been_cancelled : ℕ → Printed
  has_failed : ℕ → ErrorCode → Printed

unfoldable pub handler : ℕ → Call → Printed
handler request_id call =
    if is_error call.ec
    then (if is_aborted call.ec
        then has_been_cancelled request_id
        else has_failed request_id call.ec)
    else has_completed request_id call.response

abbrev pub print_calls : ℕ → List Call → List Printed
print_calls request_id [] = []
print_calls request_id (call ∷ calls) = handler request_id call ∷ print_calls request_id calls

abbrev pub printed : Session → List Printed
printed s = print_calls s.id s.calls

-- The client with its work object, which keeps the I/O thread in io_context::run, and with the
-- thread, which is joinable until it has been joined.
pub record Program : Type 0 where
  pub client : Client
  pub has_work : Bool
  pub joinable : Bool

-- The constructor starts the thread.
abbrev pub new_program : Client → Program
new_program client = record { client = client; has_work = true; joinable = true }

abbrev pub is_idle : List Session → Bool
is_idle [] = true
is_idle (s ∷ sessions) = not (is_live s.pending) && is_idle sessions

-- The I/O thread leaves run() when there is no work object and nothing is pending.
unfoldable pub thread_ends : Program → Bool
thread_ends p = not p.has_work && is_idle p.client.sessions

-- The work object is destroyed; then close() waits for the thread.
unfoldable pub close : Program → Program
close p = record p { has_work = false }

-- Completions of the sessions' operations, each with the place of its session.
abbrev pub Completions : Type 0
Completions = List (ℕ × Completion)

unfoldable pub drain : Completions → Client → Client
drain [] client = client
drain (c ∷ cs) client = drain cs (complete_at c.0 c.1 client)

abbrev pub as_events : Completions → List Event
as_events [] = []
as_events (c ∷ cs) = completes c.0 c.1 ∷ as_events cs

-- What completes behind each of the four calls in main.
pub record Schedule : Type 0 where
  pub after_first : Completions
  pub after_second : Completions
  pub after_cancel : Completions
  pub after_third : Completions

abbrev pub main_events : ErrorCode → ErrorCode → ErrorCode → ErrorCode → Schedule → List Event
main_events first second cancel_ec third s =
    emulates first (pos 10) 1 ∷ as_events s.after_first
    ++ (emulates second (pos 11) 2 ∷ as_events s.after_second
        ++ (cancels 1 cancel_ec ∷ as_events s.after_cancel
            ++ (emulates third (pos 12) 3 ∷ as_events s.after_third)))

-- close() waits for the thread, and has then joined it.
abbrev pub joined : Program → Program
joined p = record p { joinable = false }

-- The client is destroyed at the end of its block, its thread with it.
abbrev pub exit_of_close : Program → Exit
exit_of_close p = if thread_ends p then destroy_thread (joined p).joinable zero_status else blocked

-- What the calls throw leaves the block before close() has joined the thread; the handler in main,
-- which returns the value, comes behind the destructor.
abbrev pub exit_of_client : Result Client → Exit
exit_of_client (ok client) = exit_of_close (close (new_program client))
exit_of_client (throws ec) = destroy_thread (new_program new_client).joinable (value ec)
exit_of_client aborts = terminated

-- main, in which cancelRequest comes between two handlers; how the three sessions are opened and how
-- the cancel of the socket ends, in the order of the calls.
unfoldable pub main_async_client : ErrorCode → ErrorCode → ErrorCode → ErrorCode → Schedule → Exit
main_async_client first second cancel_ec third s =
    exit_of_client (run (main_events first second cancel_ec third s) new_client)
