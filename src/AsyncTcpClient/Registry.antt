-- ===== src/AsyncTcpClient/Registry.antt =====
-- The map of active sessions, m_active_sessions of tcp_asynchronous.cpp, against the store of
-- sessions.
mod Maps
mod Changes
mod Completed
pub mod Runs
use boost_asio_cpp_network_p.Common.{
  ℕ, zero, suc, ◌+◌, ◌≡◌, ◌≢◌, refl, sym, ap, ◌∙◌, subst, ◌⊎◌, inl, inr, Bool, true, false, ◌&&◌,
  Option, none, some, List, [], ◌∷◌, ◌++◌, Bytes, length, ◌==◌, if◌then◌else◌, Bool-cases,
  Option-cases, ==_iff, arith,
}
use boost_asio_cpp_network_p.Asio.{
  ErrorCode, Completion, Result, ok, ◌>>=◌, ◌>>◌, check, is_error, bind_returned, ok-injective,
}
use boost_asio_cpp_network_p.Cxx.Signed.{ℤ}
use boost_asio_cpp_network_p.LongOp.{prepare_request}
use boost_asio_cpp_network_p.AsyncTcpClient.{
  Operation, async_connect, async_write, async_read_until, Session, Active, Client, new_client,
  Event, emulates, cancels, completes, Work, start, cancel, new_session, invoke_callback,
  on_request_complete, continue, on_connect, on_write_complete, on_read_complete, dispatch,
  dispatch_pending, complete, insert, erase, find, change_at, session_at, cancel_found,
  complete_found, cancel_request, complete_at, emulate_long_computation_op, step, run,
}

-- A session that is not over.
abbrev pub is_live : Option Operation → Bool
is_live none = false
is_live (some op) = true

-- The map and the store agree: a live session is found by its number, and what is found by a number
-- is a live session with that number.
pub record IsRegistry (client : Client) : Type 0 where
  pub registered :
      (h : ℕ) (s : Session)
      → session_at h client.sessions ≡ some s
      → is_live s.pending ≡ true
      → find s.id client.active ≡ some h
  pub sound :
      (id h : ℕ)
      → find id client.active ≡ some h
      → (s : Session) × (session_at h client.sessions ≡ some s)
        × (is_live s.pending ≡ true)
        × (s.id ≡ id)

pub some-injective {ℓ} : {A : Type ℓ} (a b : A) → Option.some a ≡ some b → a ≡ b
some-injective a b h = cc

pub new_client-IsRegistry : IsRegistry new_client
new_client-IsRegistry = record { registered = λ h s e l. cc; sound = λ id h e. cc }
