-- ===== src/SyncServer.antt =====
-- The servers that serve a client in a blocking way, tcp_iterative_synchronous.cpp and
-- tcp_parallel_synchronous.cpp: handleClient, which is the same in both.
pub mod Iterative
mod Stopping
mod Mains
mod Parallel
mod Threads
mod Leaving
mod Examples
use boost_asio_cpp_network_p.Common.{
  Bool, true, false, Option, none, some, List, [], ◌∷◌, Bytes, if◌then◌else◌,
}
use boost_asio_cpp_network_p.Asio.{ErrorCode, is_error}
use boost_asio_cpp_network_p.Cxx.Signed.{ℤ}
use boost_asio_cpp_network_p.LongOp.{Processed, process_buffer}

-- A client: how read_until ends and with what in the buffer, and how write ends.
pub record Client : Type 0 where
  pub read_ec : ErrorCode
  pub received : Bytes
  pub write_ec : ErrorCode

-- What handleClient did: how long it slept, what the client got, and what it printed as an error.
pub record Handled : Type 0 where
  pub slept : Option ℤ
  pub sent : Option Bytes
  pub errors : List ErrorCode

abbrev send : ErrorCode → Processed → Handled
send write_ec p =
    if is_error write_ec
    then record { slept = p.slept; sent = none; errors = write_ec ∷ [] }
    else record { slept = p.slept; sent = some p.response; errors = [] }

-- What read_until and write throw is caught and printed.
unfoldable pub handle_client : Client → Handled
handle_client c =
    if is_error c.read_ec
    then record { slept = none; sent = none; errors = c.read_ec ∷ [] }
    else send c.write_ec (process_buffer c.received)
