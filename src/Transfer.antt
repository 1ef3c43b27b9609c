-- ===== src/Transfer.antt =====
-- The loops that write or read a buffer in pieces: write_synchronously.cpp and
-- write_asynchronously.cpp, read_synchronously.cpp and read_asynchronously.cpp.
pub mod Completeness
pub mod Exactness
pub mod Reading
mod Examples
use boost_asio_cpp_network_p.Common.{
  ℕ, ◌+◌, ◌-◌, ◌==◌, Bool, true, false, Option, none, some, List, [], ◌∷◌, ◌++◌, Bytes, codes,
  length, take, drop, if◌then◌else◌,
}
use boost_asio_cpp_network_p.Asio.{ErrorCode, is_error}

-- The buffer of the examples.
abbrev pub hello : Bytes
hello = codes "Hello\n"

-- How a write_some ends, and how many bytes of what it was given it wrote.
pub record Answer : Type 0 where
  pub ec : ErrorCode
  pub bytes_transferred : ℕ

-- The loop comes to its end, or write_some throws, or it waits for its next answer. Each has what the
-- socket was given.
pub data Written : Type 0 where
  finished : Bytes → Written
  failed : ErrorCode → Bytes → Written
  waiting : Bytes → Written

-- writeToSocket of write_synchronously.cpp, on the answers of the socket: `buf` is the buffer, then
-- total_bytes_written, and what was written.
unfoldable pub write_loop : List Answer → Bytes → ℕ → Bytes → Written
write_loop [] buf total written = if total == length buf then finished written else waiting written
write_loop (a ∷ answers) buf total written =
    let rest =
      write_loop answers buf (total + a.bytes_transferred)
        (written ++ take a.bytes_transferred (drop total buf)) in
    if total == length buf
    then finished written
    else if is_error a.ec
    then failed a.ec written
    else rest

-- The session of write_asynchronously.cpp; `pending` is the buffer of the write that is pending.
pub record WriteSession : Type 0 where
  pub buf : Bytes
  pub total_bytes_written : ℕ
  pub pending : Option Bytes
  pub written : Bytes
  pub errors : List ErrorCode

unfoldable pub write_to_socket : Bytes → WriteSession
write_to_socket buf = record {
  buf = buf;
  total_bytes_written = 0;
  pending = some buf;
  written = [];
  errors = [];
}

unfoldable pub callback : ErrorCode → ℕ → WriteSession → WriteSession
callback ec bytes_transferred s =
    let total = s.total_bytes_written + bytes_transferred in
    if is_error ec
    then record s { errors = s.errors ++ (ec ∷ []) }
    else if total == length s.buf
    then record s { total_bytes_written = total }
    else record s { total_bytes_written = total; pending = some (drop total s.buf) }

abbrev pub complete_pending : Option Bytes → Answer → WriteSession → WriteSession
complete_pending none a s = s
complete_pending (some given) a s =
    let sent = if is_error a.ec then [] else take a.bytes_transferred given in
    callback a.ec a.bytes_transferred (record s { pending = none; written = s.written ++ sent })

-- The pending write ends with an answer.
unfoldable pub complete : Answer → WriteSession → WriteSession
complete a s = complete_pending s.pending a s

unfoldable pub run : List Answer → WriteSession → WriteSession
run [] s = s
run (a ∷ answers) s = run answers (complete a s)

-- What a session amounts to.
abbrev pub outcome : WriteSession → Written
outcome s = elim s.pending [
  | some given ↦ waiting s.written
  | none ↦ elim s.errors [ [] ↦ finished s.written | ec ∷ _ ↦ failed ec s.written ]
]
