-- ===== src/Transfer/Reading.antt =====
-- The loops that fill a buffer of a fixed size: readFromSocket of read_synchronously.cpp and of
-- read_asynchronously.cpp.
pub mod Received
use boost_asio_cpp_network_p.Common.{
  ℕ, ◌+◌, ◌-◌, ◌==◌, Bool, true, false, Option, none, some, List, [], ◌∷◌, ◌++◌, Bytes, length,
  take, drop, replicate, if◌then◌else◌,
}
use boost_asio_cpp_network_p.Asio.{ErrorCode, is_error}

-- How a read_some ends, and what it put at the place that it was given.
pub record Chunk : Type 0 where
  pub ec : ErrorCode
  pub received : Bytes

-- The buffer is full, or read_some throws, or the loop waits for its next chunk.
pub data Read : Type 0 where
  complete : Bytes → Read
  failed : ErrorCode → Read
  waiting : Bytes → Read

abbrev pub message_size : ℕ
message_size = 7

abbrev pub zeros : ℕ → Bytes
zeros n = replicate n 0

-- The buffer with `received` written over what stood behind the first `total` bytes.
abbrev pub store : ℕ → Bytes → Bytes → Bytes
store total received buf = take total buf ++ (received ++ drop (total + length received) buf)

-- The loop of read_synchronously.cpp: `size` is MESSAGE_SIZE, then buf and total_bytes_read.
unfoldable pub read_loop : List Chunk → ℕ → Bytes → ℕ → Read
read_loop [] size buf total = if total == size then complete buf else waiting buf
read_loop (c ∷ chunks) size buf total =
    let rest = read_loop chunks size (store total c.received buf) (total + length c.received) in
    if total == size then complete buf else if is_error c.ec then failed c.ec else rest

unfoldable pub read_from_socket : List Chunk → Read
read_from_socket chunks = read_loop chunks message_size (zeros message_size) 0

-- The session of read_asynchronously.cpp. `pending` is the place and the size of what is left of
-- the buffer in the read that is pending, `printed` the message when it is complete.
pub record ReadSession : Type 0 where
  pub size : ℕ
  pub buf : Bytes
  pub total_bytes_read : ℕ
  pub pending : Option (ℕ × ℕ)
  pub printed : Option Bytes
  pub errors : List ErrorCode

unfoldable pub start_reading : ℕ → ReadSession
start_reading size = record {
  size = size;
  buf = zeros size;
  total_bytes_read = 0;
  pending = some (0, size);
  printed = none;
  errors = [];
}

unfoldable pub callback : ErrorCode → ℕ → ReadSession → ReadSession
callback ec bytes_transferred s =
    let total = s.total_bytes_read + bytes_transferred in
    if is_error ec
    then record s { errors = s.errors ++ (ec ∷ []) }
    else if total == s.size
    then record s { total_bytes_read = total; printed = some s.buf }
    else record s { total_bytes_read = total; pending = some (total, s.size - total) }

abbrev pub complete_pending : Option (ℕ × ℕ) → Chunk → ReadSession → ReadSession
complete_pending none c s = s
complete_pending (some place) c s =
    let filled = if is_error c.ec then s.buf else store place.0 c.received s.buf in
    callback c.ec (length c.received) (record s { pending = none; buf = filled })

-- The pending read ends with a chunk.
unfoldable pub complete_read : Chunk → ReadSession → ReadSession
complete_read c s = complete_pending s.pending c s

unfoldable pub run : List Chunk → ReadSession → ReadSession
run [] s = s
run (c ∷ chunks) s = run chunks (complete_read c s)

-- What a session amounts to.
abbrev pub outcome_of : Option (ℕ × ℕ) → Option Bytes → List ErrorCode → Bytes → Read
outcome_of (some place) printed errors buf = waiting buf
outcome_of none (some message) errors buf = complete message
outcome_of none none [] buf = waiting buf
outcome_of none none (ec ∷ errors) buf = failed ec

abbrev pub outcome : ReadSession → Read
outcome s = outcome_of s.pending s.printed s.errors s.buf
