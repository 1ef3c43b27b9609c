-- ===== src/Programs/Reads.antt =====
-- What the free functions read is what the loops read.
use boost_asio_cpp_network_p.Common.{
  ℕ, suc, ◌+◌, ◌-◌, ◌≡◌, refl, sym, ap, ◌∙◌, List, [], ◌∷◌, ◌++◌, append-nil, Bytes, length,
  length-append, take, drop, arith, Lacks, zero, ◌≤◌,
}
use boost_asio_cpp_network_p.Asio.{success, arrives, ok}
use boost_asio_cpp_network_p.Cxx.Stream.{getline-append}
use boost_asio_cpp_network_p.Transfer.Reading.{
  message_size, zeros, store, Chunk, complete, read_from_socket,
}
use boost_asio_cpp_network_p.Transfer.Reading.Received.{
  IsReading, stream, read_from_socket_completes, take-append_le,
}
use boost_asio_cpp_network_p.Transfer.Completeness.{length-take}
use boost_asio_cpp_network_p.Programs.Whole.{
  resize, read_from_socket_enhanced, data_read, read_session, read_from_socket_delim,
  read_until_session,
}

-- The first line is read, and what has come behind it is not, by the blocking example and by the
-- asynchronous one.
pub read_delim_line :
    (line rest : Bytes)
    → Lacks 10 line
    → (read_from_socket_delim (arrives success (line ++ 10 ∷ rest)) ≡ ok line)
      × (read_until_session (arrives success (line ++ 10 ∷ rest)) ≡ data_read line)
unfolding read_from_socket_delim read_until_session
read_delim_line line rest h =
    let first = getline-append 10 [] line rest h in
    (ap (λ p. ok p.0) first, ap (λ p. data_read p.0) first)

-- A stream has as many bytes as there are places for, when there is a chunk for each.
stream_long :
    (chunks : List Chunk) (left : ℕ)
    → IsReading chunks left
    → left ≤ length chunks
    → left ≤ length (stream chunks)
stream_long chunks zero h n = omega arith
stream_long [] (suc left) h n = n
stream_long (c ∷ chunks) (suc left) h n =
    let later = stream_long chunks (suc left - length c.received) h.3 (omega (arith, h.1)) in
    omega (arith, later, h.2, length-append c.received (stream chunks))

stored_whole : (m : Bytes) → length m ≡ message_size → store 0 m (zeros message_size) ≡ m
stored_whole m h =
    let end : 0 + length m ≡ message_size = omega (arith, h) in
    ap (λ k. m ++ drop k (zeros message_size)) end ∙ append-nil m

take_none : (n : ℕ) → ◌≡◌ {A = Bytes} (take n []) []
take_none zero = refl
take_none (suc n) = refl

take_long : (n : ℕ) (s : Bytes) → length s ≤ n → take n s ≡ s
take_long n s h =
    ap (take n) (sym (append-nil s))
    ∙ take-append_le s [] n h
    ∙ ap (◌++◌ s) (take_none (n - length s))
    ∙ append-nil s

resized_whole : (m : Bytes) → length m ≡ message_size → resize (suc (length m)) m ≡ m ++ 0 ∷ []
resized_whole m h =
    let one : suc (length m) - length m ≡ 1 = omega arith in
    ap (λ t. t ++ zeros (suc (length m) - length m)) (take_long (suc (length m)) m (omega arith))
    ∙ ap (λ k. m ++ zeros k) one

-- If read_some keeps to its contract and gives as many chunks as there are places, then the loop
-- ends with the first seven bytes that came; given these, the callback of read_free_asynchronously
-- prints them, and read_free_synchronously returns them with a zero byte behind.
pub read_from_socket_alike :
    (chunks : List Chunk)
    → IsReading chunks message_size
    → message_size ≤ length chunks
    → let m = take message_size (stream chunks) in
      (length m ≡ message_size)
      × (read_from_socket chunks ≡ complete m)
      × (read_session (arrives success m) ≡ data_read m)
      × (read_from_socket_enhanced (arrives success m) ≡ ok (m ++ 0 ∷ []))
unfolding read_session read_from_socket_enhanced
read_from_socket_alike chunks h n =
    let m = take message_size (stream chunks) in
    let whole = length-take message_size (stream chunks) (stream_long chunks message_size h n) in
    (
      whole,
      read_from_socket_completes chunks h n,
      ap data_read (stored_whole m whole),
      ap (λ t. ok (resize (suc (length m)) t)) (stored_whole m whole)
          ∙ ap ok (resized_whole m whole),
    )
