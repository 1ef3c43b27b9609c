-- ===== src/Transfer/Reading/Received.antt =====
-- What the reading loops read.
use boost_asio_cpp_network_p.Common.{
  ℕ, zero, suc, ◌+◌, ◌-◌, ◌≤◌, ◌≡◌, refl, sym, ap, ◌∙◌, ◌==◌, inl, inr, true, false, none, some,
  List, [], ◌∷◌, ◌++◌, append_assoc, Bytes, length, length-append, take, drop, take-append, arith,
  Bool-cases, ==_self, ==_iff,
}
use boost_asio_cpp_network_p.Asio.{success, is_error}
use boost_asio_cpp_network_p.Transfer.Reading.{
  zeros, Chunk, complete, failed, waiting, message_size, store, read_loop, read_from_socket,
  ReadSession, start_reading, callback, complete_pending, complete_read, run, outcome,
}

-- What Boost.Asio documents of a read_some: with no error it puts at least one byte and no more than
-- there is room for, here the bytes that are left.
abbrev pub IsReading : List Chunk → ℕ → Type 0
IsReading [] left = Unit
IsReading (c ∷ chunks) zero = Unit
IsReading (c ∷ chunks) (suc left) =
    (c.ec ≡ success)
    × (1 ≤ length c.received)
    × (length c.received ≤ suc left)
    × IsReading chunks (suc left - length c.received)

-- What came, in order.
abbrev pub stream : List Chunk → Bytes
stream [] = []
stream (c ∷ chunks) = c.received ++ stream chunks

pub take-append_le :
    (b s : Bytes) (n : ℕ) → length b ≤ n → take n (b ++ s) ≡ b ++ take (n - length b) s
take-append_le [] s n h = ap (λ k. take k s) (omega arith)
take-append_le (c ∷ b) s zero h = absurd (omega arith)
take-append_le (c ∷ b) s (suc n) h =
    ap (◌∷◌ c) (take-append_le b s n (omega arith) ∙ ap (λ k. b ++ take k s) (omega arith))

drop-zeros : (k n : ℕ) → drop k (zeros n) ≡ zeros (n - k)
drop-zeros zero n = ap zeros (omega arith)
drop-zeros (suc k) zero = let none_left : 0 ≡ 0 - suc k = omega arith in ap zeros none_left
drop-zeros (suc k) (suc n) = drop-zeros k n ∙ ap zeros (omega arith)

drop-append_more : (s t : Bytes) (k : ℕ) → drop (length s + k) (s ++ t) ≡ drop k t
drop-append_more [] t k = ap (λ m. drop m t) (omega arith)
drop-append_more (c ∷ s) t k =
    let carry : suc (length s) + k ≡ suc (length s + k) = omega arith in
    ap (λ m. drop m (c ∷ (s ++ t))) carry ∙ drop-append_more s t k

-- The part that has come, and zeros behind it.
store_lem :
    (s b : Bytes) (left : ℕ)
    → store (length s) b (s ++ zeros left) ≡ (s ++ b) ++ zeros (left - length b)
store_lem s b left =
    ap (λ t. t ++ (b ++ drop (length s + length b) (s ++ zeros left))) (take-append s (zeros left))
    ∙ ap (λ t. s ++ (b ++ t))
        (drop-append_more s (zeros left) (length b) ∙ drop-zeros (length b) left)
    ∙ sym (append_assoc s b (zeros (left - length b)))

read_loop_end :
    (chunks : List Chunk) (size : ℕ) (buf : Bytes) → read_loop chunks size buf size ≡ complete buf
unfolding read_loop
read_loop_end [] size buf = rw (==_self size) refl
read_loop_end (c ∷ chunks) size buf = rw (==_self size) refl

read_loop_round :
    (c : Chunk) (chunks : List Chunk) (size : ℕ) (buf : Bytes) (total : ℕ)
    → (total == size) ≡ false
    → is_error c.ec ≡ false
    → read_loop (c ∷ chunks) size buf total
      ≡ read_loop chunks size (store total c.received buf) (total + length c.received)
unfolding read_loop
read_loop_round c chunks size buf total h e = simp (h, e) refl

read_loop_rest :
    (chunks : List Chunk) (s : Bytes) (left size : ℕ)
    → size ≡ length s + left
    → IsReading chunks left
    → left ≤ length chunks
    → read_loop chunks size (s ++ zeros left) (length s) ≡ complete (s ++ take left (stream chunks))
read_loop_rest chunks s zero size e h n =
    ap (read_loop chunks size (s ++ [])) (omega arith) ∙ read_loop_end chunks size (s ++ [])
read_loop_rest [] s (suc left) size e h n = ground arith
read_loop_rest (c ∷ chunks) s (suc left) size e h n =
    let b = c.received in
    let now : length (s ++ b) ≡ length s + length b = length-append s b in
    read_loop_round c chunks size (s ++ zeros (suc left)) (length s) (ground arith)
      (ap is_error h.0)
    ∙ ap (λ t. read_loop chunks size t (length s + length b)) (store_lem s b (suc left))
    ∙ ap (read_loop chunks size ((s ++ b) ++ zeros (suc left - length b))) (sym now)
    ∙ read_loop_rest chunks (s ++ b) (suc left - length b) size (omega (arith, h.2)) h.3
        (omega (arith, h.1))
    ∙ ap complete (
        append_assoc s b (take (suc left - length b) (stream chunks))
        ∙ ap (◌++◌ s) (sym (take-append_le b (stream chunks) (suc left) h.2)))

-- If read_some keeps to its contract and gives as many chunks as there are places, then the loop
-- ends, and the message is the first seven bytes that came.
pub read_from_socket_completes :
    (chunks : List Chunk)
    → IsReading chunks message_size
    → message_size ≤ length chunks
    → read_from_socket chunks ≡ complete (take message_size (stream chunks))
unfolding read_from_socket
read_from_socket_completes chunks h n = read_loop_rest chunks [] message_size message_size refl h n

-- The session between two reads.
abbrev between : ℕ → Bytes → ℕ → ReadSession
between size buf total = record {
  size = size;
  buf = buf;
  total_bytes_read = total;
  pending = some (total, size - total);
  printed = none;
  errors = [];
}

run_ended : (chunks : List Chunk) (s : ReadSession) → s.pending ≡ none → run chunks s ≡ s
unfolding run complete_read
run_ended [] s h = refl
run_ended (c ∷ chunks) s h = ap (λ p. run chunks (complete_pending p c s)) h ∙ run_ended chunks s h

run_lem :
    (c : Chunk) (chunks : List Chunk) (s : ReadSession)
    → run (c ∷ chunks) s ≡ run chunks (complete_read c s)
unfolding run
run_lem c chunks s = refl

complete_failed :
    (c : Chunk) (size : ℕ) (buf : Bytes) (total : ℕ)
    → is_error c.ec ≡ true
    → complete_read c (between size buf total)
      ≡ record (between size buf total) { pending = none; errors = c.ec ∷ [] }
unfolding complete_read callback
complete_failed c size buf total e = simp e refl

complete_last :
    (c : Chunk) (size : ℕ) (buf : Bytes) (total : ℕ)
    → is_error c.ec ≡ false
    → (total + length c.received == size) ≡ true
    → complete_read c (between size buf total)
      ≡ record (between size (store total c.received buf) (total + length c.received)) {
        pending = none;
        printed = some (store total c.received buf);
      }
unfolding complete_read callback
complete_last c size buf total e f = simp (e, f) refl

complete_more :
    (c : Chunk) (size : ℕ) (buf : Bytes) (total : ℕ)
    → is_error c.ec ≡ false
    → (total + length c.received == size) ≡ false
    → complete_read c (between size buf total)
      ≡ between size (store total c.received buf) (total + length c.received)
unfolding complete_read callback
complete_more c size buf total e f = simp (e, f) refl

read_loop_failed :
    (c : Chunk) (chunks : List Chunk) (size : ℕ) (buf : Bytes) (total : ℕ)
    → (total == size) ≡ false
    → is_error c.ec ≡ true
    → read_loop (c ∷ chunks) size buf total ≡ failed c.ec
unfolding read_loop
read_loop_failed c chunks size buf total h e = simp (h, e) refl

read_loop_waits :
    (size : ℕ) (buf : Bytes) (total : ℕ)
    → (total == size) ≡ false
    → read_loop [] size buf total ≡ waiting buf
unfolding read_loop
read_loop_waits size buf total h = rw h refl

outcome-run :
    (chunks : List Chunk) (size : ℕ) (buf : Bytes) (total : ℕ)
    → (total == size) ≡ false
    → outcome (run chunks (between size buf total)) ≡ read_loop chunks size buf total
unfolding run
outcome-run [] size buf total h = sym (read_loop_waits size buf total h)
outcome-run (c ∷ chunks) size buf total h =
    let next = store total c.received buf in
    let n = total + length c.received in
    elim (Bool-cases (is_error c.ec)) [
      | inl e ↦
          ap outcome (
            ap (run chunks) (complete_failed c size buf total e)
            ∙ run_ended chunks
                (record (between size buf total) { pending = none; errors = c.ec ∷ [] }) refl)
          ∙ sym (read_loop_failed c chunks size buf total h e)
      | inr e ↦ elim (Bool-cases (n == size)) [
        | inl f ↦
            ap outcome (
              ap (run chunks) (complete_last c size buf total e f)
              ∙ run_ended chunks
                  (record (between size next n) { pending = none; printed = some next }) refl)
            ∙ sym (
                ap (read_loop chunks size next) ((==_iff n size).0 f)
                ∙ read_loop_end chunks size next)
            ∙ sym (read_loop_round c chunks size buf total h e)
        | inr f ↦
            ap outcome (ap (run chunks) (complete_more c size buf total e f))
            ∙ outcome-run chunks size next n f
            ∙ sym (read_loop_round c chunks size buf total h e)
      ]
    ]

-- For a buffer that is not empty the chain of asynchronous reads does what the loop of blocking
-- reads does, whatever the socket gives, errors included.
pub run-start_reading :
    (chunks : List Chunk) (left : ℕ)
    → outcome (run chunks (start_reading (suc left)))
      ≡ read_loop chunks (suc left) (zeros (suc left)) 0
unfolding start_reading
run-start_reading chunks left =
    let room : suc left ≡ suc left - 0 = omega arith in
    ap
      (λ n.
        outcome
          (run chunks (record (between (suc left) (zeros (suc left)) 0) { pending = some (0, n) })))
      room
    ∙ outcome-run chunks (suc left) (zeros (suc left)) 0 (ground arith)
