-- ===== src/Transfer/Completeness.antt =====
-- What the writing loops write.
use boost_asio_cpp_network_p.Common.{
  ℕ, zero, suc, ◌+◌, ◌-◌, ◌≤◌, ◌≡◌, refl, sym, ap, subst, ◌∙◌, ◌==◌, inl, inr, true, false, none,
  some, List, [], ◌∷◌, ◌++◌, append_assoc, append-nil, Bytes, length, length-append, take, drop,
  drop-append, length-drop, arith, Bool-cases, ==_self,
}
use boost_asio_cpp_network_p.Asio.{success, is_error}
use boost_asio_cpp_network_p.Transfer.{
  Answer, finished, failed, waiting, write_loop, WriteSession, write_to_socket, callback, complete,
  complete_pending, run, outcome,
}

-- What Boost.Asio documents of a write_some: with no error it writes at least one byte and no more
-- than it is given, here the bytes that are left.
abbrev pub IsWriting : List Answer → ℕ → Type 0
IsWriting [] left = Unit
IsWriting (a ∷ answers) zero = Unit
IsWriting (a ∷ answers) (suc left) =
    (a.ec ≡ success)
    × (1 ≤ a.bytes_transferred)
    × (a.bytes_transferred ≤ suc left)
    × IsWriting answers (suc left - a.bytes_transferred)

pub take-nil : (n : ℕ) → take {A = ℕ} n [] ≡ []
take-nil zero = refl
take-nil (suc n) = refl

pub take-drop : (n : ℕ) (s : Bytes) → take n s ++ drop n s ≡ s
take-drop zero s = refl
take-drop (suc n) [] = refl
take-drop (suc n) (c ∷ s) = ap (◌∷◌ c) (take-drop n s)

pub length-take : (n : ℕ) (s : Bytes) → n ≤ length s → length (take n s) ≡ n
length-take zero s h = refl
length-take (suc n) [] h = omega arith
length-take (suc n) (c ∷ s) h = omega (arith, length-take n s (omega arith))

pub write_loop_end :
    (answers : List Answer) (buf : Bytes) (total : ℕ) (written : Bytes)
    → (total == length buf) ≡ true
    → write_loop answers buf total written ≡ finished written
unfolding write_loop
write_loop_end [] buf total written h = rw h refl
write_loop_end (a ∷ answers) buf total written h = rw h refl

-- One round that writes some of what is left.
pub write_loop_round :
    (a : Answer) (answers : List Answer) (buf : Bytes) (total : ℕ) (written : Bytes)
    → (total == length buf) ≡ false
    → is_error a.ec ≡ false
    → write_loop (a ∷ answers) buf total written
      ≡ write_loop answers buf
          (total + a.bytes_transferred)
          (written ++ take a.bytes_transferred (drop total buf))
unfolding write_loop
write_loop_round a answers buf total written h e = simp (h, e) refl

short : (s : Bytes) (c : ℕ) (r : Bytes) → (length s == length (s ++ (c ∷ r))) ≡ false
short s c r = ground (arith, length-append s (c ∷ r))

write_loop_rest :
    (answers : List Answer) (s r : Bytes)
    → IsWriting answers (length r)
    → length r ≤ length answers
    → write_loop answers (s ++ r) (length s) s ≡ finished (s ++ r)
write_loop_rest answers s [] h n =
    write_loop_end answers (s ++ []) (length s) s (rw (append-nil s) (==_self (length s)))
    ∙ ap finished (sym (append-nil s))
write_loop_rest [] s (c ∷ r) h n = ground arith
write_loop_rest (a ∷ answers) s (c ∷ r) h n =
    let k = a.bytes_transferred in
    let now = s ++ take k (c ∷ r) in
    let left = drop k (c ∷ r) in
    let whole : now ++ left ≡ s ++ (c ∷ r) =
      append_assoc s (take k (c ∷ r)) left ∙ ap (◌++◌ s) (take-drop k (c ∷ r)) in
    let total : length now ≡ length s + k =
      length-append s (take k (c ∷ r)) ∙ ap (◌+◌ (length s)) (length-take k (c ∷ r) h.2) in
    write_loop_round a answers (s ++ (c ∷ r)) (length s) s (short s c r) (ap is_error h.0)
    ∙ ap (λ given. write_loop answers (s ++ (c ∷ r)) (length s + k) (s ++ take k given))
        (drop-append s (c ∷ r))
    ∙ ap (λ n. write_loop answers (s ++ (c ∷ r)) n now) (sym total)
    ∙ ap (λ buf. write_loop answers buf (length now) now) (sym whole)
    ∙ write_loop_rest answers now left (subst (IsWriting answers) (sym (length-drop k (c ∷ r))) h.3)
        (omega (arith, length-drop k (c ∷ r), h.1))
    ∙ ap finished whole

run_ended : (answers : List Answer) (s : WriteSession) → s.pending ≡ none → run answers s ≡ s
unfolding run complete
run_ended [] s h = refl
run_ended (a ∷ answers) s h =
    ap (λ p. run answers (complete_pending p a s)) h ∙ run_ended answers s h

-- The session of the asynchronous writing between two writes.
abbrev at : Bytes → ℕ → Bytes → WriteSession
at buf total written = record {
  buf = buf;
  total_bytes_written = total;
  pending = some (drop total buf);
  written = written;
  errors = [];
}

pub write_loop_failed :
    (a : Answer) (answers : List Answer) (buf : Bytes) (total : ℕ) (written : Bytes)
    → (total == length buf) ≡ false
    → is_error a.ec ≡ true
    → write_loop (a ∷ answers) buf total written ≡ failed a.ec written
unfolding write_loop
write_loop_failed a answers buf total written h e = simp (h, e) refl

complete_failed :
    (a : Answer) (buf : Bytes) (total : ℕ) (written : Bytes)
    → is_error a.ec ≡ true
    → complete a (at buf total written)
      ≡ record (at buf total written) { pending = none; errors = a.ec ∷ [] }
unfolding complete callback
complete_failed a buf total written e = simp (e, append-nil written) refl

complete_last :
    (a : Answer) (buf : Bytes) (total : ℕ) (written : Bytes)
    → is_error a.ec ≡ false
    → (total + a.bytes_transferred == length buf) ≡ true
    → complete a (at buf total written)
      ≡ record (at buf
          (total + a.bytes_transferred)
          (written ++ take a.bytes_transferred (drop total buf))) { pending = none }
unfolding complete callback
complete_last a buf total written e f = simp (e, f) refl

complete_more :
    (a : Answer) (buf : Bytes) (total : ℕ) (written : Bytes)
    → is_error a.ec ≡ false
    → (total + a.bytes_transferred == length buf) ≡ false
    → complete a (at buf total written)
      ≡ at buf (total + a.bytes_transferred) (written ++ take a.bytes_transferred (drop total buf))
unfolding complete callback
complete_more a buf total written e f = simp (e, f) refl

pub write_loop_waits :
    (buf : Bytes) (total : ℕ) (written : Bytes)
    → (total == length buf) ≡ false
    → write_loop [] buf total written ≡ waiting written
unfolding write_loop
write_loop_waits buf total written h = rw h refl

run_lem :
    (a : Answer) (answers : List Answer) (s : WriteSession)
    → run (a ∷ answers) s ≡ run answers (complete a s)
unfolding run
run_lem a answers s = refl

run-at :
    (answers : List Answer) (buf : Bytes) (total : ℕ) (written : Bytes)
    → (total == length buf) ≡ false
    → outcome (run answers (at buf total written)) ≡ write_loop answers buf total written
unfolding run
run-at [] buf total written h = sym (write_loop_waits buf total written h)
run-at (a ∷ answers) buf total written h =
    let next = written ++ take a.bytes_transferred (drop total buf) in
    elim (Bool-cases (is_error a.ec)) [
      | inl e ↦
          ap outcome (
            run_lem a answers (at buf total written)
            ∙ ap (run answers) (complete_failed a buf total written e)
            ∙ run_ended answers
                (record (at buf total written) { pending = none; errors = a.ec ∷ [] }) refl)
          ∙ sym (write_loop_failed a answers buf total written h e)
      | inr e ↦ elim (Bool-cases (total + a.bytes_transferred == length buf)) [
        | inl f ↦
            ap outcome (
              run_lem a answers (at buf total written)
              ∙ ap (run answers) (complete_last a buf total written e f)
              ∙ run_ended answers
                  (record (at buf (total + a.bytes_transferred) next) { pending = none }) refl)
            ∙ sym (write_loop_end answers buf (total + a.bytes_transferred) next f)
            ∙ sym (write_loop_round a answers buf total written h e)
        | inr f ↦
            ap outcome (
              run_lem a answers (at buf total written)
              ∙ ap (run answers) (complete_more a buf total written e f))
            ∙ run-at answers buf (total + a.bytes_transferred) next f
            ∙ sym (write_loop_round a answers buf total written h e)
      ]
    ]

-- For a buffer that is not empty the chain of asynchronous writes does what the loop of blocking
-- writes does, whatever the socket answers, errors included.
pub run-write_to_socket :
    (answers : List Answer) (c : ℕ) (buf : Bytes)
    → outcome (run answers (write_to_socket (c ∷ buf))) ≡ write_loop answers (c ∷ buf) 0 []
unfolding write_to_socket
run-write_to_socket answers c buf = run-at answers (c ∷ buf) 0 [] (ground arith)

-- If write_some keeps to its contract and gives as many answers as there are bytes, then the
-- loop ends with the whole buffer written, in order.
pub write_loop_finishes :
    (answers : List Answer) (buf : Bytes)
    → IsWriting answers (length buf)
    → length buf ≤ length answers
    → write_loop answers buf 0 [] ≡ finished buf
write_loop_finishes answers buf h n = write_loop_rest answers [] buf h n
