-- ===== src/Transfer/Exactness.antt =====
-- A writing loop that comes to its end has written the whole buffer.
use boost_asio_cpp_network_p.Common.{
  ℕ, zero, suc, ◌+◌, ◌≡◌, refl, sym, ap, ◌∙◌, ◌==◌, inl, inr, true, List, [], ◌∷◌, ◌++◌, Bytes,
  length, take, drop, arith, Bool-cases, ==_iff,
}
use boost_asio_cpp_network_p.Asio.{is_error}
use boost_asio_cpp_network_p.Transfer.{Answer, Written, finished, write_loop}
use boost_asio_cpp_network_p.Transfer.Completeness.{
  take-nil, write_loop_end, write_loop_round, write_loop_failed, write_loop_waits,
}

take-add : (m n : ℕ) (s : Bytes) → take m s ++ take n (drop m s) ≡ take (m + n) s
take-add zero n s = ap (λ k. take k s) (omega arith)
take-add (suc m) n [] =
    let some_left : suc m + n ≡ suc (m + n) = omega arith in
    take-nil n ∙ ap (λ k. take {A = ℕ} k []) (sym some_left)
take-add (suc m) n (c ∷ s) =
    let carry : suc (m + n) ≡ suc m + n = omega arith in
    ap (◌∷◌ c) (take-add m n s) ∙ ap (λ k. take k (c ∷ s)) carry

take-all : (s : Bytes) → take (length s) s ≡ s
take-all [] = refl
take-all (c ∷ s) = ap (◌∷◌ c) (take-all s)

finished-injective : (a b : Bytes) → Written.finished a ≡ finished b → a ≡ b
finished-injective a b h = cc

written_all :
    (answers : List Answer) (buf : Bytes) (total : ℕ) (written out : Bytes)
    → (total == length buf) ≡ true
    → written ≡ take total buf
    → write_loop answers buf total written ≡ finished out
    → out ≡ buf
written_all answers buf total written out f e h =
    finished-injective out written (sym h ∙ write_loop_end answers buf total written f)
    ∙ e
    ∙ ap (λ n. take n buf) ((==_iff total (length buf)).0 f)
    ∙ take-all buf

write_loop_written :
    (answers : List Answer) (buf : Bytes) (total : ℕ) (written out : Bytes)
    → written ≡ take total buf
    → write_loop answers buf total written ≡ finished out
    → out ≡ buf
write_loop_written [] buf total written out e h = elim (Bool-cases (total == length buf)) [
  | inl f ↦ written_all [] buf total written out f e h
  | inr f ↦
      let stuck : Written.waiting written ≡ finished out =
        sym (write_loop_waits buf total written f) ∙ h in
      cc
]
write_loop_written (a ∷ answers) buf total written out e h =
    elim (Bool-cases (total == length buf)) [
      | inl f ↦ written_all (a ∷ answers) buf total written out f e h
      | inr f ↦ elim (Bool-cases (is_error a.ec)) [
        | inl g ↦
            let thrown : Written.failed a.ec written ≡ finished out =
              sym (write_loop_failed a answers buf total written f g) ∙ h in
            cc
        | inr g ↦
            write_loop_written answers buf (total + a.bytes_transferred)
              (written ++ take a.bytes_transferred (drop total buf)) out
              (ap (λ s. s ++ take a.bytes_transferred (drop total buf)) e
                ∙ take-add total a.bytes_transferred buf)
              (sym (write_loop_round a answers buf total written f g) ∙ h)
      ]
    ]

-- If the loop comes to its end, then the socket was given the whole buffer, in order, whatever its
-- answers were.
pub write_loop_exact :
    (answers : List Answer) (buf out : Bytes)
    → write_loop answers buf 0 [] ≡ finished out
    → out ≡ buf
write_loop_exact answers buf out h = write_loop_written answers buf 0 [] out refl h
