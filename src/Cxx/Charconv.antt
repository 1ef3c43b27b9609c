-- ===== src/Cxx/Charconv.antt =====
-- std::to_chars and std::from_chars in base ten.
use native.Mathlib.Nat.{pow-suc}
use boost_asio_cpp_network_p.Common.{
  ℕ, zero, suc, ◌+◌, ◌-◌, ◌*◌, ◌/◌, ◌%◌, ◌^◌, ◌<◌, ◌≤◌, ◌≡◌, ◌≢◌, refl, ap, Bool, true, false, ◌&&◌,
  Option, none, some, [], ◌∷◌, ◌++◌, arith, leb, ltb, if◌then◌else◌, Bytes, All, All-append, length,
  length-append, ◌↔◌, inl, inr, Bool-cases, le→leb, leb→le,
}

abbrev pub is_digit : ℕ → Bool
is_digit c = leb b'0' c && leb c b'9'

abbrev pub IsDigits : Bytes → Type 0
IsDigits = All (λ c. is_digit c ≡ true)

-- The digits of `n`, with a bound on their number.
digits_upto : ℕ → ℕ → Bytes
digits_upto zero n = []
digits_upto (suc f) n =
    let front = digits_upto f (n / 10) in
    if ltb n 10 then (b'0' + n) ∷ [] else front ++ (b'0' + n % 10) ∷ []

unfoldable pub digits : ℕ → Bytes
unfolding digits_upto
digits n = digits_upto (suc n) n

-- std::to_chars into `room` bytes; `none` is std::errc::value_too_large.
unfoldable pub to_chars : ℕ → ℕ → Option Bytes
unfolding digits
to_chars room n = if leb (length (digits n)) room then some (digits n) else none

pub data Parsed : Type 0 where
  parsed : ℕ → Parsed
  invalid_argument result_out_of_range : Parsed

abbrev pub digit_prefix : Bytes → Bytes
digit_prefix [] = []
digit_prefix (c ∷ s) = if is_digit c then c ∷ digit_prefix s else []

abbrev pub value : ℕ → Bytes → ℕ
value n [] = n
value n (c ∷ s) = value (n * 10 + (c - b'0')) s

-- std::from_chars for an unsigned type whose largest value is `top`: the longest run of digits
-- at the front, no sign, no space; what stands behind is not looked at.
classify : ℕ → Bytes → Parsed
classify top [] = invalid_argument
classify top (c ∷ t) =
    if leb (value 0 (c ∷ t)) top then parsed (value 0 (c ∷ t)) else result_out_of_range

unfoldable pub from_chars : ℕ → Bytes → Parsed
unfolding classify
from_chars top s = classify top (digit_prefix s)

classify-ne :
    (top : ℕ) (s : Bytes)
    → s ≢ []
    → classify top s ≡ (if leb (value 0 s) top then parsed (value 0 s) else result_out_of_range)
unfolding classify
classify-ne top [] h = absurd (h refl)
classify-ne top (c ∷ s) h = refl

digits_upto_step :
    (f n : ℕ)
    → digits_upto (suc f) n
      ≡ (if ltb n 10 then (b'0' + n) ∷ [] else digits_upto f (n / 10) ++ (b'0' + n % 10) ∷ [])
unfolding digits_upto
digits_upto_step f n = refl

digits_upto-IsDigits : (f n : ℕ) → IsDigits (digits_upto f n)
unfolding digits_upto
digits_upto-IsDigits zero n = tt
digits_upto-IsDigits (suc f) n = elim (Bool-cases (ltb n 10)) [
  | inl e ↦ rw (digits_upto_step f n) (rw e (ground arith, tt))
  | inr e ↦ rw (digits_upto_step f n) (
      rw e (
        All-append _ (digits_upto f (n / 10)) ((b'0' + n % 10) ∷ [])
          (digits_upto-IsDigits f (n / 10)) (ground arith, tt)))
]

pub digits-IsDigits : (n : ℕ) → IsDigits (digits n)
unfolding digits
digits-IsDigits n = digits_upto-IsDigits (suc n) n

value-append : (n : ℕ) (s t : Bytes) → value n (s ++ t) ≡ value (value n s) t
value-append n [] t = refl
value-append n (c ∷ s) t = value-append (n * 10 + (c - b'0')) s t

value-digits_upto : (f n : ℕ) → n < f → value 0 (digits_upto f n) ≡ n
value-digits_upto zero n h = absurd (omega arith)
value-digits_upto (suc f) n h = elim (Bool-cases (ltb n 10)) [
  | inl e ↦ rw (digits_upto_step f n) (rw e (omega arith))
  | inr e ↦ rw (digits_upto_step f n) (
      rw (e, value-append 0 (digits_upto f (n / 10)) ((b'0' + n % 10) ∷ []))
        (let ih = value-digits_upto f (n / 10) (ground arith) in rw ih (omega arith)))
]

pow_pos : (k : ℕ) → 1 ≤ 10 ^ k
pow_pos zero = omega arith
pow_pos (suc k) = rw (pow-suc 10 k) (omega (arith, pow_pos k))

digits_upto-ne-nil : (f n : ℕ) → 0 < length (digits_upto (suc f) n)
digits_upto-ne-nil f n = elim (Bool-cases (ltb n 10)) [
  | inl e ↦ rw (digits_upto_step f n) (rw e (omega arith))
  | inr e ↦
      rw (digits_upto_step f n)
        (rw (e, length-append (digits_upto f (n / 10)) ((b'0' + n % 10) ∷ [])) (omega arith))
]

above :
    (k f n : ℕ)
    → n < suc f
    → 10 ≤ n
    → ((j : ℕ) → (length (digits_upto f (n / 10)) ≤ suc j) ↔ (n / 10 < 10 ^ suc j))
    → (length (digits_upto f (n / 10)) + 1 ≤ suc k) ↔ (n < 10 ^ suc k)
above k zero n h t ih = absurd (omega arith)
above zero (suc f) n h t ih =
    (λ a. absurd (omega (arith, digits_upto-ne-nil f (n / 10))), λ a. absurd (omega arith))
above (suc k) (suc f) n h t ih = rw (pow-suc 10 (suc k)) (
  λ a. let b = (ih k).0 (omega arith) in omega arith,
  λ a. let b = (ih k).1 (omega arith) in omega arith,
)

length-digits_upto : (k f n : ℕ) → n < f → (length (digits_upto f n) ≤ suc k) ↔ (n < 10 ^ suc k)
length-digits_upto k zero n h = absurd (omega arith)
length-digits_upto k (suc f) n h = elim (Bool-cases (ltb n 10)) [
  | inl e ↦
      rw (digits_upto_step f n)
        (rw (e, pow-suc 10 k) (λ _. ground (arith, pow_pos k), λ _. omega arith))
  | inr e ↦ rw (digits_upto_step f n) (
      rw (e, length-append (digits_upto f (n / 10)) ((b'0' + n % 10) ∷ []))
        (above k f n h (ground arith) (λ j. length-digits_upto j f (n / 10) (ground arith))))
]

pub value-digits : (n : ℕ) → value 0 (digits n) ≡ n
unfolding digits
value-digits n = value-digits_upto (suc n) n (omega arith)

pub length-digits : (k n : ℕ) → (length (digits n) ≤ suc k) ↔ (n < 10 ^ suc k)
unfolding digits
length-digits k n = length-digits_upto k (suc n) n (omega arith)

-- What stands behind a run of digits and is no digit.
abbrev pub Stops : Bytes → Type 0
Stops [] = Unit
Stops (c ∷ s) = is_digit c ≡ false

digit_prefix-append : (s t : Bytes) → IsDigits s → Stops t → digit_prefix (s ++ t) ≡ s
digit_prefix-append [] [] h e = refl
digit_prefix-append [] (c ∷ t) h e = rw e
digit_prefix-append (x ∷ s) t h e = rw (h.0, digit_prefix-append s t h.1 e)

pub digits-ne-nil : (n : ℕ) → digits n ≢ []
unfolding digits
digits-ne-nil n e = absurd (omega (arith, digits_upto-ne-nil n n, ap length e))

-- A printed number is read back, whatever stands behind it.
pub from_chars-digits :
    (top n : ℕ) (t : Bytes) → n ≤ top → Stops t → from_chars top (digits n ++ t) ≡ parsed n
unfolding from_chars
from_chars-digits top n t h e =
    rw (digit_prefix-append (digits n) t (digits-IsDigits n) e)
      (rw (classify-ne top (digits n) (digits-ne-nil n)) (rw (value-digits n) (ground arith)))

pub from_chars-digits_over :
    (top n : ℕ) (t : Bytes)
    → top < n
    → Stops t
    → from_chars top (digits n ++ t) ≡ result_out_of_range
unfolding from_chars
from_chars-digits_over top n t h e =
    rw (digit_prefix-append (digits n) t (digits-IsDigits n) e)
      (rw (classify-ne top (digits n) (digits-ne-nil n)) (rw (value-digits n) (ground arith)))

pub to_chars-fits : (k n : ℕ) → n < 10 ^ suc k → to_chars (suc k) n ≡ some (digits n)
unfolding to_chars
to_chars-fits k n h = rw (le→leb _ _ ((length-digits k n).1 h))

pub to_chars-over : (k n : ℕ) → 10 ^ suc k ≤ n → to_chars (suc k) n ≡ none
unfolding to_chars
to_chars-over k n h = elim (Bool-cases (leb (length (digits n)) (suc k))) [
  | inl e ↦ absurd (omega (arith, (length-digits k n).0 (leb→le _ _ e)))
  | inr e ↦ rw e
]
