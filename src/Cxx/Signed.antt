-- ===== src/Cxx/Signed.antt =====
-- Signed numbers in base ten.
use boost_asio_cpp_network_p.Common.{
  ℕ, zero, suc, ◌-◌, ◌^◌, ◌<◌, ◌≡◌, ◌≢◌, refl, ◌∙◌, Option, none, some, [], ◌∷◌, Bytes, leb, ◌==◌,
  if◌then◌else◌, length, arith, append-nil, le→leb,
}
use boost_asio_cpp_network_p.Cxx.Charconv.{
  digits, IsDigits, digits-IsDigits, digits-ne-nil, length-digits, Parsed, parsed, from_chars,
  from_chars-digits, from_chars-digits_over,
}

-- `negsuc n` is -(n + 1).
pub data ℤ : Type 0 where
  pos : ℕ → ℤ
  negsuc : ℕ → ℤ

abbrev pub negate : ℕ → ℤ
negate zero = pos 0
negate (suc n) = negsuc n

abbrev pub signed_digits : ℤ → Bytes
signed_digits (pos n) = digits n
signed_digits (negsuc n) = b'-' ∷ digits (suc n)

-- std::to_chars of a signed number into `room` bytes.
unfoldable pub to_chars_signed : ℕ → ℤ → Option Bytes
to_chars_signed room z =
    if leb (length (signed_digits z)) room then some (signed_digits z) else none

abbrev positive : Parsed → Option ℤ
positive (parsed n) = some (pos n)
positive _ = none

abbrev negative : Parsed → Option ℤ
negative (parsed n) = some (negate n)
negative _ = none

-- std::from_chars into an int of 32 bits; `none` is any error.
unfoldable pub from_chars_int : Bytes → Option ℤ
from_chars_int [] = none
from_chars_int (c ∷ s) =
    if c == b'-'
    then negative (from_chars (2 ^ 31) s)
    else positive (from_chars (2 ^ 31 - 1) (c ∷ s))

-- The range of int, and that of the 64-bit count of seconds.
abbrev pub FitsInt : ℤ → Type 0
FitsInt (pos n) = n < 2 ^ 31
FitsInt (negsuc n) = n < 2 ^ 31

abbrev pub FitsInt64 : ℤ → Type 0
FitsInt64 (pos n) = n < 2 ^ 63
FitsInt64 (negsuc n) = n < 2 ^ 63

-- Twenty-one bytes hold every 64-bit number.
pub to_chars_signed-fits : (z : ℤ) → FitsInt64 z → to_chars_signed 21 z ≡ some (signed_digits z)
unfolding to_chars_signed
to_chars_signed-fits (pos n) h =
    let short = (length-digits 18 n).1 (omega arith) in
    rw (le→leb (length (digits n)) 21 (omega arith))
to_chars_signed-fits (negsuc n) h =
    let short = (length-digits 18 (suc n)).1 (omega arith) in
    rw (le→leb (length (b'-' ∷ digits (suc n))) 21 (omega arith))

-- What `from_chars_int` makes of a text that begins with a digit.
from_chars_int_digits :
    (s : Bytes) → s ≢ [] → IsDigits s → from_chars_int s ≡ positive (from_chars (2 ^ 31 - 1) s)
unfolding from_chars_int
from_chars_int_digits [] n h = absurd (n refl)
from_chars_int_digits (c ∷ s) n h = ground (arith, h.0)

-- A printed number that fits is read back.
pub from_chars_int-signed_digits : (z : ℤ) → FitsInt z → from_chars_int (signed_digits z) ≡ some z
unfolding from_chars_int
from_chars_int-signed_digits (pos n) h =
    from_chars_int_digits (digits n) (digits-ne-nil n) (digits-IsDigits n)
    ∙ rw (← append-nil (digits n)) (rw (from_chars-digits (2 ^ 31 - 1) n [] (omega arith) tt))
from_chars_int-signed_digits (negsuc n) h =
    rw (← append-nil (digits (suc n))) (rw (from_chars-digits (2 ^ 31) (suc n) [] (omega arith) tt))

pub from_chars_int-signed_digits_over :
    (z : ℤ) → ¬ FitsInt z → from_chars_int (signed_digits z) ≡ none
unfolding from_chars_int
from_chars_int-signed_digits_over (pos n) h =
    from_chars_int_digits (digits n) (digits-ne-nil n) (digits-IsDigits n)
    ∙ rw (← append-nil (digits n)) (rw (from_chars-digits_over (2 ^ 31 - 1) n [] (omega arith) tt))
from_chars_int-signed_digits_over (negsuc n) h =
    rw (← append-nil (digits (suc n)))
      (rw (from_chars-digits_over (2 ^ 31) (suc n) [] (omega arith) tt))
