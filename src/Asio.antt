-- ===== src/Asio.antt =====
-- What the examples see of Boost.Asio: error codes, and calls that return, throw or stop the
-- program. What an operation completes with is an argument of the handler.
use boost_asio_cpp_network_p.Common.{ℕ, Bool, true, false, ◌≡◌, refl, Bytes, length}

-- boost::system::error_code. `http_error` is the category of http_client.cpp; every other code that
-- the examples do not name is a `system_error`.
pub data ErrorCode : Type 0 where
  success operation_aborted eof not_found not_connected : ErrorCode
  http_error system_error : ℕ → ErrorCode

-- The test `if (ec)`.
abbrev pub is_error : ErrorCode → Bool
is_error ErrorCode.success = false
is_error _ = true

abbrev pub is_eof : ErrorCode → Bool
is_eof ErrorCode.eof = true
is_eof _ = false

abbrev pub is_not_found : ErrorCode → Bool
is_not_found ErrorCode.not_found = true
is_not_found _ = false

abbrev pub is_aborted : ErrorCode → Bool
is_aborted ErrorCode.operation_aborted = true
is_aborted _ = false

-- A call returns, throws boost::system::system_error, or fails an assertion
-- or ends the program by an exception of another type.
pub data Result {ℓ} (A : Type ℓ) : Type ℓ where
  ok : A → Result A
  throws : ErrorCode → Result A
  aborts : Result A

infixl 5 ◌>>=◌ ◌>>◌
abbrev pub ◌>>=◌ {ℓ κ} : {A : Type ℓ} {B : Type κ} → Result A → (A → Result B) → Result B
aborts >>= next = aborts
throws ec >>= next = throws ec
ok a >>= next = next a

abbrev pub ◌>>◌ {ℓ} : {B : Type ℓ} → Result (Unit {0}) → Result B → Result B
first >> second = first >>= λ _. second

-- What a call with the error code `ec` does when no error code is asked for.
abbrev pub check : ErrorCode → Result (Unit {0})
check ErrorCode.success = ok tt
check ec = throws ec

-- assert(b).
abbrev pub assert : Bool → Result (Unit {0})
assert true = ok tt
assert false = aborts

pub ok-injective {ℓ} : {A : Type ℓ} (a b : A) → Result.ok a ≡ ok b → a ≡ b
ok-injective a b h = cc

-- If a chain returned, so did its first call.
pub bind_returned {ℓ κ} :
    {A : Type ℓ} {B : Type κ} {b : B} (f : A → Result B) (first : Result A)
    → (first >>= f) ≡ ok b
    → (a : A) × (first ≡ ok a) × (f a ≡ ok b)
bind_returned f aborts e = cc
bind_returned f (throws x) e = cc
bind_returned f (ok a) e = (a, refl, e)

pub bind_assoc {ℓ κ ν} :
    {A : Type ℓ} {B : Type κ} {C : Type ν} (m : Result A) (f : A → Result B) (g : B → Result C)
    → (m >>= λ a. f a >>= g) ≡ ((m >>= f) >>= g)
bind_assoc (ok a) f g = refl
bind_assoc (throws ec) f g = refl
bind_assoc aborts f g = refl

-- What an operation completes with: the arguments of its handler, the bytes that it put into the
-- buffer, and what a shutdown of the socket would end with at that time.
pub record Completion : Type 0 where
  pub ec : ErrorCode
  pub bytes_transferred : ℕ
  pub received : Bytes
  pub shutdown_ec : ErrorCode

-- An operation that put `received` into the buffer.
abbrev pub arrives : ErrorCode → Bytes → Completion
arrives ec received = record {
  ec = ec;
  bytes_transferred = length received;
  received = received;
  shutdown_ec = ErrorCode.success;
}

pub >>=-ok {ℓ} : {A : Type ℓ} (m : Result A) → (m >>= λ a. ok a) ≡ m
>>=-ok (ok a) = refl
>>=-ok (throws e) = refl
>>=-ok aborts = refl
