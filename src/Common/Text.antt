-- ===== src/Common/Text.antt =====
-- Text as the list of its bytes, with the searches that std::string and std::string_view offer.
use Prim.Native.Nat.{ℕ, suc}
use Prim.Native.Char.{code}
use Prim.Native.String.{String}
use mathlib.Core.Path.{◌≡◌, refl}
use mathlib.Core.Logic.{◌≢◌}
use mathlib.Core.Bool.{Bool, true, false, ◌&&◌}
use mathlib.Core.Option.{Option, none, some}
use mathlib.Core.List.{List, [], ◌∷◌, ◌++◌}
use native.Mathlib.Omega.{arith}
use boost_asio_cpp_network_p.Common.Tests.{◌==◌, if◌then◌else◌}
use boost_asio_cpp_network_p.Common.Lists.{All, length}

abbrev pub Bytes : Type 0
Bytes = List ℕ

-- The code points of a literal; its bytes, since every literal of the sources is ASCII.
abbrev pub codes : String → Bytes
codes String.[] = []
codes (String.◌∷◌ c s) = code c ∷ codes s

abbrev pub Lacks : ℕ → Bytes → Type 0
Lacks b = All (λ c. c ≢ b)

-- std::string's `==`.
abbrev pub beq : Bytes → Bytes → Bool
beq [] [] = true
beq (a ∷ s) (b ∷ t) = (a == b) && beq s t
beq _ _ = false

pub beq_refl : (s : Bytes) → beq s s ≡ true
beq_refl [] = refl
beq_refl (c ∷ s) = ground (arith, beq_refl s)

pub eq_of_beq : (s t : Bytes) → beq s t ≡ true → s ≡ t
eq_of_beq [] [] h = refl
eq_of_beq [] (b ∷ t) h = cc
eq_of_beq (a ∷ s) [] h = cc
eq_of_beq (a ∷ s) (b ∷ t) h = ground (arith, eq_of_beq s t)

abbrev pub starts_with : Bytes → Bytes → Bool
starts_with [] s = true
starts_with (p ∷ ps) [] = false
starts_with (p ∷ ps) (c ∷ s) = (p == c) && starts_with ps s

pub starts_with-append : (p s : Bytes) → starts_with p (p ++ s) ≡ true
starts_with-append [] s = refl
starts_with-append (c ∷ p) s = ground (arith, starts_with-append p s)

-- `find` of a text; `none` is npos.
unfoldable pub find_text : Bytes → Bytes → Option ℕ
find_text p [] = if starts_with p [] then some 0 else none
find_text p (c ∷ s) =
    if starts_with p (c ∷ s)
    then some 0
    else elim (find_text p s) [ none ↦ none | some i ↦ some (suc i) ]

-- `find` of one character.
unfoldable pub find_char : ℕ → Bytes → Option ℕ
find_char d [] = none
find_char d (c ∷ s) =
    if c == d then some 0 else elim (find_char d s) [ none ↦ none | some i ↦ some (suc i) ]

pub find_char-append :
    (d : ℕ) (s t : Bytes) → Lacks d s → find_char d (s ++ d ∷ t) ≡ some (length s)
unfolding find_char
find_char-append d [] t h = ground arith
find_char-append d (c ∷ s) t h = ground (arith, find_char-append d s t h.1)

pub find_text-append : (p s : Bytes) → find_text p (p ++ s) ≡ some 0
unfolding find_text
find_text-append [] [] = refl
find_text-append [] (c ∷ s) = refl
find_text-append (x ∷ p) s = ground (arith, starts_with-append p s)
