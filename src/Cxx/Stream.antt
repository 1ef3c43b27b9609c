-- ===== src/Cxx/Stream.antt =====
-- std::istream over a buffer: the characters left to read, eofbit and failbit.
-- badbit is never set by a buffer in memory.
use boost_asio_cpp_network_p.Common.{
  ℕ, ◌<◌, ◌≤◌, ◌≡◌, ◌≢◌, refl, Bool, true, false, not, ◌&&◌, ◌||◌, Option, none, some, [], ◌∷◌,
  ◌++◌, arith, leb, ◌==◌, if◌then◌else◌, Bytes, Lacks, All, length, Option-cases, inl, inr,
}

pub record Stream : Type 0 where
  pub chars : Bytes
  pub eofbit : Bool
  pub failbit : Bool

-- A stream with no flag set.
abbrev pub fresh : Bytes → Stream
fresh s = record { chars = s; eofbit = false; failbit = false }

abbrev pub good : Stream → Bool
good s = not (s.eofbit || s.failbit)

abbrev pub set_fail : Stream → Stream
set_fail s = record s { failbit = true }

-- What stands before the first delimiter, and behind it.
abbrev pub before : ℕ → Bytes → Bytes
before d [] = []
before d (c ∷ s) = if c == d then [] else c ∷ before d s

abbrev pub after? : ℕ → Bytes → Option Bytes
after? d [] = none
after? d (c ∷ s) = if c == d then some s else after? d s

abbrev is_empty : Bytes → Bool
is_empty [] = true
is_empty (c ∷ s) = false

-- std::getline(is, str, d). The old text stays if the stream was not good.
unfoldable pub getline : ℕ → Bytes → Stream → Bytes × Stream
getline d old s =
    if good s
    then elim (after? d s.chars) [
      | none ↦ (before d s.chars, record { chars = []; eofbit = true; failbit = is_empty s.chars })
      | some rest ↦ (before d s.chars, record s { chars = rest })
    ]
    else (old, set_fail s)

-- is.get(), the character thrown away.
unfoldable pub get : Stream → Stream
get s =
    if good s
    then elim s.chars [
      | [] ↦ record s { eofbit = true; failbit = true }
      | c ∷ rest ↦ record s { chars = rest }
    ]
    else set_fail s

-- std::isspace in the C locale.
abbrev pub is_space : ℕ → Bool
is_space c = (c == 32) || (leb 9 c && leb c 13)

abbrev skip_space : Bytes → Bytes
skip_space [] = []
skip_space (c ∷ s) = if is_space c then skip_space s else c ∷ s

abbrev word : Bytes → Bytes
word [] = []
word (c ∷ s) = if is_space c then [] else c ∷ word s

abbrev behind_word : Bytes → Bytes
behind_word [] = []
behind_word (c ∷ s) = if is_space c then c ∷ s else behind_word s

-- is >> str.
unfoldable pub extract : Bytes → Stream → Bytes × Stream
extract old s =
    if good s
    then elim (skip_space s.chars) [
      | [] ↦ (old, record { chars = []; eofbit = true; failbit = true })
      | c ∷ t ↦ (
        word (c ∷ t),
        record {
          chars = behind_word (c ∷ t);
          eofbit = is_empty (behind_word (c ∷ t));
          failbit = false;
        },
      )
    ]
    else (old, set_fail s)

after?-append : (d : ℕ) (s t : Bytes) → Lacks d s → after? d (s ++ d ∷ t) ≡ some t
after?-append d [] t h = ground arith
after?-append d (c ∷ s) t h = ground (arith, after?-append d s t h.1)

before-append : (d : ℕ) (s t : Bytes) → Lacks d s → before d (s ++ d ∷ t) ≡ s
before-append d [] t h = ground arith
before-append d (c ∷ s) t h = ground (arith, before-append d s t h.1)

-- A line up to its delimiter.
pub getline-append :
    (d : ℕ) (old s t : Bytes) → Lacks d s → getline d old (fresh (s ++ d ∷ t)) ≡ (s, fresh t)
unfolding getline
getline-append d old s t h = rw (after?-append d s t h, before-append d s t h)

-- A text of the characters that `>>` takes.
abbrev pub IsWord : Bytes → Type 0
IsWord = All (λ c. is_space c ≡ false)

skip_space-word : (c : ℕ) (w t : Bytes) → is_space c ≡ false → skip_space (c ∷ w ++ t) ≡ c ∷ w ++ t
skip_space-word c w t h = rw h

word-append : (w : Bytes) (c : ℕ) (t : Bytes) → IsWord w → is_space c ≡ true → word (w ++ c ∷ t) ≡ w
word-append [] c t h e = rw e
word-append (x ∷ w) c t h e = rw (h.0, word-append w c t h.1 e)

behind_word-append :
    (w : Bytes) (c : ℕ) (t : Bytes)
    → IsWord w
    → is_space c ≡ true
    → behind_word (w ++ c ∷ t) ≡ c ∷ t
behind_word-append [] c t h e = rw e
behind_word-append (x ∷ w) c t h e = rw (h.0, behind_word-append w c t h.1 e)

word_whole : (w : Bytes) → IsWord w → word w ≡ w
word_whole [] h = refl
word_whole (x ∷ w) h = rw (h.0, word_whole w h.1)

behind_word_whole : (w : Bytes) → IsWord w → behind_word w ≡ []
behind_word_whole [] h = refl
behind_word_whole (x ∷ w) h = rw (h.0, behind_word_whole w h.1)

-- A word with a space behind it.
pub extract-word :
    (old w : Bytes) (c : ℕ) (t : Bytes)
    → w ≢ []
    → IsWord w
    → is_space c ≡ true
    → extract old (fresh (w ++ c ∷ t)) ≡ (w, fresh (c ∷ t))
unfolding extract
extract-word old [] c t n h e = absurd (n refl)
extract-word old (x ∷ w) c t n h e =
    simp (h.0, word-append w c t h.1 e, behind_word-append w c t h.1 e)

-- A word that ends the text.
pub extract_last :
    (old w : Bytes)
    → w ≢ []
    → IsWord w
    → extract old (fresh w) ≡ (w, record { chars = []; eofbit = true; failbit = false })
unfolding extract
extract_last old [] n h = absurd (n refl)
extract_last old (x ∷ w) n h = simp (h.0, word_whole w h.1, behind_word_whole w h.1)

-- A space in front is passed over.
pub extract-space :
    (old : Bytes) (c : ℕ) (t : Bytes)
    → is_space c ≡ true
    → extract old (fresh (c ∷ t)) ≡ extract old (fresh t)
unfolding extract
extract-space old c t e = rw e

length-after? : (d : ℕ) (s : Bytes) (t : Bytes) → after? d s ≡ some t → length t < length s
length-after? d [] t h = cc
length-after? d (c ∷ s) t h = ground (arith, length-after? d s t)

empty_lem : (s : Bytes) → is_empty s ≡ false → 0 < length s
empty_lem [] h = cc
empty_lem (c ∷ s) h = omega arith

-- A line that was read made the buffer shorter.
pub length-getline :
    (d : ℕ) (old : Bytes) (s : Stream)
    → (getline d old s).1.failbit ≡ false
    → length (getline d old s).1.chars < length s.chars
unfolding getline
length-getline d old s h = elim (Option-cases (after? d s.chars)) [
  | inl e ↦ ground (arith, empty_lem s.chars)
  | inr (t, e) ↦ ground (arith, length-after? d s.chars t e)
]

pub length-get : (s : Stream) → length (get s).chars ≤ length s.chars
unfolding get
length-get s = ground arith

pub get-fresh : (c : ℕ) (s : Bytes) → get (fresh (c ∷ s)) ≡ fresh s
unfolding get
get-fresh c s = refl

-- No read makes the buffer longer.
pub length-getline-le :
    (d : ℕ) (old : Bytes) (s : Stream) → length (getline d old s).1.chars ≤ length s.chars
unfolding getline
length-getline-le d old s = elim (Option-cases (after? d s.chars)) [
  | inl e ↦ ground (arith, e)
  | inr (t, e) ↦ ground (arith, length-after? d s.chars t e)
]
