-- ===== src/Bundle/Text.antt =====
-- The tests on texts of parse.go: the four patterns, lengths in bytes, and sorted paths.
use Prim.Native.Char.{code}
use laya_go.Prelude.{
  ℕ, ◌+◌, ◌≡◌, inl, inr, refl, String, Bool, true, false, ◌&&◌, ◌||◌, not, List, [], ◌∷◌, All,
  length, ltb, leb, ◌==◌, if◌then◌else◌, arith,
}
use laya_go.Question.Valid.{Tests}

abbrev pub codes : String → List ℕ
codes String.[] = []
codes (String.◌∷◌ c s) = code c ∷ codes s

-- `len(s)`: the bytes of a text in UTF-8.
abbrev pub width : ℕ → ℕ
width c = if ltb c 128 then 1 else if ltb c 2048 then 2 else if ltb c 65536 then 3 else 4

unfoldable pub byte_count : List ℕ → ℕ
byte_count [] = 0
byte_count (c ∷ cs) = width c + byte_count cs

abbrev pub byte_length : String → ℕ
byte_length s = byte_count (codes s)

abbrev pub between : ℕ → ℕ → ℕ → Bool
between lo hi c = leb lo c && leb c hi

abbrev pub is_lower_hex : ℕ → Bool
is_lower_hex c = between b'0' b'9' c || between b'a' b'f' c

abbrev pub is_alphanumeric : ℕ → Bool
is_alphanumeric c = between b'A' b'Z' c || between b'a' b'z' c || between b'0' b'9' c

abbrev pub is_identifier_char : ℕ → Bool
is_identifier_char c = is_alphanumeric c || c == b'.' || c == b'_' || c == b'/' || c == b'-'

abbrev pub is_version_char : ℕ → Bool
is_version_char c = is_alphanumeric c || c == b'.' || c == b'_' || c == b'+' || c == b'-'

unfoldable pub all_chars : (ℕ → Bool) → List ℕ → Bool
all_chars p [] = true
all_chars p (c ∷ cs) = p c && all_chars p cs

-- `^[0-9a-f]{n}$`.
unfoldable pub is_hex : ℕ → String → Bool
unfolding all_chars
is_hex n s = length (codes s) == n && all_chars is_lower_hex (codes s)

-- A pattern of one alphanumeric character and any number of others.
unfoldable pub begins_alphanumeric : (ℕ → Bool) → List ℕ → Bool
unfolding all_chars
begins_alphanumeric p [] = false
begins_alphanumeric p (c ∷ cs) = is_alphanumeric c && all_chars p cs

-- `a < b` on texts: the order of the code points is that of the bytes in UTF-8.
unfoldable pub codes_lt : List ℕ → List ℕ → Bool
codes_lt cs [] = false
codes_lt [] (d ∷ ds) = true
codes_lt (c ∷ cs) (d ∷ ds) = ltb c d || c == d && codes_lt cs ds

-- `slices.IsSorted`: no text is less than the one before it.
unfoldable pub is_sorted : List String → Bool
unfolding codes_lt
is_sorted [] = true
is_sorted (s ∷ []) = true
is_sorted (s ∷ t ∷ ss) = not (codes_lt (codes t) (codes s)) && is_sorted (t ∷ ss)

-- What the tests decide.
pub all_chars-Tests :
    (p : ℕ → Bool) (cs : List ℕ) → Tests (All (λ c. p c ≡ true) cs) (all_chars p cs)
unfolding all_chars
all_chars-Tests p [] = inl (tt, refl)
all_chars-Tests p (c ∷ cs) = ground (arith, all_chars-Tests p cs)

-- A text of `n` lower-case hexadecimal digits.
abbrev pub IsHex : ℕ → String → Type 0
IsHex n s = (length (codes s) ≡ n) × All (λ c. is_lower_hex c ≡ true) (codes s)

pub is_hex-Tests : (n : ℕ) (s : String) → Tests (IsHex n s) (is_hex n s)
unfolding is_hex
is_hex-Tests n s = ground (arith, all_chars-Tests is_lower_hex (codes s))

abbrev pub Begins : (ℕ → Bool) → List ℕ → Type 0
Begins p [] = ⊥
Begins p (c ∷ cs) = (is_alphanumeric c ≡ true) × All (λ c. p c ≡ true) cs

pub begins_alphanumeric-Tests :
    (p : ℕ → Bool) (cs : List ℕ) → Tests (Begins p cs) (begins_alphanumeric p cs)
unfolding begins_alphanumeric
begins_alphanumeric-Tests p [] = inr ((λ h. h), refl)
begins_alphanumeric-Tests p (c ∷ cs) = ground (arith, all_chars-Tests p cs)

-- No text stands before one that is less.
abbrev pub IsSorted : List String → Type 0
IsSorted [] = Unit
IsSorted (s ∷ []) = Unit
IsSorted (s ∷ t ∷ ss) = (codes_lt (codes t) (codes s) ≡ false) × IsSorted (t ∷ ss)

pub is_sorted-Tests : (ss : List String) → Tests (IsSorted ss) (is_sorted ss)
unfolding is_sorted
is_sorted-Tests [] = inl (tt, refl)
is_sorted-Tests (s ∷ []) = inl (tt, refl)
is_sorted-Tests (s ∷ t ∷ ss) = ground (arith, is_sorted-Tests (t ∷ ss))
