-- ===== src/Bundle/Valid.antt =====
-- Which texts and numbers the small checks of parse.go accept, and how checks in a row accept.
pub mod Sections
pub mod Whole
use laya_go.Prelude.{
  ℕ, zero, suc, ◌≤◌, ◌<◌, ◌≡◌, ◌≢◌, ◌⊎◌, inl, inr, refl, String, str_eq, Bool, true, false, not,
  ◌||◌, ◌&&◌, List, [], ◌∷◌, All, Fresh, Distinct, length, map, ltb, arith,
}
use laya_go.Prelude.Int.{ℤ, pos, pos_part, neg_part, ltb_ℤ, eqb_ℤ}
use laya_go.Prelude.Float.{FloatOps, is_finite}
use laya_go.Errors.{
  Error, sentinel, stage_error, invalid_bundle, matches, matches_sentinel, matches_stage_error,
  Outcome, ok, err, ◌>>=◌, ◌>>◌, refuse, Outcome-cases,
}
use laya_go.Question.Valid.{Tests, str_eq-Tests, seen_before-Fresh, Admits, Admits-cons}
use laya_go.Bundle.Text.{
  byte_length, IsHex, is_hex-Tests, Begins, begins_alphanumeric-Tests, codes, is_identifier_char,
  is_version_char, IsSorted, is_sorted-Tests,
}
use laya_go.Bundle.Rules.{
  bad_bundle, validate_string, validate_identifier, validate_version, validate_positive,
  validate_hex, non_negative, validate_count,
}

-- A check that accepts exactly what satisfies `P`, and otherwise fails with an invalid bundle.
abbrev pub Accepts : Type 0 → Outcome (Unit {0}) → Type 0
Accepts P o =
    (P × (o ≡ ok tt)) ⊎ ((P → ⊥) × (e : Error) × (o ≡ err e) × (matches e invalid_bundle ≡ true))

infixr 3 ◌&◌
abbrev pub ◌&◌ : Type 0 → Type 0 → Type 0
P & Q = P × Q

infixr 3 ◌next◌
pub ◌next◌ :
    {P Q : Type 0} {m n : Outcome (Unit {0})} → Accepts P m → Accepts Q n → Accepts (P & Q) (m >> n)
inl (p, e) next inl (q, d) = inl ((p, q), rw e d)
inl (p, e) next inr (nope, x, d, k) = inr ((λ (_, q). nope q), x, rw e d, k)
inr (nope, x, d, k) next b = inr ((λ (p, _). nope p), x, rw d refl, k)

pub need : {P : Type 0} {b : Bool} → Tests P b → Accepts P (refuse (not b) bad_bundle)
need (inl (p, e)) = inl (p, rw e refl)
need (inr (n, e)) = inr (n, bad_bundle, rw e refl, matches_sentinel invalid_bundle)

pub avoid : {P : Type 0} {b : Bool} → Tests P b → Accepts (P → ⊥) (refuse b bad_bundle)
avoid (inl (p, e)) = inr ((λ n. n p), bad_bundle, rw e refl, matches_sentinel invalid_bundle)
avoid (inr (n, e)) = inl (n, rw e refl)

-- A text that is not empty, of at most so many bytes, and at most 512.
abbrev pub IsText : ℕ → String → Type 0
IsText limit s = (s ≢ "") & (byte_length s ≤ limit) & (byte_length s ≤ 512)

pub validate_string-Accepts :
    (limit : ℕ) (s : String) → Accepts (IsText limit s) (validate_string limit s)
unfolding validate_string
validate_string-Accepts limit s = ground (arith, str_eq-Tests s "", matches_sentinel invalid_bundle)

abbrev pub IsIdentifier : String → Type 0
IsIdentifier s = IsText 128 s & Begins is_identifier_char (codes s)

abbrev pub IsVersion : String → Type 0
IsVersion s = IsText 64 s & Begins is_version_char (codes s)

pub validate_identifier-Accepts : (s : String) → Accepts (IsIdentifier s) (validate_identifier s)
unfolding validate_identifier
validate_identifier-Accepts s =
    validate_string-Accepts 128 s next need (begins_alphanumeric-Tests is_identifier_char (codes s))

pub validate_version-Accepts : (s : String) → Accepts (IsVersion s) (validate_version s)
unfolding validate_version
validate_version-Accepts s =
    validate_string-Accepts 64 s next need (begins_alphanumeric-Tests is_version_char (codes s))

pub validate_hex-Accepts : (n : ℕ) (s : String) → Accepts (IsHex n s) (validate_hex n s)
unfolding validate_hex
validate_hex-Accepts n s = need (is_hex-Tests n s)

abbrev pub IsPositive : ℤ → Type 0
IsPositive n = 0 < pos_part n

pub validate_positive-Accepts : (n : ℤ) → Accepts (IsPositive n) (validate_positive n)
unfolding validate_positive
validate_positive-Accepts n = ground (arith, matches_sentinel invalid_bundle)

abbrev pub IsNonNegative : ℤ → Type 0
IsNonNegative n = neg_part n ≡ 0

pub non_negative-Accepts : (n : ℤ) → Accepts (IsNonNegative n) (non_negative n)
non_negative-Accepts n = ground (arith, matches_sentinel invalid_bundle)

pub validate_count-Accepts : (lo hi n : ℕ) → Accepts ((lo ≤ n) & (n ≤ hi)) (validate_count lo hi n)
validate_count-Accepts lo hi n = ground (arith, matches_sentinel invalid_bundle)

-- The same check, of what is the same.
pub Accepts-iff :
    {P Q : Type 0} {o : Outcome (Unit {0})} → (P → Q) → (Q → P) → Accepts P o → Accepts Q o
Accepts-iff f g (inl (p, e)) = inl (f p, e)
Accepts-iff f g (inr (nope, x, e, k)) = inr ((λ q. nope (g q)), x, e, k)

pub pass : Accepts Unit (ok tt)
pass = inl (tt, refl)

pub or-Tests : {P Q : Type 0} {a b : Bool} → Tests P a → Tests Q b → Tests (P ⊎ Q) (a || b)
or-Tests p q = ground arith

pub not-Tests : {P : Type 0} {b : Bool} → Tests P b → Tests (P → ⊥) (not b)
not-Tests p = ground arith
