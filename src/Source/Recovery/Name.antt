-- ===== src/Source/Recovery/Name.antt =====
-- The names of stages.
use laya_go.Prelude.{
  ℕ, zero, suc, ◌-◌, ◌<◌, All, ◌≡◌, inl, inr, refl, sym, ap, ◌∙◌, String, Bool, true, ◌&&◌, List,
  [], ◌∷◌, ◌++◌, length, length-append, take, drop, get_or, ◌==◌, arith,
}
use laya_go.Bundle.Text.{codes, all_chars, all_chars-Tests, is_lower_hex}
use laya_go.Source.Recovery.{valid_stage_name}

pub both : (a b : Bool) → (a && b) ≡ true → (a ≡ true) × (b ≡ true)
both a b e = ground arith

same : (a b : ℕ) → (a == b) ≡ true → a ≡ b
same a b e = ground arith

-- 64 lower-case hexadecimal digits, a dash, and 32 more.
abbrev pub IsStageName : String → Type 0
IsStageName s =
    (digest : List ℕ) × (random : List ℕ) × (codes s ≡ digest ++ (b'-' ∷ random))
    × (length digest ≡ 64)
    × (length random ≡ 32)
    × All (λ c. is_lower_hex c ≡ true) digest
    × All (λ c. is_lower_hex c ≡ true) random

-- A text is what stands before a position, what stands there, and what stands behind it.
split_at :
    (n : ℕ) (cs : List ℕ) (d : ℕ)
    → n < length cs
    → get_or cs n 0 ≡ d
    → (cs ≡ take n cs ++ (d ∷ drop (suc n) cs))
      × (length (take n cs) ≡ n)
      × (length (drop (suc n) cs) ≡ length cs - suc n)
split_at n [] d h e = absurd (omega arith)
split_at zero (c ∷ cs) d h e = (ap (λ (x : ℕ). x ∷ cs) e, refl, omega arith)
split_at (suc n) (c ∷ cs) d h e =
    let (a, b, k) = split_at n cs d (omega arith) e in
    (ap (λ (xs : List ℕ). c ∷ xs) a, ap suc b, omega (arith, k))

join_at :
    (xs ys : List ℕ) (d : ℕ)
    → (get_or (xs ++ (d ∷ ys)) (length xs) 0 ≡ d)
      × (take (length xs) (xs ++ (d ∷ ys)) ≡ xs)
      × (drop (suc (length xs)) (xs ++ (d ∷ ys)) ≡ ys)
join_at [] ys d = (refl, refl, refl)
join_at (x ∷ xs) ys d = let (a, b, c) = join_at xs ys d in (a, ap (λ (zs : List ℕ). x ∷ zs) b, c)

pub valid_stage_name-IsStageName : (s : String) → valid_stage_name s ≡ true → IsStageName s
unfolding valid_stage_name
valid_stage_name-IsStageName s h =
    let (h₁, r) = both _ (all_chars is_lower_hex (drop 65 (codes s))) h in
    let (h₂, d) = both _ (all_chars is_lower_hex (take 64 (codes s))) h₁ in
    let (n, m) = both (length (codes s) == 97) (get_or (codes s) 64 0 == b'-') h₂ in
    let l : length (codes s) ≡ 97 = same (length (codes s)) 97 n in
    let dash : get_or (codes s) 64 0 ≡ b'-' = same (get_or (codes s) 64 0) b'-' m in
    let (a, b, c) = split_at 64 (codes s) b'-' (omega arith) dash in
    (
      take 64 (codes s),
      drop 65 (codes s),
      a,
      b,
      omega (arith, c),
      chars (take 64 (codes s)) d,
      chars (drop 65 (codes s)) r,
    )
  where
    chars : (cs : List ℕ) → all_chars is_lower_hex cs ≡ true → All (λ c. is_lower_hex c ≡ true) cs
    chars cs e = elim (all_chars-Tests is_lower_hex cs) [
      | inl (h, _) ↦ h
      | inr (_, f) ↦ absurd (cc)
    ]

pub IsStageName-valid_stage_name : (s : String) → IsStageName s → valid_stage_name s ≡ true
unfolding valid_stage_name
IsStageName-valid_stage_name s (xs, ys, e, n, m, d, r) =
    let (a, b, c) = join_at xs ys b'-' in
    let a' : get_or (codes s) 64 0 ≡ b'-' =
      ap (λ (l : List ℕ). get_or l 64 0) e ∙ ap (λ k. get_or (xs ++ (b'-' ∷ ys)) k 0) (sym n) ∙ a in
    let b' : take 64 (codes s) ≡ xs =
      ap (take 64) e ∙ ap (λ k. take k (xs ++ (b'-' ∷ ys))) (sym n) ∙ b in
    let c' : drop 65 (codes s) ≡ ys =
      ap (drop 65) e ∙ ap (λ k. drop (suc k) (xs ++ (b'-' ∷ ys))) (sym n) ∙ c in
    let l : length (codes s) ≡ 97 = ap length e ∙ omega (arith, length-append xs (b'-' ∷ ys)) in
    rw (a', b', c', l, chars xs d, chars ys r) refl
  where
    chars : (cs : List ℕ) → All (λ c. is_lower_hex c ≡ true) cs → all_chars is_lower_hex cs ≡ true
    chars cs h = elim (all_chars-Tests is_lower_hex cs) [
      | inl (_, f) ↦ f
      | inr (n, _) ↦ absurd (n h)
    ]
