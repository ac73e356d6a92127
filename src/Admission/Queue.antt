-- ===== src/Admission/Queue.antt =====
-- Lemmas on the lists of call numbers: removal, and numbers that rise along a list.
use laya_go.Prelude.{
  ℕ, suc, ◌≤◌, ◌≡◌, ◌⊎◌, inl, inr, refl, true, false, List, [], ◌∷◌, ◌++◌, subst, length, Has,
  arith,
}
use laya_go.Admission.{member, remove}

pub length-zero : (xs : List ℕ) → length xs ≡ 0 → xs ≡ []
length-zero [] h = refl
length-zero (x ∷ xs) h = absurd (omega arith)

pub member-Has : (c : ℕ) (xs : List ℕ) → member c xs ≡ true → Has c xs
member-Has c [] h = cc
member-Has c (x ∷ xs) h = ground (arith, member-Has c xs)

pub Has-append : (c : ℕ) (xs ys : List ℕ) → Has c (xs ++ ys) → Has c xs ⊎ Has c ys
Has-append c [] ys h = inr h
Has-append c (x ∷ xs) ys (inl e) = inl (inl e)
Has-append c (x ∷ xs) ys (inr h) = elim (Has-append c xs ys h) [
  | inl p ↦ inl (inr p)
  | inr p ↦ inr p
]

pub length-remove-Has : (c : ℕ) (xs : List ℕ) → Has c xs → suc (length (remove c xs)) ≡ length xs
length-remove-Has c [] h = absurd h
length-remove-Has c (x ∷ xs) h = ground (arith, length-remove-Has c xs)

pub length-remove : (c : ℕ) (xs : List ℕ) → length (remove c xs) ≤ length xs
length-remove c [] = omega arith
length-remove c (x ∷ xs) = ground (arith, length-remove c xs)

-- The numbers rise from `lo` on and stay below `hi`.
abbrev pub Increasing : ℕ → List ℕ → ℕ → Type 0
Increasing lo [] hi = lo ≤ hi
Increasing lo (x ∷ xs) hi = (lo ≤ x) × Increasing (suc x) xs hi

pub Increasing-lo : (k lo hi : ℕ) (xs : List ℕ) → k ≤ lo → Increasing lo xs hi → Increasing k xs hi
Increasing-lo k lo hi [] h i = omega arith
Increasing-lo k lo hi (x ∷ xs) h (l, i) = (omega arith, i)

pub Increasing-remove :
    (c lo hi : ℕ) (xs : List ℕ) → Increasing lo xs hi → Increasing lo (remove c xs) hi
Increasing-remove c lo hi [] i = i
Increasing-remove c lo hi (x ∷ xs) (l, i) =
    ground (arith, Increasing-lo lo (suc x) hi xs, Increasing-remove c (suc x) hi xs i)

pub Increasing-hi : (lo hi : ℕ) (xs : List ℕ) → Increasing lo xs hi → Increasing lo xs (suc hi)
Increasing-hi lo hi [] i = omega arith
Increasing-hi lo hi (x ∷ xs) (l, i) = (l, Increasing-hi (suc x) hi xs i)

pub Increasing-snoc :
    (lo hi : ℕ) (xs : List ℕ) → Increasing lo xs hi → Increasing lo (xs ++ (hi ∷ [])) (suc hi)
Increasing-snoc lo hi [] i = (i, omega arith)
Increasing-snoc lo hi (x ∷ xs) (l, i) = (l, Increasing-snoc (suc x) hi xs i)

-- Each of the first calls arrived before every waiter.
abbrev pub Before : List ℕ → List ℕ → ℕ → Type 0
Before [] ws hi = Unit
Before (h ∷ hs) ws hi = Increasing (suc h) ws hi × Before hs ws hi

pub Before-remove : (c hi : ℕ) (hs ws : List ℕ) → Before hs ws hi → Before (remove c hs) ws hi
Before-remove c hi [] ws b = b
Before-remove c hi (h ∷ hs) ws (i, b) = ground (arith, Before-remove c hi hs ws b)

pub Before-remove_waiter :
    (c hi : ℕ) (hs ws : List ℕ) → Before hs ws hi → Before hs (remove c ws) hi
Before-remove_waiter c hi [] ws b = b
Before-remove_waiter c hi (h ∷ hs) ws (i, b) =
    (Increasing-remove c (suc h) hi ws i, Before-remove_waiter c hi hs ws b)

pub Before-hi : (hi : ℕ) (hs ws : List ℕ) → Before hs ws hi → Before hs ws (suc hi)
Before-hi hi [] ws b = b
Before-hi hi (h ∷ hs) ws (i, b) = (Increasing-hi (suc h) hi ws i, Before-hi hi hs ws b)

pub Before-snoc : (hi : ℕ) (hs ws : List ℕ) → Before hs ws hi → Before hs (ws ++ (hi ∷ [])) (suc hi)
Before-snoc hi [] ws b = b
Before-snoc hi (h ∷ hs) ws (i, b) = (Increasing-snoc (suc h) hi ws i, Before-snoc hi hs ws b)

pub Before-tail : (w hi : ℕ) (hs ws : List ℕ) → Before hs (w ∷ ws) hi → Before hs ws hi
Before-tail w hi [] ws b = b
Before-tail w hi (h ∷ hs) ws ((l, i), b) =
    (Increasing-lo (suc h) (suc w) hi ws (omega arith) i, Before-tail w hi hs ws b)

-- The head of the queue is none of those before it.
pub Before-fresh : (w hi : ℕ) (hs ws : List ℕ) → Before hs (w ∷ ws) hi → member w hs ≡ false
Before-fresh w hi [] ws b = refl
Before-fresh w hi (h ∷ hs) ws ((l, i), b) = ground (arith, Before-fresh w hi hs ws b)

pub Before-Has : (c hi : ℕ) (hs ws : List ℕ) → Has c hs → Before hs ws hi → Increasing (suc c) ws hi
Before-Has c hi [] ws h b = absurd h
Before-Has c hi (h ∷ hs) ws (inl e) (i, b) = subst (λ k. Increasing (suc k) ws hi) e i
Before-Has c hi (h ∷ hs) ws (inr p) (i, b) = Before-Has c hi hs ws p b
