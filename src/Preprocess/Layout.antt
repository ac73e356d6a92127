-- ===== src/Preprocess/Layout.antt =====
-- Where the markers stand in the ids of an item.
use laya_go.Prelude.{
  ℕ, zero, suc, ◌+◌, ◌≤◌, ◌<◌, ◌≡◌, refl, sym, ap, ◌∙◌, List, [], ◌∷◌, ◌++◌, map, append_assoc,
  some, get_elem?, length, length-append, take, All, arith,
}
use laya_go.Preprocess.{lay_out, retained}

-- Each marker is the position of a mask token.
abbrev pub AtMask : ℕ → List ℕ → List ℕ → Type 0
AtMask mask ids [] = Unit
AtMask mask ids (p ∷ ps) = (get_elem? ids p ≡ some mask) × AtMask mask ids ps

-- Each option begins with the mask token.
abbrev pub StartsWith : ℕ → List ℕ → Type 0
StartsWith mask [] = ⊥
StartsWith mask (x ∷ xs) = x ≡ mask

pub get_elem?-append :
    (xs ys : List ℕ) (p : ℕ) {v : ℕ} → get_elem? xs p ≡ some v → get_elem? (xs ++ ys) p ≡ some v
get_elem?-append [] ys p h = cc
get_elem?-append (x ∷ xs) ys zero h = h
get_elem?-append (x ∷ xs) ys (suc p) h = get_elem?-append xs ys p h

pub get_elem?-lt : (xs : List ℕ) (p : ℕ) {v : ℕ} → get_elem? xs p ≡ some v → p < length xs
get_elem?-lt [] p h = cc
get_elem?-lt (x ∷ xs) zero h = omega arith
get_elem?-lt (x ∷ xs) (suc p) h = omega (arith, get_elem?-lt xs p h)

get_elem?_middle :
    (mask : ℕ) (xs o : List ℕ) → StartsWith mask o → get_elem? (xs ++ o) (length xs) ≡ some mask
get_elem?_middle mask [] [] h = absurd h
get_elem?_middle mask [] (x ∷ o) h = ap some h
get_elem?_middle mask (x ∷ xs) o h = get_elem?_middle mask xs o h

pub AtMask-append : (mask : ℕ) (xs ys ps : List ℕ) → AtMask mask xs ps → AtMask mask (xs ++ ys) ps
AtMask-append mask xs ys [] h = tt
AtMask-append mask xs ys (p ∷ ps) (e, h) =
    (get_elem?-append xs ys p e, AtMask-append mask xs ys ps h)

AtMask-snoc :
    (mask : ℕ) (ids ps : List ℕ) (p : ℕ)
    → AtMask mask ids ps
    → get_elem? ids p ≡ some mask
    → AtMask mask ids (ps ++ (p ∷ []))
AtMask-snoc mask ids [] p h e = (e, tt)
AtMask-snoc mask ids (q ∷ ps) p (d, h) e = (d, AtMask-snoc mask ids ps p h e)

abbrev pub concat : List (List ℕ) → List ℕ
concat [] = []
concat (o ∷ os) = o ++ concat os

-- One marker is noted for each option, at the option's mask token.
pub lay_out-AtMask :
    (mask : ℕ) (input markers : List ℕ) (os : List (List ℕ))
    → All (StartsWith mask) os
    → AtMask mask input markers
    → AtMask mask (lay_out input markers os).0 (lay_out input markers os).1
unfolding lay_out
lay_out-AtMask mask input markers [] h a = a
lay_out-AtMask mask input markers (o ∷ os) (s, h) a =
    lay_out-AtMask mask (input ++ o) (markers ++ (length input ∷ [])) os h (
      AtMask-snoc mask (input ++ o) markers (length input) (AtMask-append mask input o markers a)
        (get_elem?_middle mask input o s))

pub length-lay_out :
    (input markers : List ℕ) (os : List (List ℕ))
    → length (lay_out input markers os).1 ≡ length markers + length os
unfolding lay_out
length-lay_out input markers [] = omega arith
length-lay_out input markers (o ∷ os) = omega (
  arith,
  length-lay_out (input ++ o) (markers ++ (length input ∷ [])) os,
  length-append markers (length input ∷ []),
)

pub lay_out-concat :
    (input markers : List ℕ) (os : List (List ℕ))
    → (lay_out input markers os).0 ≡ input ++ concat os
unfolding lay_out
lay_out-concat input markers [] = sym (mathlib.Core.List.append-nil input)
lay_out-concat input markers (o ∷ os) =
    lay_out-concat (input ++ o) (markers ++ (length input ∷ [])) os
    ∙ append_assoc input o (concat os)

-- Markers at positions below the limit are all retained.
pub retained_all :
    (mask limit : ℕ) (ids ps : List ℕ)
    → AtMask mask ids ps
    → length ids ≤ limit
    → retained limit ps ≡ ps
unfolding retained
retained_all mask limit ids [] h b = refl
retained_all mask limit ids (p ∷ ps) (e, h) b =
    ground (arith, get_elem?-lt ids p e, retained_all mask limit ids ps h b)

pub All-take :
    (mask n : ℕ) (os : List (List ℕ))
    → All (StartsWith mask) os
    → All (StartsWith mask) (map (take (suc n)) os)
All-take mask n [] h = tt
All-take mask n ([] ∷ os) (s, h) = absurd s
All-take mask n ((x ∷ o) ∷ os) (s, h) = (s, All-take mask n os h)
