-- ===== src/Batch/Collated.antt =====
-- The tensors of a batch, and its counts.
use laya_go.Prelude.{
  ℕ, zero, suc, ◌-◌, ◌≤◌, ◌<◌, ◌≡◌, ◌⊎◌, inl, inr, refl, sym, ap, subst, ◌∙◌, some, get_elem?, Bool,
  true, false, List, [], ◌∷◌, ◌++◌, map, length, length-map, replicate, All, max, arith,
}
use mathlib.Core.Option
use mathlib.Core.Option.{some-injective}
use laya_go.Options.{TruncationPolicy}
use laya_go.Preprocess.{Manifest, PreparedQuestion, PreparedItem}
use laya_go.Preprocess.Budget.{IsItem}
use laya_go.Prediction.Valid.{IsTruncation}
use laya_go.Batch.{
  copy, padded, longest, sequence_length, marker_length, Totals, add_totals, totals,
  collate_prepared,
}

module _ {A : Type 0} where
  copy_padded :
      (n : ℕ) (filler : A) (src : List A)
      → length src ≤ n
      → copy (replicate n filler) src ≡ src ++ replicate (n - length src) filler
  unfolding copy
  copy_padded zero filler [] h = refl
  copy_padded zero filler (s ∷ src) h = absurd (omega arith)
  copy_padded (suc n) filler [] h = ap (λ k. replicate k filler) {x = suc n} (omega arith)
  copy_padded (suc n) filler (s ∷ src) h = ap (◌∷◌ s) (
      rw (copy_padded n filler src (omega arith))
        (ap (λ k. src ++ replicate k filler) (omega arith)))

  pub padded_lem :
      (n : ℕ) (filler : A) (src : List A)
      → length src ≤ n
      → padded n filler src ≡ src ++ replicate (n - length src) filler
  unfolding padded
  padded_lem n filler src h = copy_padded n filler src h

  longest-ge : {B : Type 0} (f : B → List A) (n : ℕ) (xs : List B) → n ≤ longest f n xs
  unfolding longest
  longest-ge f n [] = omega arith
  longest-ge f n (x ∷ xs) = omega (arith, longest-ge f (max n (length (f x))) xs)

  pub longest-All :
      {B : Type 0} (f : B → List A) (n : ℕ) (xs : List B)
      → All (λ x. length (f x) ≤ longest f n xs) xs
  unfolding longest
  longest-All f n [] = tt
  longest-All f n (x ∷ xs) = (
    omega (arith, longest-ge f (max n (length (f x))) xs),
    longest-All f (max n (length (f x))) xs,
  )

  -- One of the items has the longest list, unless all are no longer than what there was before.
  longest-reached :
      {B : Type 0} (f : B → List A) (n : ℕ) (xs : List B)
      → (longest f n xs ≡ n)
        ⊎ ((j : ℕ) × (x : B) × (get_elem? xs j ≡ some x) × (length (f x) ≡ longest f n xs))
  unfolding longest
  longest-reached f n [] = inl refl
  longest-reached f n (x ∷ xs) = elim (longest-reached f (max n (length (f x))) xs) [
    | inr (j, y, g, e) ↦ inr (suc j, y, g, e)
    | inl e ↦ elim (bigger n (length (f x))) [
      | inl m ↦ inl (e ∙ m)
      | inr m ↦ inr (0, x, refl, sym (e ∙ m))
    ]
  ]
    where
      bigger : (a b : ℕ) → (max a b ≡ a) ⊎ (max a b ≡ b)
      bigger a b = ground arith

-- The longest list that any of the items has.
abbrev pub IsLongest : (PreparedItem → List ℕ) → List PreparedItem → ℕ → Type 0
IsLongest f items n =
    ((j : ℕ) (x : PreparedItem) → get_elem? items j ≡ some x → length (f x) ≤ n)
    × ((j : ℕ) × (x : PreparedItem) × (get_elem? items j ≡ some x) × (length (f x) ≡ n))

get_elem?-map {κ} :
    {A : Type 0} {B : Type κ} (f : A → B) (xs : List A) (i : ℕ) {x : A}
    → get_elem? xs i ≡ some x
    → get_elem? (map f xs) i ≡ some (f x)
get_elem?-map f [] i h = cc
get_elem?-map f (x ∷ xs) zero h = ap (Option.map f) h
get_elem?-map f (x ∷ xs) (suc i) h = get_elem?-map f xs i h

All-get {κ} :
    {A : Type 0} (P : A → Type κ) (xs : List A) (i : ℕ) {x : A}
    → All P xs
    → get_elem? xs i ≡ some x
    → P x
All-get P [] i a h = absurd (cc)
All-get P (x ∷ xs) zero (p, a) h = subst P (some-injective _ _ h) p
All-get P (x ∷ xs) (suc i) (p, a) h = All-get P xs i a h

map_const : {A B : Type 0} (b : B) (xs : List A) → map (λ _. b) xs ≡ replicate (length xs) b
map_const b [] = refl
map_const b (x ∷ xs) = ap (◌∷◌ b) (map_const b xs)

padded_mask :
    {A B : Type 0} (n : ℕ) (filler b : B) (src : List A)
    → length src ≤ n
    → padded n filler (map (λ _. b) src)
      ≡ replicate (length src) b ++ replicate (n - length src) filler
padded_mask n filler b src h =
    padded_lem n filler (map (λ _. b) src) (rw (length-map src (λ _. b)) h)
    ∙ rw (length-map src (λ _. b), map_const b src)

longest-IsLongest :
    (f : PreparedItem → List ℕ) (items : List PreparedItem) (i : ℕ) (item : PreparedItem)
    → get_elem? items i ≡ some item
    → IsLongest f items (longest f 0 items)
longest-IsLongest f items i item h = (
  fits,
  elim (longest-reached f 0 items) [
    | inr r ↦ r
    | inl e ↦ (i, item, h, omega (arith, fits i item h))
  ],
)
  where
    fits :
        (j : ℕ) (x : PreparedItem) → get_elem? items j ≡ some x → length (f x) ≤ longest f 0 items
    fits j x g =
        All-get (λ (x : PreparedItem). length (f x) ≤ longest f 0 items) items j
          (longest-All f 0 items) g

-- With `wide` and `few` the length of the longest ids and of the most markers that any item of the batch
-- has, row `i` of each tensor is that of item `i`, padded to that length: the ids, then padding; ones
-- exactly over the ids; the markers, then zeros; and true exactly over the markers.
pub collate_prepared-row :
    (items : List PreparedItem) (pad i : ℕ) (item : PreparedItem)
    → get_elem? items i ≡ some item
    → let batch = collate_prepared items pad in
      let ids = length item.input_ids in
      let markers = length item.marker_positions in
      (wide : ℕ) × (few : ℕ) × IsLongest (λ (x : PreparedItem). x.input_ids) items wide
      × IsLongest (λ (x : PreparedItem). x.marker_positions) items few
      × (get_elem? batch.input_ids i ≡ some (item.input_ids ++ replicate (wide - ids) pad))
      × (get_elem? batch.attention_mask i ≡ some (replicate ids 1 ++ replicate (wide - ids) 0))
      × (get_elem? batch.marker_pos i ≡ some (item.marker_positions ++ replicate (few - markers) 0))
      × (get_elem? batch.marker_mask i
          ≡ some (replicate markers true ++ replicate (few - markers) false))
      × (get_elem? batch.qtype i ≡ some item.question.qtype)
unfolding collate_prepared
collate_prepared-row items pad i item h = (
  sequence_length items,
  marker_length items,
  widest,
  most,
  get_elem?-map _ items i h ∙ ap some (padded_lem (sequence_length items) pad item.input_ids fits),
  get_elem?-map _ items i h ∙ ap some (padded_mask (sequence_length items) 0 1 item.input_ids fits),
  get_elem?-map _ items i h
      ∙ ap some (padded_lem (marker_length items) 0 item.marker_positions fits_markers),
  get_elem?-map _ items i h
      ∙ ap some (padded_mask (marker_length items) false true item.marker_positions fits_markers),
  get_elem?-map _ items i h,
)
  where
    widest : IsLongest (λ (x : PreparedItem). x.input_ids) items (sequence_length items)
    widest = longest-IsLongest (λ (x : PreparedItem). x.input_ids) items i item h

    most : IsLongest (λ (x : PreparedItem). x.marker_positions) items (marker_length items)
    most = longest-IsLongest (λ (x : PreparedItem). x.marker_positions) items i item h

    fits : length item.input_ids ≤ sequence_length items
    fits = widest.0 i item h

    fits_markers : length item.marker_positions ≤ marker_length items
    fits_markers = most.0 i item h

-- Counts that agree with the flag.
pub record Agrees (effective original : ℕ) (truncated : Bool) : Type 0 where
  pub bounded : effective ≤ original
  pub shorter : truncated ≡ true → effective < original
  pub same : truncated ≡ false → original ≡ effective

abbrev pub ItemAgrees : PreparedItem → Type 0
ItemAgrees i = Agrees (length i.input_ids) i.original_tokens i.truncated

pub IsItem-Agrees :
    (m : Manifest) (limit : ℕ) (policy : TruncationPolicy) (q : PreparedQuestion) (i : PreparedItem)
    → IsItem m limit policy q i
    → ItemAgrees i
IsItem-Agrees m limit policy q i h = ground arith

add_totals-Agrees :
    (items : List PreparedItem) (t : Totals)
    → Agrees t.effective t.original t.truncated
    → All ItemAgrees items
    → let u = add_totals t items in Agrees u.effective u.original u.truncated
unfolding add_totals
add_totals-Agrees [] t a h = a
add_totals-Agrees (i ∷ is) t a (b, h) = add_totals-Agrees is _ (ground (arith, a, b)) h

-- The truncation metadata of a batch passes the validation of predictions.
pub collate_prepared-IsTruncation :
    (items : List PreparedItem) (pad : ℕ)
    → All ItemAgrees items
    → IsTruncation (collate_prepared items pad).truncation
unfolding collate_prepared
collate_prepared-IsTruncation items pad h =
    let a : Agrees (totals items).effective (totals items).original (totals items).truncated =
      add_totals-Agrees items (record { effective = 0; original = 0; truncated = false })
        (ground arith) h in
    record { original = refl; effective = refl; shorter = a.shorter; same = a.same }
