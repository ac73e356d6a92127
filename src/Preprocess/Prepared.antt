-- ===== src/Preprocess/Prepared.antt =====
-- What `prepareItem` makes of a question and a state, and why it fails.
use Prim.Native.String.{◌++◌ as str_append}
use laya_go.Prelude.{
  ℕ, suc, ◌+◌, ◌-◌, ◌≤◌, ◌<◌, ◌≡◌, ◌⊎◌, inl, inr, refl, ap, String, Bool, List, [], ◌∷◌, ◌++◌,
  length, take, All, arith, take_all, map, sym, ◌∙◌, Bool-cases,
}
use laya_go.Errors.{
  Error, stage_error, input_too_long_error, native_failure, ok, err, Outcome-cases,
}
use laya_go.Options.{TruncationPolicy, reject_overflow}
use laya_go.Preprocess.{
  Manifest, Tokenizer, PreparedQuestion, PreparedItem, encode_text, encode_options, fit_options,
  is_tight, per_option, lay_out, fit_state, prepare_item, head_limit, question_kind_name,
}
use laya_go.Preprocess.Text.{replace_mask}
use laya_go.Preprocess.Layout.{StartsWith, concat, lay_out-concat}
use laya_go.Preprocess.Budget.{IsItem, built, built-IsItem, fit_state_lem, laid, placed}

abbrev pub heading : PreparedQuestion → String
heading q =
    str_append (question_kind_name q.kind) (str_append " question: " (replace_mask q.instructions))

-- Each option has its block: the mask token and the option's tokens up to the limit of the model, or at
-- least the first 4 of these.
abbrev pub IsBlocks : Manifest → Tokenizer → List String → List (List ℕ) → Type 0
IsBlocks m tokenizer [] [] = Unit {0}
IsBlocks m tokenizer [] (b ∷ bs) = ⊥
IsBlocks m tokenizer (o ∷ os) [] = ⊥
IsBlocks m tokenizer (o ∷ os) (b ∷ bs) =
    ((ids : List ℕ) × (n : ℕ) × (tokenizer (str_append " " (replace_mask o)) ≡ ok ids)
      × (4 ≤ n)
      × (b ≡ take n (m.mask ∷ take m.option_max_len ids)))
    × IsBlocks m tokenizer os bs

-- What stands before the state: the class token, at least 8 tokens of the heading if it has so many, a
-- separator, the blocks of the options, and a separator.
abbrev pub IsFront : PreparedQuestion → Manifest → Tokenizer → List ℕ → Type 0
IsFront q m tokenizer front =
    (head : List ℕ) × (n : ℕ) × (blocks : List (List ℕ)) × (tokenizer (heading q) ≡ ok head)
    × (8 ≤ n)
    × IsBlocks m tokenizer q.options blocks
    × (front ≡ (((m.cls ∷ take n head) ++ (m.sep ∷ [])) ++ concat blocks) ++ (m.sep ∷ []))

-- The item has its front, the tokens of the state cut to what the limit leaves, and a separator; its
-- original tokens count those of the whole state.
abbrev pub IsMade : String → PreparedQuestion → Manifest → Tokenizer → ℕ → PreparedItem → Type 0
IsMade state q m tokenizer limit item =
    (front : List ℕ) × (state_ids : List ℕ) × IsFront q m tokenizer front
    × (tokenizer (replace_mask state) ≡ ok state_ids)
    × (length front + 1 ≤ limit)
    × (item.input_ids ≡ front ++ (take (limit - length front - 1) state_ids ++ (m.sep ∷ [])))
    × (item.original_tokens ≡ length front + length state_ids + 1)

-- The tokenizer failed on some text; or all tokens together pass the limit, and overflow is rejected or
-- what stands before the state does not fit.
abbrev pub IsRefused :
    String → PreparedQuestion → Manifest → Tokenizer → ℕ → TruncationPolicy → Error → Type 0
IsRefused state q m tokenizer limit policy e =
    ((text : String) × (x : Error) × (tokenizer text ≡ err x) × (e ≡ stage_error native_failure x))
    ⊎ ((front : List ℕ) × (state_ids : List ℕ) × (c : Bool) × IsFront q m tokenizer front
        × (tokenizer (replace_mask state) ≡ ok state_ids)
        × (limit < length front + length state_ids + 1)
        × ((policy ≡ reject_overflow) ⊎ (limit < length front + 1))
        × (e ≡ input_too_long_error (length front + length state_ids + 1) limit c))

-- The blocks before they are cut to the limit of the heading.
abbrev IsEncoded : Manifest → Tokenizer → List String → List (List ℕ) → Type 0
IsEncoded m tokenizer [] [] = Unit {0}
IsEncoded m tokenizer [] (b ∷ bs) = ⊥
IsEncoded m tokenizer (o ∷ os) [] = ⊥
IsEncoded m tokenizer (o ∷ os) (b ∷ bs) =
    ((ids : List ℕ) × (tokenizer (str_append " " (replace_mask o)) ≡ ok ids)
      × (b ≡ m.mask ∷ take m.option_max_len ids))
    × IsEncoded m tokenizer os bs

IsEncoded-whole :
    (m : Manifest) (tokenizer : Tokenizer) (os : List String) (bs : List (List ℕ))
    → IsEncoded m tokenizer os bs
    → IsBlocks m tokenizer os bs
IsEncoded-whole m tokenizer [] [] h = h
IsEncoded-whole m tokenizer [] (b ∷ bs) h = h
IsEncoded-whole m tokenizer (o ∷ os) [] h = h
IsEncoded-whole m tokenizer (o ∷ os) (b ∷ bs) ((ids, t, e), h) = (
  (
    ids,
    4 + length (m.mask ∷ take m.option_max_len ids),
    t,
    omega arith,
    e ∙ sym (take_all _ (m.mask ∷ take m.option_max_len ids) (omega arith)),
  ),
  IsEncoded-whole m tokenizer os bs h,
)

IsEncoded-cut :
    (m : Manifest) (tokenizer : Tokenizer) (n : ℕ)
    → 4 ≤ n
    → (os : List String) (bs : List (List ℕ)) → IsEncoded m tokenizer os bs
    → IsBlocks m tokenizer os (map (take n) bs)
IsEncoded-cut m tokenizer n w [] [] h = h
IsEncoded-cut m tokenizer n w [] (b ∷ bs) h = h
IsEncoded-cut m tokenizer n w (o ∷ os) [] h = h
IsEncoded-cut m tokenizer n w (o ∷ os) (b ∷ bs) ((ids, t, e), h) =
    ((ids, n, t, w, ap (take n) e), IsEncoded-cut m tokenizer n w os bs h)

fit_options-IsBlocks :
    (m : Manifest) (tokenizer : Tokenizer) (os : List String) (bs : List (List ℕ))
    → IsEncoded m tokenizer os bs
    → IsBlocks m tokenizer os (fit_options m bs)
unfolding fit_options
fit_options-IsBlocks m tokenizer os bs h = elim (Bool-cases (is_tight m bs)) [
  | inl t ↦ rw t (IsEncoded-cut m tokenizer (per_option m bs) (omega arith) os bs h)
  | inr f ↦ rw f (IsEncoded-whole m tokenizer os bs h)
]

text-cases :
    (tokenizer : Tokenizer) (text : String)
    → ((ids : List ℕ) × (encode_text tokenizer text ≡ ok ids) × (tokenizer text ≡ ok ids))
      ⊎ ((x : Error) × (encode_text tokenizer text ≡ err (stage_error native_failure x))
          × (tokenizer text ≡ err x))
unfolding encode_text
text-cases tokenizer text = elim (Outcome-cases (tokenizer text)) [
  | inl (ids, e) ↦ inl (ids, rw (e, encode_text), e)
  | inr (x, e) ↦ inr (x, rw (e, encode_text), e)
]

options-cases :
    (tokenizer : Tokenizer) (m : Manifest) (options : List String)
    → ((os : List (List ℕ)) × (encode_options tokenizer m options ≡ ok os)
        × All (StartsWith m.mask) os
        × (length os ≡ length options)
        × IsEncoded m tokenizer options os)
      ⊎ ((text : String) × (x : Error) × (encode_options tokenizer m options
            ≡ err (stage_error native_failure x))
          × (tokenizer text ≡ err x))
unfolding encode_options
options-cases tokenizer m [] = inl ([], refl, tt, refl, tt)
options-cases tokenizer m (o ∷ options) =
    elim (text-cases tokenizer (str_append " " (replace_mask o))) [
      | inr (x, e, t) ↦ inr (_, x, rw e, t)
      | inl (ids, e, g) ↦ elim (options-cases tokenizer m options) [
        | inr (text, x, d, t) ↦ inr (text, x, rw (e, d), t)
        | inl (os, d, h, n, k) ↦ inl (
          (m.mask ∷ take m.option_max_len ids) ∷ os,
          rw (e, d),
          (refl, h),
          ap suc n,
          ((ids, g, refl), k),
        )
      ]
    ]

-- `prepareItem` returns an item with one marker for each option, each at a mask token, that consists of
-- its front, of at least 8 tokens of the heading if there are so many and a block of each option's own
-- tokens, and of the state's tokens, from the first on, as far as the limit allows; that counts all tokens
-- of the state as original ones; whose flag says whether the limit cut it; and which the limit does not cut where
-- overflow is rejected. Or it fails: because the tokenizer fails on some text, or because all tokens
-- together pass the limit, and overflow is rejected or the front alone does not fit.
pub prepare_item-prepares :
    (state : String) (q : PreparedQuestion) (m : Manifest) (tokenizer : Tokenizer) (limit : ℕ)
    (policy : TruncationPolicy)
    → ((item : PreparedItem) × (prepare_item state q m tokenizer limit policy ≡ ok item)
        × (IsItem m limit policy q item × IsMade state q m tokenizer limit item))
      ⊎ ((e : Error) × (prepare_item state q m tokenizer limit policy ≡ err e)
          × IsRefused state q m tokenizer limit policy e)
unfolding prepare_item
prepare_item-prepares state q m tokenizer limit policy = elim (text-cases tokenizer (heading q)) [
  | inr (x, e, t) ↦ inr (_, rw e, inl (_, x, t, refl))
  | inl (head, e, h) ↦ elim (options-cases tokenizer m q.options) [
    | inr (text, x, d, t) ↦ inr (_, rw (e, d), inl (text, x, t, refl))
    | inl (os, d, s, n, b) ↦ elim (text-cases tokenizer (replace_mask state)) [
      | inr (x, c, t) ↦ inr (_, rw (e, d, c), inl (_, x, t, refl))
      | inl (ids, c, t) ↦
          rw (e, d, c) (fitted state q m tokenizer limit policy head ids os h s n b t)
    ]
  ]
]
  where
    start : Manifest → List ℕ → List (List ℕ) → List ℕ
    start m head os = (m.cls ∷ take (head_limit m (fit_options m os)) head) ++ (m.sep ∷ [])

    fitted :
        (state : String) (q : PreparedQuestion) (m : Manifest) (tokenizer : Tokenizer) (limit : ℕ)
        (policy : TruncationPolicy) (head ids : List ℕ) (os : List (List ℕ))
        → tokenizer (heading q) ≡ ok head
        → (s : All (StartsWith m.mask) os) → (n : length os ≡ length q.options)
        → IsEncoded m tokenizer q.options os
        → tokenizer (replace_mask state) ≡ ok ids
        → let front = laid q m limit policy (start m head os) ids os s n in
          ((item : PreparedItem) × (fit_state q m limit policy (front.0 ++ (m.sep ∷ [])) front.1 ids
              ≡ ok item)
            × (IsItem m limit policy q item × IsMade state q m tokenizer limit item))
          ⊎ ((e : Error) × (fit_state q m limit policy (front.0 ++ (m.sep ∷ [])) front.1 ids
                ≡ err e)
              × IsRefused state q m tokenizer limit policy e)
    fitted state q m tokenizer limit policy head ids os h s n b t =
        let (at, each) = placed q m limit policy (start m head os) ids os s n in
        let l = lay_out (start m head os) [] (fit_options m os) in
        let front : List ℕ = l.0 ++ (m.sep ∷ []) in
        let f : IsFront q m tokenizer front = (
          head,
          head_limit m (fit_options m os),
          fit_options m os,
          h,
          omega arith,
          fit_options-IsBlocks m tokenizer q.options os b,
          ap (λ (x : List ℕ). x ++ (m.sep ∷ []))
              (lay_out-concat (start m head os) [] (fit_options m os)),
        ) in
        elim (fit_state_lem q m limit policy front l.1 ids at each) [
          | inl (r, p, e) ↦ inl (
            _,
            e,
            (
              built-IsItem q m limit policy front l.1 ids at each r p,
              (front, ids, f, t, r, unfold built in refl, unfold built in refl),
            ),
          )
          | inr (c, o, w, e) ↦ inr (_, e, inr (front, ids, c, f, t, o, w, refl))
        ]
