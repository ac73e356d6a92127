-- ===== src/Preprocess/Budget.antt =====
-- What `prepareItem` returns: an item within the token limit, or one of two kinds of error.
use Prim.Native.String.{◌++◌ as str_append}
use laya_go.Prelude.{
  ℕ, suc, ◌+◌, ◌-◌, ◌≤◌, ◌<◌, ◌≡◌, ◌⊎◌, inl, inr, refl, ap, subst, String, Bool, true, false, List,
  [], ◌∷◌, ◌++◌, map, length, length-append, length-take, length-map, take, take_all, All,
  Bool-cases, ltb, ◌&&◌, min, arith,
}
use laya_go.Errors.{
  Error, stage_error, input_too_long_error, native_failure, input_too_long, matches, ok, err,
  Outcome-cases,
}
use laya_go.Options.{TruncationPolicy, reject_overflow}
use laya_go.Preprocess.{
  Manifest, Tokenizer, PreparedQuestion, PreparedItem, encode_text, encode_options, fit_options,
  per_option, lay_out, retained, fit_state, prepare_item, is_tight, is_rejecting, head_limit,
  question_kind_name,
}
use laya_go.Preprocess.Text.{replace_mask}
use laya_go.Preprocess.Layout.{
  AtMask, AtMask-append, StartsWith, All-take, lay_out-AtMask, length-lay_out, retained_all,
}

pub record IsItem (m : Manifest) (limit : ℕ) (policy : TruncationPolicy) (q : PreparedQuestion)
    (item : PreparedItem) : Type 0 where
  pub asked : item.question ≡ q
  pub marked : AtMask m.mask item.input_ids item.marker_positions
  pub one_each : length item.marker_positions ≡ length q.options
  -- The limit is kept, and no token is dropped below it.
  pub observed : length item.input_ids ≡ min limit item.original_tokens
  pub flag : item.truncated ≡ ltb limit item.original_tokens
  pub strict : policy ≡ reject_overflow → item.original_tokens ≤ limit

-- The tokenizer failed, or the input is too long.
abbrev pub IsItemError : Error → Type 0
IsItemError e = (matches e native_failure ≡ true) ⊎ (matches e input_too_long ≡ true)

module _ (q : PreparedQuestion) (m : Manifest) (limit : ℕ) (policy : TruncationPolicy)
    (input markers state_ids : List ℕ) (at : AtMask m.mask input markers)
    (each : length markers ≡ length q.options) where
  abbrev whole : List ℕ
  whole = input ++ (take (limit - length input - 1) state_ids ++ (m.sep ∷ []))

  length-whole :
      length input + 1 ≤ limit → length whole ≡ min limit (length input + length state_ids + 1)
  length-whole r = omega (
    arith,
    length-append input (take (limit - length input - 1) state_ids ++ (m.sep ∷ [])),
    length-append (take (limit - length input - 1) state_ids) (m.sep ∷ []),
    length-take (limit - length input - 1) state_ids,
  )

  whole_uncut : length input + 1 ≤ limit → take limit whole ≡ whole
  whole_uncut r = take_all limit whole (omega (arith, length-whole r))

  all_kept : length input + 1 ≤ limit → retained limit markers ≡ markers
  all_kept r = retained_all m.mask limit input markers at (omega arith)

  unfoldable pub built : PreparedItem
  built = record {
    question = q;
    input_ids = whole;
    marker_positions = markers;
    original_tokens = length input + length state_ids + 1;
    truncated = ltb limit (length input + length state_ids + 1);
  }

  -- Where what stands before the state fits and the policy does not refuse, the state is cut to
  -- what is left of the limit.
  pub fit_state-fits :
      length input + 1 ≤ limit
      → (ltb limit (length input + length state_ids + 1) && is_rejecting policy) ≡ false
      → fit_state q m limit policy input markers state_ids ≡ ok built
  unfolding fit_state built
  fit_state-fits r f =
      let short : ltb limit (length input + 1) ≡ false = ground arith in
      rw (f, short, all_kept r, whole_uncut r) (ground (arith, length-whole r))

  -- The state is cut to what is left of the limit, and the two later checks never fail.
  pub fit_state_lem :
      ((length input + 1 ≤ limit)
        × (policy ≡ reject_overflow → length input + length state_ids + 1 ≤ limit)
        × (fit_state q m limit policy input markers state_ids ≡ ok built))
      ⊎ ((c : Bool) × (limit < length input + length state_ids + 1)
          × ((policy ≡ reject_overflow) ⊎ (limit < length input + 1))
          × (fit_state q m limit policy input markers state_ids
              ≡ err (input_too_long_error (length input + length state_ids + 1) limit c)))
  unfolding fit_state
  fit_state_lem = elim (Bool-cases (ltb limit (length input + 1))) [
    | inl long ↦
        elim (Bool-cases (ltb limit (length input + length state_ids + 1) && is_rejecting policy)) [
          | inl t ↦ inr (false, ground arith, inl (ground arith), rw t)
          | inr f ↦ inr (true, ground arith, inr (ground arith), rw (f, long))
        ]
    | inr short ↦
        elim (Bool-cases (ltb limit (length input + length state_ids + 1) && is_rejecting policy)) [
          | inl t ↦ inr (false, ground arith, inl (ground arith), rw t)
          | inr f ↦
              let r : length input + 1 ≤ limit = ground arith in
              inl (r, (λ p. ground arith), fit_state-fits r f)
        ]
  ]

  pub built-IsItem :
      length input + 1 ≤ limit
      → (policy ≡ reject_overflow → length input + length state_ids + 1 ≤ limit)
      → IsItem m limit policy q built
  unfolding built
  built-IsItem r p = record {
    asked = refl;
    marked =
        AtMask-append m.mask input (take (limit - length input - 1) state_ids ++ (m.sep ∷ []))
          markers at;
    one_each = each;
    observed = length-whole r;
    flag = refl;
    strict = p;
  }

pub encode_text-cases :
    (tokenizer : Tokenizer) (text : String)
    → ((ids : List ℕ) × (encode_text tokenizer text ≡ ok ids))
      ⊎ ((e : Error) × (encode_text tokenizer text ≡ err (stage_error native_failure e)))
unfolding encode_text
encode_text-cases tokenizer text = elim (Outcome-cases (tokenizer text)) [
  | inl (ids, e) ↦ inl (ids, rw (e, encode_text))
  | inr (x, e) ↦ inr (x, rw (e, encode_text))
]

-- Each encoded option begins with the mask token, and there is one for each option.
pub encode_options-cases :
    (tokenizer : Tokenizer) (m : Manifest) (options : List String)
    → ((os : List (List ℕ)) × (encode_options tokenizer m options ≡ ok os)
        × All (StartsWith m.mask) os
        × (length os ≡ length options))
      ⊎ ((e : Error) × (encode_options tokenizer m options ≡ err (stage_error native_failure e)))
unfolding encode_options
encode_options-cases tokenizer m [] = inl ([], refl, tt, refl)
encode_options-cases tokenizer m (o ∷ options) =
    elim (encode_text-cases tokenizer (str_append " " (replace_mask o))) [
      | inr (x, e) ↦ inr (x, rw e)
      | inl (ids, e) ↦ elim (encode_options-cases tokenizer m options) [
        | inr (x, d) ↦ inr (x, rw (e, d))
        | inl (os, d, h, n) ↦
            inl ((m.mask ∷ take m.option_max_len ids) ∷ os, rw (e, d), (refl, h), ap suc n)
      ]
    ]

pub fit_options_lem :
    (m : Manifest) (os : List (List ℕ))
    → All (StartsWith m.mask) os
    → All (StartsWith m.mask) (fit_options m os) × (length (fit_options m os) ≡ length os)
unfolding fit_options
fit_options_lem m os h = elim (Bool-cases (is_tight m os)) [
  | inl t ↦ rw t (
    subst (λ n. All (StartsWith m.mask) (map (take n) os)) {x = suc (per_option m os - 1)}
        (omega arith) (All-take m.mask (per_option m os - 1) os h),
    length-map os (take (per_option m os)),
  )
  | inr f ↦ rw f (h, refl)
]

-- The layout of `prepareItem`, from the encoded options on.
module _ (q : PreparedQuestion) (m : Manifest) (limit : ℕ) (policy : TruncationPolicy)
    (start state_ids : List ℕ) (os : List (List ℕ)) (h : All (StartsWith m.mask) os)
    (n : length os ≡ length q.options) where
  abbrev pub laid : List ℕ × List ℕ
  laid = lay_out start [] (fit_options m os)

  pub placed : AtMask m.mask (laid.0 ++ (m.sep ∷ [])) laid.1 × (length laid.1 ≡ length q.options)
  placed =
      let (s, l) = fit_options_lem m os h in
      (
        AtMask-append m.mask laid.0 (m.sep ∷ []) laid.1
            (lay_out-AtMask m.mask start [] (fit_options m os) s tt),
        omega (arith, length-lay_out start [] (fit_options m os), l),
      )

  placed-fit :
      ((item : PreparedItem) × (fit_state q m limit policy (laid.0 ++ (m.sep ∷ [])) laid.1 state_ids
          ≡ ok item)
        × IsItem m limit policy q item)
      ⊎ ((e : Error) × (fit_state q m limit policy (laid.0 ++ (m.sep ∷ [])) laid.1 state_ids
            ≡ err e)
          × IsItemError e)
  unfolding matches
  placed-fit =
      elim (fit_state_lem q m limit policy (laid.0 ++ (m.sep ∷ [])) laid.1 state_ids placed.0
        placed.1) [
          | inl (r, p, e) ↦ inl (
            _,
            e,
            built-IsItem q m limit policy (laid.0 ++ (m.sep ∷ [])) laid.1 state_ids placed.0
                placed.1 r p,
          )
          | inr (c, o, w, e) ↦ inr (_, e, inr refl)
        ]

-- `prepareItem` returns an item with one marker for each option, each at a mask token, with
-- exactly as many tokens as the input has or the limit allows, whose flag says whether the limit
-- cut it, and which the limit does not cut where overflow is rejected; or it fails because the
-- tokenizer failed or the input is too long, and in no other way.
pub prepare_item-total :
    (state : String) (q : PreparedQuestion) (m : Manifest) (tokenizer : Tokenizer) (limit : ℕ)
    (policy : TruncationPolicy)
    → ((item : PreparedItem) × (prepare_item state q m tokenizer limit policy ≡ ok item)
        × IsItem m limit policy q item)
      ⊎ ((e : Error) × (prepare_item state q m tokenizer limit policy ≡ err e) × IsItemError e)
unfolding prepare_item matches
prepare_item-total state q m tokenizer limit policy = elim (encode_text-cases tokenizer heading) [
  | inr (x, e) ↦ inr (stage_error native_failure x, rw e, inl refl)
  | inl (head, e) ↦ elim (encode_options-cases tokenizer m q.options) [
    | inr (x, d) ↦ inr (stage_error native_failure x, rw (e, d), inl refl)
    | inl (os, d, h, n) ↦ elim (encode_text-cases tokenizer (replace_mask state)) [
      | inr (x, c) ↦ inr (stage_error native_failure x, rw (e, d, c), inl refl)
      | inl (state_ids, c) ↦
          rw (e, d, c) (placed-fit q m limit policy (start head os) state_ids os h n)
    ]
  ]
]
  where
    heading : String
    heading =
        str_append (question_kind_name q.kind)
          (str_append " question: " (replace_mask q.instructions))

    start : List ℕ → List (List ℕ) → List ℕ
    start head os = (m.cls ∷ take (head_limit m (fit_options m os)) head) ++ (m.sep ∷ [])
