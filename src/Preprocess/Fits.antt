-- ===== src/Preprocess/Fits.antt =====
-- How many options always leave room for the state, with the lengths of the supported bundle.
use laya_go.Prelude.{
  ℕ, ◌+◌, ◌*◌, ◌/◌, ◌≤◌, ◌≡◌, refl, ap, inl, inr, String, Bool-cases, List, [], ◌∷◌, ◌++◌, map,
  length, length-append, take, length-take, max, arith,
}
use Prim.Native.String.{◌++◌ as str_append}
use laya_go.Errors.{Error, stage_error, native_failure, ok, err}
use laya_go.Options.{truncate_overflow}
use laya_go.Preprocess.{
  Manifest, Tokenizer, PreparedQuestion, PreparedItem, encode_text, encode_options, fit_options,
  per_option, lay_out, prepare_item, is_tight, head_limit, total_length, question_kind_name,
}
use laya_go.Preprocess.Layout.{concat, lay_out-concat}
use laya_go.Preprocess.Text.{replace_mask}
use laya_go.Preprocess.Budget.{built, placed, fit_state-fits, encode_options-cases}

length-concat : (os : List (List ℕ)) → length (concat os) ≡ total_length os
length-concat [] = refl
length-concat (o ∷ os) = omega (arith, length-append o (concat os), length-concat os)

total_length-take : (k : ℕ) (os : List (List ℕ)) → total_length (map (take k) os) ≤ k * length os
total_length-take k [] = grind arith
total_length-take k (o ∷ os) = grind (arith, length-take k o, total_length-take k os)

share : (n : ℕ) → n ≤ 253 → max 4 (240 / max 1 n) * n ≤ 1012
share n h = grind arith

-- The lengths that the check of compatibility fixes.
pub record HasLengths (m : Manifest) : Type 0 where
  pub max_len : m.max_len ≡ 1024
  pub head : m.head_max_len ≡ 256
  pub reserve : m.head_reserve ≡ 16

-- The head and the options together.
options_bound :
    (m : Manifest) (os : List (List ℕ))
    → HasLengths m
    → length os ≤ 253
    → head_limit m (fit_options m os) + total_length (fit_options m os) ≤ 1020
unfolding fit_options
options_bound m os h n = elim (Bool-cases (is_tight m os)) [
  | inl t ↦ rw t (ground (arith, h, total_length-take (per_option m os) os, share (length os) n))
  | inr f ↦ rw f (ground (arith, h))
]

encode_text-answers :
    (tokenizer : Tokenizer) (text : String) {ids : List ℕ}
    → tokenizer text ≡ ok ids
    → encode_text tokenizer text ≡ ok ids
unfolding encode_text
encode_text-answers tokenizer text e = rw (encode_text, e) refl

-- Options are encoded where the tokenizer answers.
failing :
    (tokenizer : Tokenizer) (m : Manifest) (options : List String)
    → ((text : String) → (ids : List ℕ) × (tokenizer text ≡ ok ids))
    → (x : Error) → encode_options tokenizer m options ≡ err (stage_error native_failure x)
    → ⊥
unfolding encode_options encode_text
failing tokenizer m [] total x e = cc
failing tokenizer m (o ∷ options) total x e =
    let (ids, d) = total (str_append " " (replace_mask o)) in
    elim (encode_options-cases tokenizer m options) [
      | inl (os, f, _, _) ↦
          let g : encode_options tokenizer m (o ∷ options)
              ≡ ok ((m.mask ∷ take m.option_max_len ids) ∷ os) =
            rw (encode_options, encode_text, d, f) refl in
          cc
      | inr (y, f) ↦ failing tokenizer m options total y f
    ]

-- What stands before the state.
abbrev start : Manifest → List ℕ → List (List ℕ) → List ℕ
start m head os = (m.cls ∷ take (head_limit m (fit_options m os)) head) ++ (m.sep ∷ [])

length-input :
    (m : Manifest) (head : List ℕ) (os : List (List ℕ))
    → length ((lay_out (start m head os) [] (fit_options m os)).0 ++ (m.sep ∷ []))
      ≤ 3 + head_limit m (fit_options m os) + total_length (fit_options m os)
length-input m head os = omega (
  arith,
  ap length (lay_out-concat (start m head os) [] (fit_options m os)),
  length-append (lay_out (start m head os) [] (fit_options m os)).0 (m.sep ∷ []),
  length-append (start m head os) (concat (fit_options m os)),
  length-append (m.cls ∷ take (head_limit m (fit_options m os)) head) (m.sep ∷ []),
  length-take (head_limit m (fit_options m os)) head,
  length-concat (fit_options m os),
)

-- With the lengths of the supported bundle and the truncating policy, a question of at most 253
-- options always fits: where the tokenizer answers, `prepareItem` returns an item, whatever the
-- texts are. So the errors for options and markers that do not fit are not met.
pub prepare_item-fits :
    (state : String) (q : PreparedQuestion) (m : Manifest) (tokenizer : Tokenizer) (limit : ℕ)
    → HasLengths m
    → m.max_len ≤ limit
    → length q.options ≤ 253
    → ((text : String) → (ids : List ℕ) × (tokenizer text ≡ ok ids))
    → (item : PreparedItem) × (prepare_item state q m tokenizer limit truncate_overflow ≡ ok item)
unfolding prepare_item
prepare_item-fits state q m tokenizer limit h l k total =
    let (head, e) = total heading in
    let (state_ids, c) = total (replace_mask state) in
    elim (encode_options-cases tokenizer m q.options) [
      | inr (x, d) ↦ absurd (failing tokenizer m q.options total x d)
      | inl (os, d, s, n) ↦
          let (at, each) = placed q m limit truncate_overflow (start m head os) state_ids os s n in
          let room : length ((lay_out (start m head os) [] (fit_options m os)).0 ++ (m.sep ∷ []))
                + 1
              ≤ limit =
            omega (arith, h.max_len, length-input m head os, options_bound m os h (omega arith)) in
          let (input, markers) = lay_out (start m head os) [] (fit_options m os) in
          (
            built q m limit truncate_overflow (input ++ (m.sep ∷ [])) markers state_ids at each,
            rw
                (
                  encode_text-answers tokenizer heading e,
                  d,
                  encode_text-answers tokenizer (replace_mask state) c,
                )
                (fit_state-fits q m limit truncate_overflow (input ++ (m.sep ∷ [])) markers
                  state_ids at each room (ground arith)),
          )
    ]
  where
    heading : String
    heading =
        str_append (question_kind_name q.kind)
          (str_append " question: " (replace_mask q.instructions))
