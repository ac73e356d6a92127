-- ===== src/Output/Rows.antt =====
-- The row that `deriveOutputRow` derives from the logits of one question.
use laya_go.Prelude.{
  suc, ◌≡◌, sym, ap, ◌∙◌, ◌||◌, not, List, [], ◌∷◌, length, map, length-map, ◌==◌, arith,
}
use laya_go.Prelude.Float.{FloatOps, is_finite}
use laya_go.Errors.{ok, ok_injective, refuse}
use laya_go.Prediction.{bad_output}
use laya_go.Preprocess.{PreparedQuestion}
use laya_go.Output.{
  CalibrationConfig, RowDerivation, sum_from, scale, stable_softmax, select_value,
  derive_output_row,
}
use laya_go.Output.Matching.{bind-eq-ok}

module _ {F : Type 0} ⦃ops : FloatOps F⦄ where
  length-scale :
      (t top : F) (xs : List F) (r : List F × F) → scale t top xs ≡ ok r → length r.0 ≡ length xs
  unfolding scale
  length-scale t top [] r e = ap (λ (r : List F × F). length r.0) (sym (ok_injective e))
  length-scale t top (x ∷ xs) r e =
      let (_, _, e₁) = bind-eq-ok (refuse (not (is_finite x)) bad_output) _ e in
      let (rest, f, e₂) = bind-eq-ok (scale t (ops.fmax top (ops.div x t)) xs) _ e₁ in
      ap (λ (r : List F × F). length r.0) (sym (ok_injective e₂))
      ∙ ap suc (length-scale t (ops.fmax top (ops.div x t)) xs rest f)

  length-stable_softmax :
      (xs : List F) (t : F) (ps : List F) → stable_softmax xs t ≡ ok ps → length ps ≡ length xs
  unfolding stable_softmax
  length-stable_softmax xs t ps e =
      let (_, _, e₁) = bind-eq-ok (refuse (length xs == 0) bad_output) _ e in
      let (_, _, e₂) =
        bind-eq-ok (refuse (not (is_finite t) || not (ops.lt (ops.of_ℕ 0) t)) bad_output) _ e₁ in
      let (r, f, e₃) = bind-eq-ok (scale t (ops.neg ops.max_float) xs) _ e₂ in
      let powers = map (λ v. ops.exp (ops.sub v r.1)) r.0 in
      let total = sum_from (ops.of_ℕ 0) powers in
      let (_, _, e₄) =
        bind-eq-ok (refuse (not (is_finite total) || not (ops.lt (ops.of_ℕ 0) total)) bad_output)
          (λ _. ok (map (λ v. ops.div v total) powers)) e₃ in
      ap length (sym (ok_injective e₄))
      ∙ length-map powers (λ v. ops.div v total)
      ∙ length-map r.0 (λ v. ops.exp (ops.sub v r.1))
      ∙ length-scale t (ops.neg ops.max_float) xs r f

  -- A row that is derived has a probability for each option of its question and for each action
  -- logit.
  pub length-derive_output_row :
      (q : PreparedQuestion) (logits actions : List F) (c : CalibrationConfig F)
      (d : RowDerivation F)
      → derive_output_row q logits actions c ≡ ok d
      → (length d.probabilities ≡ length q.options)
        × (length d.action_probabilities ≡ length actions)
  unfolding derive_output_row
  length-derive_output_row q logits actions c d e =
      let (_, g, e₁) =
        bind-eq-ok (refuse (not (length logits == length q.options)) bad_output) _ e in
      let (t, _, e₂) = bind-eq-ok (select_value c q) _ e₁ in
      let (ps, f, e₃) = bind-eq-ok (stable_softmax logits t) _ e₂ in
      let (xs, h, e₄) = bind-eq-ok (stable_softmax actions (ops.of_ℕ 1)) _ e₃ in
      let n = length-stable_softmax logits t ps f in
      let k = length-stable_softmax actions (ops.of_ℕ 1) xs h in
      let s = ok_injective e₄ in
      (
        ap (λ (d : RowDerivation F). length d.probabilities) (sym s) ∙ n ∙ same g,
        ap (λ (d : RowDerivation F). length d.action_probabilities) (sym s) ∙ k,
      )
    where
      same :
          {x : Unit {0}}
          → refuse (not (length logits == length q.options)) bad_output ≡ ok x
          → length logits ≡ length q.options
      same g = ground arith
