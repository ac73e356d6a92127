-- ===== src/Prediction/Valid.antt =====
-- Validation of results accepts exactly the well-formed ones.
use laya_go.Prelude.{
  ℕ, suc, ◌-◌, ◌<◌, ◌≡◌, ◌≢◌, ◌⊎◌, inl, refl, String, str_eq, Bool, true, false, ◌||◌, List, [],
  ◌∷◌, map, length, All, Has, arith,
}
use laya_go.Prelude.Int.{pos, pos_part, neg_part}
use laya_go.Prelude.Float.{FloatOps}
use laya_go.Errors.{ok, err, Decides}
use laya_go.Question.{seen_before}
use laya_go.Question.Valid.{str_eq-Tests, seen_before-Fresh, seen_before-Has, Admits, Admits-cons}
use laya_go.Prediction.{
  TruncationMetadata, CriterionProbability, ChoiceResult, ScoreProbability, ScoreResult, NoulResult,
  bad_output, validate_probability, validate_criteria, validate_choice_result, validate_levels,
  validate_score_result, validate_noul_result, validate_truncation,
}

-- The metadata of a truncation: counts that are not negative, and that differ exactly by the flag.
pub record IsTruncation (m : TruncationMetadata) : Type 0 where
  pub original : neg_part m.original_input_tokens ≡ 0
  pub effective : neg_part m.effective_input_tokens ≡ 0
  pub shorter :
      m.truncated ≡ true → pos_part m.effective_input_tokens < pos_part m.original_input_tokens
  pub same :
      m.truncated ≡ false → pos_part m.original_input_tokens ≡ pos_part m.effective_input_tokens

pub validate_truncation-Decides :
    (m : TruncationMetadata) → Decides (IsTruncation m) (validate_truncation m) bad_output
unfolding validate_truncation
validate_truncation-Decides m = ground arith

module _ {F : Type 0} ⦃ops : FloatOps F⦄ where
  -- A number in [0, 1].
  pub record IsProbability (p : F) : Type 0 where
    pub number : ops.is_nan p ≡ false
    pub bounded : ops.is_inf p ≡ false
    pub above : ops.lt p (ops.of_ℕ 0) ≡ false
    pub below : ops.lt (ops.of_ℕ 1) p ≡ false

  pub validate_probability-Decides :
      (p : F) → Decides (IsProbability p) (validate_probability p) bad_output
  unfolding validate_probability
  validate_probability-Decides p = ground arith

  abbrev pub IsCriterion : CriterionProbability F → Type 0
  IsCriterion p = (p.criterion_id ≢ "") × IsProbability p.probability

  criteria_lem :
      (selected : String) (seen : List String) (found : Bool) (ps : List (CriterionProbability F))
      → ((All IsCriterion ps × Admits seen (map (λ p. p.criterion_id) ps))
          × (validate_criteria selected seen found ps
              ≡ ok (found || seen_before (map (λ p. p.criterion_id) ps) selected)))
        ⊎ (((All IsCriterion ps × Admits seen (map (λ p. p.criterion_id) ps)) → ⊥)
            × (validate_criteria selected seen found ps ≡ err bad_output))
  unfolding validate_criteria
  criteria_lem selected seen found [] = inl ((tt, (tt, tt)), ground arith)
  criteria_lem selected seen found (p ∷ ps) = ground (
    arith,
    str_eq-Tests p.criterion_id "",
    seen_before-Fresh seen p.criterion_id,
    validate_probability-Decides p.probability,
    Admits-cons p.criterion_id seen (map (λ p. p.criterion_id) ps),
    criteria_lem selected (p.criterion_id ∷ seen) (found || str_eq p.criterion_id selected) ps,
  )

  -- Each criterion has an ID of its own and a probability; the selected one is among them.
  pub record IsChoiceResult (r : ChoiceResult F) : Type 0 where
    pub named : r.question_id ≢ ""
    pub chosen : r.selected ≢ ""
    pub filled : r.probabilities ≢ []
    pub criteria :
        All IsCriterion r.probabilities × Admits [] (map (λ p. p.criterion_id) r.probabilities)
    pub among : Has r.selected (map (λ p. p.criterion_id) r.probabilities)
    pub confident : IsProbability r.confidence
    pub action : IsProbability r.action_probability

  pub validate_choice_result-Decides :
      (r : ChoiceResult F) → Decides (IsChoiceResult r) (validate_choice_result r) bad_output
  unfolding validate_choice_result
  validate_choice_result-Decides r = ground (
    arith,
    str_eq-Tests r.question_id "",
    str_eq-Tests r.selected "",
    criteria_lem r.selected [] false r.probabilities,
    seen_before-Has (map (λ p. p.criterion_id) r.probabilities) r.selected,
    validate_probability-Decides r.confidence,
    validate_probability-Decides r.action_probability,
  )

  -- Level `i` of the distribution stands at index `i`.
  abbrev pub AreLevels : ℕ → List (ScoreProbability F) → Type 0
  AreLevels i [] = Unit
  AreLevels i (p ∷ ps) =
      ((p.level ≡ pos i) × (p.label ≢ "") × IsProbability p.probability) × AreLevels (suc i) ps

  validate_levels-Decides :
      (i : ℕ) (ps : List (ScoreProbability F))
      → Decides (AreLevels i ps) (validate_levels i ps) bad_output
  unfolding validate_levels
  validate_levels-Decides i [] = inl (tt, refl)
  validate_levels-Decides i (p ∷ ps) = ground (
    arith,
    str_eq-Tests p.label "",
    validate_probability-Decides p.probability,
    validate_levels-Decides (suc i) ps,
  )

  pub record IsScoreResult (r : ScoreResult F) : Type 0 where
    pub named : r.question_id ≢ ""
    pub filled : r.distribution ≢ []
    pub number : ops.is_nan r.expected_level ≡ false
    pub bounded : ops.is_inf r.expected_level ≡ false
    pub above : ops.lt r.expected_level (ops.of_ℕ 0) ≡ false
    pub below : ops.lt (ops.of_ℕ (length r.distribution - 1)) r.expected_level ≡ false
    pub levels : AreLevels 0 r.distribution
    pub confident : IsProbability r.confidence
    pub action : IsProbability r.action_probability

  pub validate_score_result-Decides :
      (r : ScoreResult F) → Decides (IsScoreResult r) (validate_score_result r) bad_output
  unfolding validate_score_result
  validate_score_result-Decides r = ground (
    arith,
    str_eq-Tests r.question_id "",
    validate_levels-Decides 0 r.distribution,
    validate_probability-Decides r.confidence,
    validate_probability-Decides r.action_probability,
  )

  pub record IsNoulResult (r : NoulResult F) : Type 0 where
    pub named : r.question_id ≢ ""
    pub truth : IsProbability r.true_probability
    pub action : IsProbability r.action_probability

  pub validate_noul_result-Decides :
      (r : NoulResult F) → Decides (IsNoulResult r) (validate_noul_result r) bad_output
  unfolding validate_noul_result
  validate_noul_result-Decides r = ground (
    arith,
    str_eq-Tests r.question_id "",
    validate_probability-Decides r.true_probability,
    validate_probability-Decides r.action_probability,
  )
