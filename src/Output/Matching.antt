-- ===== src/Output/Matching.antt =====
-- What the native engine formats passes the model's own check of predictions.
use laya_go.Prelude.{
  ℕ, suc, ◌≡◌, refl, sym, ap, subst, String, eq_refl, Bool, not, Option, none, some, List, [], ◌∷◌,
  All, length, map, take, ◌==◌, arith,
}
use laya_go.Prelude.Float.{FloatOps}
use laya_go.Errors.{Outcome, ok, err, ◌>>=◌, refuse, ok_injective}
use laya_go.Question.{
  Question, ChoiceQuestion, ChoiceCriterion, ScoreQuestion, ScoreLevel, NoulQuestion,
}
use laya_go.Question.Valid.{IsQuestion, id_of, question_id-IsQuestion}
use laya_go.Options.{ModelOptions, TruncationPolicy}
use laya_go.Prediction.{
  Result, Prediction, PredictionMetadata, bad_output, validate_prediction, new_choice_result,
  new_score_result, new_noul_result, new_prediction, result_question_id,
}
use laya_go.Preprocess.{
  Manifest, Tokenizer, PreparedQuestion, PreparedItem, normalize_question, normalize_choice,
  normalize_score, normalize_noul,
}
use laya_go.Batch.{PreparedBatch, effective_limit, prepare_inference_batch}
use laya_go.State.{State}
use laya_go.Batch.Prepared.{AreItems, prepare_inference_batch-IsBatch}
use laya_go.Output.{
  RawModelOutputs, CalibrationConfig, RowDerivation, criterion_rows, level_rows,
  result_from_derivation, format_rows, validate_raw_outputs, derive_output_row,
  format_inference_prediction,
}
use laya_go.Check.{
  match_criteria, match_levels, validate_result_for_question, match_results,
  validate_prediction_for_questions,
}

refuse_same : (n : ℕ) → refuse (not (n == n)) bad_output ≡ ok tt
refuse_same n = ground arith

pub bind-eq-ok {ℓ κ} :
    {A : Type ℓ} {B : Type κ} (m : Outcome A) (f : A → Outcome B) {b : B}
    → (m >>= f) ≡ ok b
    → (a : A) × (m ≡ ok a) × (f a ≡ ok b)
bind-eq-ok (err problem) f e = cc
bind-eq-ok (ok value) f e = (value, refl, e)

module _ {F : Type 0} ⦃ops : FloatOps F⦄ where
  criteria_agree :
      (i : ℕ) (ps : List F) (cs : List ChoiceCriterion)
      → (length (criterion_rows i ps (map (λ c. c.id) cs)) ≡ length cs)
        × (match_criteria cs (criterion_rows i ps (map (λ c. c.id) cs)) ≡ ok tt)
  unfolding criterion_rows match_criteria
  criteria_agree i ps [] = (refl, refl)
  criteria_agree i ps (c ∷ cs) =
      let (n, m) = criteria_agree (suc i) ps cs in (ap suc n, rw (eq_refl c.id) m)

  levels_agree :
      (i : ℕ) (ps : List F) (ls : List ScoreLevel)
      → (length (level_rows i ps (map (λ l. l.label) ls)) ≡ length ls)
        × (match_levels ls (level_rows i ps (map (λ l. l.label) ls)) ≡ ok tt)
  unfolding level_rows match_levels
  levels_agree i ps [] = (refl, refl)
  levels_agree i ps (l ∷ ls) =
      let (n, m) = levels_agree (suc i) ps ls in (ap suc n, rw (eq_refl l.label) m)

  -- A result for a question: with its ID, of its kind, over its options in order.
  abbrev Answers : Question → Result F → Type 0
  Answers q r = (result_question_id r ≡ ok (id_of q)) × (validate_result_for_question r q ≡ ok tt)

  choice-Answers :
      (q : ChoiceQuestion) (m : Manifest) (d : RowDerivation F) (r : Result F)
      → result_from_derivation (normalize_choice q m) d ≡ ok r
      → (result_question_id r ≡ ok q.id)
        × (validate_result_for_question r (Question.choice q) ≡ ok tt)
  unfolding result_from_derivation normalize_choice new_choice_result result_question_id
      validate_result_for_question
  choice-Answers q m d r e = ground (arith, criteria_agree 0 d.probabilities q.criteria)

  score-Answers :
      (q : ScoreQuestion) (m : Manifest) (d : RowDerivation F) (r : Result F)
      → result_from_derivation (normalize_score q m) d ≡ ok r
      → (result_question_id r ≡ ok q.id)
        × (validate_result_for_question r (Question.score q) ≡ ok tt)
  unfolding result_from_derivation normalize_score new_score_result result_question_id
      validate_result_for_question
  score-Answers q m d r e = ground (arith, levels_agree 0 d.probabilities q.rubric)

  noul-Answers :
      (q : NoulQuestion) (m : Manifest) (d : RowDerivation F) (r : Result F)
      → result_from_derivation (normalize_noul q m) d ≡ ok r
      → (result_question_id r ≡ ok q.id)
        × (validate_result_for_question r (Question.noul q) ≡ ok tt)
  unfolding result_from_derivation normalize_noul new_noul_result result_question_id
      validate_result_for_question
  noul-Answers q m d r e = ground arith

  derived-Answers :
      (q : Question) (m : Manifest) (p : PreparedQuestion) (d : RowDerivation F) (r : Result F)
      → IsQuestion q
      → normalize_question q m ≡ ok p
      → result_from_derivation p d ≡ ok r
      → Answers q r
  unfolding normalize_question validate_result_for_question
  derived-Answers (Question.choice q) m p d r h n e =
      choice-Answers q m d r
        (subst (λ p. result_from_derivation p d ≡ ok r) (sym (ok_injective n)) e)
  derived-Answers (Question.choice_pointer (some q)) m p d r h n e =
      choice-Answers q m d r
        (subst (λ p. result_from_derivation p d ≡ ok r) (sym (ok_injective n)) e)
  derived-Answers (Question.score q) m p d r h n e =
      score-Answers q m d r
        (subst (λ p. result_from_derivation p d ≡ ok r) (sym (ok_injective n)) e)
  derived-Answers (Question.score_pointer (some q)) m p d r h n e =
      score-Answers q m d r
        (subst (λ p. result_from_derivation p d ≡ ok r) (sym (ok_injective n)) e)
  derived-Answers (Question.noul q) m p d r h n e =
      noul-Answers q m d r (subst (λ p. result_from_derivation p d ≡ ok r) (sym (ok_injective n)) e)
  derived-Answers (Question.noul_pointer (some q)) m p d r h n e =
      noul-Answers q m d r (subst (λ p. result_from_derivation p d ≡ ok r) (sym (ok_injective n)) e)
  derived-Answers (Question.choice_pointer none) m p d r h n e = absurd h
  derived-Answers (Question.score_pointer none) m p d r h n e = absurd h
  derived-Answers (Question.noul_pointer none) m p d r h n e = absurd h
  derived-Answers Question.unsupported m p d r h n e = absurd h

  abbrev AnswersAll : List Question → List (Result F) → Type 0
  AnswersAll [] [] = Unit
  AnswersAll [] (r ∷ rs) = ⊥
  AnswersAll (q ∷ qs) [] = ⊥
  AnswersAll (q ∷ qs) (r ∷ rs) = Answers q r × AnswersAll qs rs

  match_results-Answers :
      (qs : List Question) (rs : List (Result F))
      → All IsQuestion qs
      → AnswersAll qs rs
      → (length rs ≡ length qs) × (match_results rs qs ≡ ok tt)
  unfolding match_results
  match_results-Answers [] [] h a = (refl, refl)
  match_results-Answers [] (r ∷ rs) h a = absurd a
  match_results-Answers (q ∷ qs) [] h a = absurd a
  match_results-Answers (q ∷ qs) (r ∷ rs) (w, h) ((i, v), a) =
      let (n, s) = match_results-Answers qs rs h a in
      (ap suc n, rw (i, question_id-IsQuestion q w, eq_refl (id_of q), v) s)

  module _ (m : Manifest) (limit : ℕ) (policy : TruncationPolicy) (c : CalibrationConfig F) where
    format_rows-Answers :
        (qs : List Question) (is : List PreparedItem) (logits actions : List (List F))
        (rs : List (Result F))
        → All IsQuestion qs
        → AreItems m limit policy qs is
        → format_rows c is logits actions ≡ ok rs
        → AnswersAll qs rs
    unfolding format_rows
    format_rows-Answers [] [] logits actions [] h a e = tt
    format_rows-Answers [] [] logits actions (r ∷ rs) h a e = cc
    format_rows-Answers [] (i ∷ is) logits actions rs h a e = absurd a
    format_rows-Answers (q ∷ qs) [] logits actions rs h a e = absurd a
    format_rows-Answers (q ∷ qs) (i ∷ is) [] actions rs h a e = cc
    format_rows-Answers (q ∷ qs) (i ∷ is) (l ∷ ls) [] rs h a e = cc
    format_rows-Answers (q ∷ qs) (i ∷ is) (l ∷ ls) (x ∷ xs) rs (w, h) ((p, n, k), a) e =
        let (d, _, e₁) =
          bind-eq-ok (derive_output_row i.question (take (length i.question.options) l) x c) _ e in
        let (r, f, e₂) = bind-eq-ok (result_from_derivation i.question d) _ e₁ in
        let (rest, g, e₃) = bind-eq-ok (format_rows c is ls xs) _ e₂ in
        subst (AnswersAll (q ∷ qs)) (ok_injective e₃) (
          derived-Answers q m p d r w n (subst (λ y. result_from_derivation y d ≡ ok r) k.asked f),
          format_rows-Answers qs is ls xs rest h a g,
        )

  -- If preparing questions gives a batch, and formatting what the session returns for it gives a
  -- prediction, then that prediction passes the model's own check against the questions, whatever
  -- the session returns.
  pub format_inference_prediction-matches :
      (json_valid : String → Bool) (state : State) (qs : List Question) (m : Manifest)
      (tokenizer : Option Tokenizer) (o : ModelOptions) (b : PreparedBatch)
      (outputs : RawModelOutputs F) (c : CalibrationConfig F) (metadata : PredictionMetadata)
      (p : Prediction F)
      → prepare_inference_batch json_valid state qs m tokenizer o ≡ ok b
      → format_inference_prediction b outputs c metadata ≡ ok p
      → validate_prediction_for_questions p qs ≡ ok tt
  unfolding format_inference_prediction new_prediction validate_prediction_for_questions
  format_inference_prediction-matches json_valid state qs m tokenizer o b outputs c metadata p d e =
      let h = prepare_inference_batch-IsBatch json_valid state qs m tokenizer o b d in
      let (_, _, e₁) = bind-eq-ok (validate_raw_outputs b outputs) _ e in
      let (rs, f, e₂) =
        bind-eq-ok (format_rows c b.items outputs.logits outputs.action_logits) _ e₁ in
      let (_, v, e₃) = bind-eq-ok (validate_prediction (built rs)) _ e₂ in
      let (n, s) = match_results-Answers qs rs h.valid.1.0 (
        format_rows-Answers m (effective_limit o m) o.truncation c qs b.items outputs.logits
          outputs.action_logits rs h.valid.1.0 h.items f) in
      subst (λ (p : Prediction F). validate_prediction_for_questions p qs ≡ ok tt) (ok_injective e₃)
        (rw (v, n, refuse_same (length qs)) s)
    where
      built : List (Result F) → Prediction F
      built rs = record {
        results = rs;
        usage = b.usage;
        metadata = record metadata { truncation = b.truncation };
      }
