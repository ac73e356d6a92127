-- ===== src/Preprocess.antt =====
-- preprocess.go up to `encodeText`: questions normalised to options, and one question with the
-- state laid out as token ids.
pub mod Text
pub mod Decimal
mod Layout
pub mod Budget
pub mod Fits
pub mod Prepared
use Prim.Native.String.{◌++◌ as str_append}
use laya_go.Prelude.{
  ℕ, suc, ◌+◌, ◌-◌, ◌/◌, ◌≡◌, String, str_eq, Bool, true, false, ◌&&◌, not, Option, none, some,
  List, [], ◌∷◌, ◌++◌, map, length, take, ltb, leb, ◌==◌, max, if◌then◌else◌,
}
use laya_go.Errors.{
  Error, sentinel, stage_error, input_too_long_error, invalid_request, native_failure, Outcome, ok,
  err, ◌>>=◌, ◌>>◌, refuse,
}
use laya_go.Question.{
  ChoiceQuestion, ChoiceCriterion, ScoreQuestion, ScoreLevel, NoulQuestion, Question, choice,
  choice_pointer, score, score_pointer, noul, noul_pointer, unsupported, bad_request,
}
use laya_go.Options.{TruncationPolicy, reject_overflow, truncate_overflow, unknown_policy}
use Text.{replace_mask, decimal}

-- The part of the manifest that preprocessing reads. The compatibility check of a bundle fixes the
-- lengths and question types to constants, so none is negative.
pub record Manifest : Type 0 where
  pub max_len : ℕ
  pub head_max_len : ℕ
  pub option_max_len : ℕ
  pub head_reserve : ℕ
  pub choice_qtype : ℕ
  pub score_qtype : ℕ
  pub noul_qtype : ℕ
  pub cls : ℕ
  pub sep : ℕ
  pub mask : ℕ
  pub pad : ℕ

-- `tokenizer.Encode`.
abbrev pub Tokenizer : Type 0
Tokenizer = String → Outcome (List ℕ)

pub data PreparedQuestionKind : Type 0 where
  prepared_choice prepared_score prepared_noul : PreparedQuestionKind

pub record PreparedQuestion : Type 0 where
  pub id : String
  pub kind : PreparedQuestionKind
  pub instructions : String
  pub option_ids : List String
  pub option_labels : List String
  pub options : List String
  pub qtype : ℕ

pub record PreparedItem : Type 0 where
  pub question : PreparedQuestion
  pub input_ids : List ℕ
  pub marker_positions : List ℕ
  pub original_tokens : ℕ
  pub truncated : Bool

infixr 66 ◌<>◌
abbrev ◌<>◌ : String → String → String
◌<>◌ = str_append

criterion_option : ChoiceCriterion → String
criterion_option c = if str_eq c.description "" then c.id else c.id <> ": " <> c.description

unfoldable pub normalize_choice : ChoiceQuestion → Manifest → PreparedQuestion
unfolding criterion_option
normalize_choice q m = record {
  id = q.id;
  kind = prepared_choice;
  instructions = q.instructions;
  option_ids = map (λ c. c.id) q.criteria;
  option_labels = [];
  options = map criterion_option q.criteria;
  qtype = m.choice_qtype;
}

unfoldable pub level_options : ℕ → List ScoreLevel → List String
unfolding decimal
level_options i [] = []
level_options i (l ∷ ls) =
    ("level " <> decimal i <> ": " <> l.description) ∷ level_options (suc i) ls

unfoldable pub normalize_score : ScoreQuestion → Manifest → PreparedQuestion
unfolding level_options
normalize_score q m = record {
  id = q.id;
  kind = prepared_score;
  instructions = q.instructions;
  option_ids = [];
  option_labels = map (λ l. l.label) q.rubric;
  options = level_options 0 q.rubric;
  qtype = m.score_qtype;
}

unfoldable pub normalize_noul : NoulQuestion → Manifest → PreparedQuestion
normalize_noul q m = record {
  id = q.id;
  kind = prepared_noul;
  instructions = q.instructions;
  option_ids = [];
  option_labels = [];
  options =
      ("false: "
        <> (if str_eq q.false_description ""
            then "no, the statement does not hold"
            else q.false_description))
      ∷ ("true: "
          <> (if str_eq q.true_description ""
              then "yes, the statement holds"
              else q.true_description))
      ∷ [];
  qtype = m.noul_qtype;
}

unfoldable pub normalize_question : Question → Manifest → Outcome PreparedQuestion
normalize_question (choice q) m = ok (normalize_choice q m)
normalize_question (choice_pointer none) m = err bad_request
normalize_question (choice_pointer (some q)) m = ok (normalize_choice q m)
normalize_question (score q) m = ok (normalize_score q m)
normalize_question (score_pointer none) m = err bad_request
normalize_question (score_pointer (some q)) m = ok (normalize_score q m)
normalize_question (noul q) m = ok (normalize_noul q m)
normalize_question (noul_pointer none) m = err bad_request
normalize_question (noul_pointer (some q)) m = ok (normalize_noul q m)
normalize_question unsupported m = err bad_request

abbrev pub question_kind_name : PreparedQuestionKind → String
question_kind_name prepared_choice = "choice"
question_kind_name prepared_score = "score"
question_kind_name prepared_noul = "noul"

-- A `uint32` id is widened to `int64`: the same number.
unfoldable pub encode_text : Tokenizer → String → Outcome (List ℕ)
encode_text tokenizer text = elim (tokenizer text) [
  | ok ids ↦ ok ids
  | err e ↦ err (stage_error native_failure e)
]

-- The loop over `question.options`.
unfoldable pub encode_options : Tokenizer → Manifest → List String → Outcome (List (List ℕ))
unfolding encode_text replace_mask
encode_options tokenizer m [] = ok []
encode_options tokenizer m (option ∷ options) = do
  encoded ← encode_text tokenizer (" " <> replace_mask option)
  rest ← encode_options tokenizer m options
  ok ((m.mask ∷ take m.option_max_len encoded) ∷ rest)

abbrev pub total_length : List (List ℕ) → ℕ
total_length [] = 0
total_length (v ∷ vs) = length v + total_length vs

-- `optionBudget < preprocessing.HeadReserve`, where the budget may be negative in Go.
abbrev pub is_tight : Manifest → List (List ℕ) → Bool
is_tight m options = ltb m.head_max_len (m.head_reserve + total_length options)

abbrev pub per_option : Manifest → List (List ℕ) → ℕ
per_option m options = max 4 ((m.head_max_len - m.head_reserve) / max 1 (length options))

unfoldable pub fit_options : Manifest → List (List ℕ) → List (List ℕ)
fit_options m options =
    if is_tight m options then map (take (per_option m options)) options else options

-- A negative budget is below 8, and so is the 0 that stands for it.
abbrev pub head_limit : Manifest → List (List ℕ) → ℕ
head_limit m options = max 8 (m.head_max_len - total_length options)

-- The loop that appends the options to `inputIDs` and notes where each begins.
unfoldable pub lay_out : List ℕ → List ℕ → List (List ℕ) → List ℕ × List ℕ
lay_out input markers [] = (input, markers)
lay_out input markers (o ∷ os) = lay_out (input ++ o) (markers ++ (length input ∷ [])) os

unfoldable pub retained : ℕ → List ℕ → List ℕ
retained limit [] = []
retained limit (p ∷ ps) = let rest = retained limit ps in if ltb p limit then p ∷ rest else rest

abbrev pub is_rejecting : TruncationPolicy → Bool
is_rejecting reject_overflow = true
is_rejecting truncate_overflow = false
is_rejecting unknown_policy = false

-- The part of `prepareItem` from `originalTokens` on.
unfoldable pub fit_state :
    PreparedQuestion
    → Manifest
    → ℕ
    → TruncationPolicy
    → List ℕ
    → List ℕ
    → List ℕ
    → Outcome PreparedItem
unfolding retained
fit_state q m limit policy input markers state_ids =
    let original = length input + length state_ids + 1 in
    let room = limit - length input - 1 in
    let ids = take limit (input ++ (take room state_ids ++ (m.sep ∷ []))) in
    let kept = retained limit markers in
    do
      refuse (ltb limit original && is_rejecting policy) (input_too_long_error original limit false)
      refuse (ltb limit (length input + 1)) (input_too_long_error original limit true)
      refuse (not (length kept == length q.options)) (input_too_long_error original limit true)
      ok (record {
        question = q;
        input_ids = ids;
        marker_positions = kept;
        original_tokens = original;
        truncated = ltb (length ids) original;
      })

unfoldable pub prepare_item :
    String → PreparedQuestion → Manifest → Tokenizer → ℕ → TruncationPolicy → Outcome PreparedItem
unfolding encode_options fit_options lay_out fit_state
prepare_item state q m tokenizer limit policy = do
  head ←
      encode_text tokenizer
        (question_kind_name q.kind <> " question: " <> replace_mask q.instructions)
  encoded ← encode_options tokenizer m q.options
  let options = fit_options m encoded
  let start = (m.cls ∷ take (head_limit m options) head) ++ (m.sep ∷ [])
  let (input, markers) = lay_out start [] options
  state_ids ← encode_text tokenizer (replace_mask state)
  fit_state q m limit policy (input ++ (m.sep ∷ [])) markers state_ids
