-- ===== src/Question.antt =====
-- question.go, and `validateQuestions` of model.go: typed questions and their validation.
-- Accessors that copy a slice are the field itself, for values here do not change in place.
pub mod Valid
use laya_go.Prelude.{
  ℕ, String, str_eq, Bool, true, false, ◌||◌, Option, none, some, List, [], ◌∷◌, length, ltb,
  if◌then◌else◌,
}
use laya_go.Errors.{
  Error, sentinel, nil_dereference, invalid_request, Outcome, ok, err, ◌>>=◌, ◌>>◌, refuse,
}

pub record ChoiceCriterion : Type 0 where
  pub id : String
  pub description : String

pub record ChoiceQuestion : Type 0 where
  pub id : String
  pub instructions : String
  pub criteria : List ChoiceCriterion

pub record ScoreLevel : Type 0 where
  pub label : String
  pub description : String

pub record ScoreQuestion : Type 0 where
  pub id : String
  pub instructions : String
  pub rubric : List ScoreLevel

pub record NoulQuestion : Type 0 where
  pub id : String
  pub instructions : String
  pub false_description : String
  pub true_description : String

-- A value of the interface: a struct, a pointer that may be nil, or a type that no switch names,
-- the nil interface included.
pub data Question : Type 0 where
  choice : ChoiceQuestion → Question
  choice_pointer : Option ChoiceQuestion → Question
  score : ScoreQuestion → Question
  score_pointer : Option ScoreQuestion → Question
  noul : NoulQuestion → Question
  noul_pointer : Option NoulQuestion → Question
  unsupported : Question

abbrev pub bad_request : Error
bad_request = sentinel invalid_request

-- A `map[string]bool` used as a set, as the list of its keys.
unfoldable pub seen_before : List String → String → Bool
seen_before [] k = false
seen_before (j ∷ seen) k = str_eq j k || seen_before seen k

unfoldable pub validate_question_header : String → String → Outcome (Unit {0})
validate_question_header id instructions = do
  refuse (str_eq id "") bad_request
  refuse (str_eq instructions "") bad_request

-- The loop of both `validate` methods over criteria and over levels: an empty key, an empty
-- description, or a key seen before ends it.
unfoldable pub validate_entries :
    {A : Type 0} → (A → String) → (A → String) → List String → List A → Outcome (Unit {0})
unfolding seen_before
validate_entries key describe seen [] = ok tt
validate_entries key describe seen (x ∷ xs) =
    let rest = validate_entries key describe (key x ∷ seen) xs in
    if str_eq (key x) ""
    then err bad_request
    else if str_eq (describe x) ""
    then err bad_request
    else if seen_before seen (key x)
    then err bad_request
    else rest

unfoldable pub validate_choice : ChoiceQuestion → Outcome (Unit {0})
validate_choice q = do
  validate_question_header q.id q.instructions
  refuse (ltb (length q.criteria) 2) bad_request
  validate_entries (λ (c : ChoiceCriterion). c.id) (λ c. c.description) [] q.criteria

unfoldable pub validate_score : ScoreQuestion → Outcome (Unit {0})
validate_score q = do
  validate_question_header q.id q.instructions
  refuse (ltb (length q.rubric) 2) bad_request
  validate_entries (λ (l : ScoreLevel). l.label) (λ l. l.description) [] q.rubric

unfoldable pub validate_noul : NoulQuestion → Outcome (Unit {0})
validate_noul q = validate_question_header q.id q.instructions

unfoldable pub validate_question : Question → Outcome (Unit {0})
validate_question (choice q) = validate_choice q
validate_question (choice_pointer none) = err bad_request
validate_question (choice_pointer (some q)) = validate_choice q
validate_question (score q) = validate_score q
validate_question (score_pointer none) = err bad_request
validate_question (score_pointer (some q)) = validate_score q
validate_question (noul q) = validate_noul q
validate_question (noul_pointer none) = err bad_request
validate_question (noul_pointer (some q)) = validate_noul q
validate_question unsupported = err bad_request

-- `question.ID()`: a method on the value, so a nil pointer panics.
unfoldable pub question_id : Question → Outcome String
question_id (choice q) = ok q.id
question_id (choice_pointer (some q)) = ok q.id
question_id (score q) = ok q.id
question_id (score_pointer (some q)) = ok q.id
question_id (noul q) = ok q.id
question_id (noul_pointer (some q)) = ok q.id
question_id (choice_pointer none) = err nil_dereference
question_id (score_pointer none) = err nil_dereference
question_id (noul_pointer none) = err nil_dereference
question_id unsupported = err nil_dereference

-- The loop of `validateQuestions`.
unfoldable pub validate_each : List String → List Question → Outcome (Unit {0})
validate_each seen [] = ok tt
validate_each seen (q ∷ qs) = do
  validate_question q
  id ← question_id q
  if seen_before seen id then err bad_request else validate_each (id ∷ seen) qs

unfoldable pub validate_questions : List Question → Outcome (Unit {0})
validate_questions [] = err bad_request
validate_questions (q ∷ qs) = validate_each [] (q ∷ qs)

unfoldable pub new_choice_question : String → String → List ChoiceCriterion → Outcome ChoiceQuestion
new_choice_question id instructions criteria = do
  let q : ChoiceQuestion = record { id = id; instructions = instructions; criteria = criteria }
  validate_choice q
  ok q

unfoldable pub new_score_question : String → String → List ScoreLevel → Outcome ScoreQuestion
new_score_question id instructions rubric = do
  let q : ScoreQuestion = record { id = id; instructions = instructions; rubric = rubric }
  validate_score q
  ok q

unfoldable pub new_noul_question : String → String → String → String → Outcome NoulQuestion
new_noul_question id instructions false_description true_description = do
  let q : NoulQuestion = record {
    id = id;
    instructions = instructions;
    false_description = false_description;
    true_description = true_description;
  }
  validate_noul q
  ok q
