-- ===== src/Adk/Nodes.antt =====
-- adklaya/data.go: nodes that put one question, or a batch, to a model. The type of a result is asked
-- for as a value: a pointer to a result, which the model's check accepts, is refused here.
use laya_go.Prelude.{String, str_eq, Option, none, some, List, [], ◌∷◌, length, ◌==◌}
use laya_go.Errors.{Category, Error, sentinel, foreign, Outcome, ok, err, ◌>>=◌, ◌>>◌, refuse}
use laya_go.Options.{bad_config}
use laya_go.Question.{Question, ChoiceQuestion, ScoreQuestion, NoulQuestion}
use laya_go.State.{State}
use laya_go.Prediction.{
  ChoiceAnswer, ChoiceResult, ScoreAnswer, ScoreResult, NoulAnswer, NoulResult, Result, choice,
  choice_pointer, score, score_pointer, noul, noul_pointer, unsupported, Usage, PredictionMetadata,
}
use laya_go.Predict.{Engine, first_result}

abbrev pub Context : Type 0
Context = Option Category

abbrev pub still : Context → Outcome (Unit {0})
still none = ok tt
still (some c) = err (sentinel c)

-- `trim_space` is `strings.TrimSpace`.
unfoldable pub validate_node_options : (String → String) → String → Outcome (Unit {0})
validate_node_options trim_space name = do
  refuse (str_eq (trim_space name) "") bad_config
  refuse (str_eq name "user") bad_config

-- What the context gives when a node is called: before the projector, after it, and at the end.
pub record Call : Type 0 where
  pub entry : Context
  pub projected : Context
  pub done : Context

-- The function of a node that `newDataNode` makes.
unfoldable pub run_node :
    {In Out : Type 0} → (In → Outcome State) → (State → Outcome Out) → Call → In → Outcome Out
run_node project run call input = do
  still call.entry
  state ← project input
  still call.projected
  output ← run state
  still call.done
  ok output

-- `newDataNode`; a projector may be nil. The configuration of the workflow's node is left out.
unfoldable pub new_data_node :
    {In Out : Type 0}
    → (String → String)
    → String
    → Option (In → Outcome State)
    → (State → Outcome Out)
    → Outcome (Call → In → Outcome Out)
unfolding validate_node_options run_node
new_data_node trim_space name projector run = do
  validate_node_options trim_space name
  elim projector [ none ↦ err bad_config | some project ↦ ok (run_node project run) ]

-- `ChoiceOutput`, `ScoreOutput` and `NoulOutput`, by the type of their answer.
pub record Output (A : Type 0) : Type 0 where
  pub question_id : String
  pub answer : A
  pub usage : Usage
  pub metadata : PredictionMetadata

-- The kind of a `ResultOutput` with the one pointer that is set.
pub data Answer (F : Type 0) : Type 0 where
  choice_answer : ChoiceAnswer F → Answer F
  score_answer : ScoreAnswer F → Answer F
  noul_answer : NoulAnswer F → Answer F

pub record ResultOutput (F : Type 0) : Type 0 where
  pub question_id : String
  pub answer : Answer F

pub record PredictionOutput (F : Type 0) : Type 0 where
  pub results : List (ResultOutput F)
  pub usage : Usage
  pub metadata : PredictionMetadata

-- An error whose text says the type of the result.
abbrev pub wrong_type : Error
wrong_type = foreign 7

module _ {F : Type 0} where
  abbrev pub choice_answer_of : ChoiceResult F → ChoiceAnswer F
  choice_answer_of r = record {
    selected = r.selected;
    probabilities = r.probabilities;
    confidence = r.confidence;
    action_probability = r.action_probability;
  }

  abbrev pub score_answer_of : ScoreResult F → ScoreAnswer F
  score_answer_of r = record {
    expected_level = r.expected_level;
    distribution = r.distribution;
    confidence = r.confidence;
    action_probability = r.action_probability;
  }

  abbrev pub noul_answer_of : NoulResult F → NoulAnswer F
  noul_answer_of r = record {
    true_probability = r.true_probability;
    action_probability = r.action_probability;
  }

  -- `result.(laya.ChoiceResult)`, and so for the other two.
  unfoldable pub as_choice : Result F → Outcome (ChoiceResult F)
  as_choice (choice r) = ok r
  as_choice (choice_pointer r) = err wrong_type
  as_choice (score r) = err wrong_type
  as_choice (score_pointer r) = err wrong_type
  as_choice (noul r) = err wrong_type
  as_choice (noul_pointer r) = err wrong_type
  as_choice unsupported = err wrong_type

  unfoldable pub as_score : Result F → Outcome (ScoreResult F)
  as_score (score r) = ok r
  as_score (choice r) = err wrong_type
  as_score (choice_pointer r) = err wrong_type
  as_score (score_pointer r) = err wrong_type
  as_score (noul r) = err wrong_type
  as_score (noul_pointer r) = err wrong_type
  as_score unsupported = err wrong_type

  unfoldable pub as_noul : Result F → Outcome (NoulResult F)
  as_noul (noul r) = ok r
  as_noul (choice r) = err wrong_type
  as_noul (choice_pointer r) = err wrong_type
  as_noul (score r) = err wrong_type
  as_noul (score_pointer r) = err wrong_type
  as_noul (noul_pointer r) = err wrong_type
  as_noul unsupported = err wrong_type

  unfoldable pub result_output : Result F → Outcome (ResultOutput F)
  result_output (choice r) =
      ok (record { question_id = r.question_id; answer = choice_answer (choice_answer_of r) })
  result_output (score r) =
      ok (record { question_id = r.question_id; answer = score_answer (score_answer_of r) })
  result_output (noul r) =
      ok (record { question_id = r.question_id; answer = noul_answer (noul_answer_of r) })
  result_output (choice_pointer r) = err wrong_type
  result_output (score_pointer r) = err wrong_type
  result_output (noul_pointer r) = err wrong_type
  result_output unsupported = err wrong_type

  -- The loop over the results.
  unfoldable pub result_outputs : List (Result F) → Outcome (List (ResultOutput F))
  unfolding result_output
  result_outputs [] = ok []
  result_outputs (r ∷ rs) = do here ← result_output r; rest ← result_outputs rs; ok (here ∷ rest)

  -- The functions that `newChoiceNode`, `newScoreNode`, `newNoulNode` and `newPredictionNode` hand to
  -- `newDataNode`.
  unfoldable pub run_choice : Engine F → ChoiceQuestion → State → Outcome (Output (ChoiceAnswer F))
  unfolding first_result as_choice
  run_choice predict q state = do
    prediction ← predict state (Question.choice q ∷ [])
    first ← first_result prediction
    result ← as_choice first
    ok (record {
      question_id = result.question_id;
      answer = choice_answer_of result;
      usage = prediction.usage;
      metadata = prediction.metadata;
    })

  unfoldable pub run_score : Engine F → ScoreQuestion → State → Outcome (Output (ScoreAnswer F))
  unfolding first_result as_score
  run_score predict q state = do
    prediction ← predict state (Question.score q ∷ [])
    first ← first_result prediction
    result ← as_score first
    ok (record {
      question_id = result.question_id;
      answer = score_answer_of result;
      usage = prediction.usage;
      metadata = prediction.metadata;
    })

  unfoldable pub run_noul : Engine F → NoulQuestion → State → Outcome (Output (NoulAnswer F))
  unfolding first_result as_noul
  run_noul predict q state = do
    prediction ← predict state (Question.noul q ∷ [])
    first ← first_result prediction
    result ← as_noul first
    ok (record {
      question_id = result.question_id;
      answer = noul_answer_of result;
      usage = prediction.usage;
      metadata = prediction.metadata;
    })

  unfoldable pub run_prediction : Engine F → List Question → State → Outcome (PredictionOutput F)
  unfolding result_outputs
  run_prediction predict qs state = do
    prediction ← predict state qs
    outputs ← result_outputs prediction.results
    ok (record { results = outputs; usage = prediction.usage; metadata = prediction.metadata })

  module _ {In : Type 0} (trim_space : String → String) where
    unfoldable pub new_choice_node :
        Option (In → Outcome State)
        → ChoiceQuestion
        → String
        → Engine F
        → Outcome (Call → In → Outcome (Output (ChoiceAnswer F)))
    unfolding new_data_node run_choice
    new_choice_node projector q name predict =
        new_data_node trim_space name projector (run_choice predict q)

    unfoldable pub new_score_node :
        Option (In → Outcome State)
        → ScoreQuestion
        → String
        → Engine F
        → Outcome (Call → In → Outcome (Output (ScoreAnswer F)))
    unfolding new_data_node run_score
    new_score_node projector q name predict =
        new_data_node trim_space name projector (run_score predict q)

    unfoldable pub new_noul_node :
        Option (In → Outcome State)
        → NoulQuestion
        → String
        → Engine F
        → Outcome (Call → In → Outcome (Output (NoulAnswer F)))
    unfolding new_data_node run_noul
    new_noul_node projector q name predict =
        new_data_node trim_space name projector (run_noul predict q)

    unfoldable pub new_prediction_node :
        Option (In → Outcome State)
        → List Question
        → String
        → Engine F
        → Outcome (Call → In → Outcome (PredictionOutput F))
    unfolding new_data_node run_prediction
    new_prediction_node projector qs name predict = do
      refuse (length qs == 0) bad_config
      new_data_node trim_space name projector (run_prediction predict qs)
