-- ===== src/Tests/Adk.antt =====
-- A routing node with two branches, one of two targets, and a choice that is accepted.
use laya_go.Prelude.{
  ℕ, ◌≡◌, refl, false, true, eq_iff, String, some, List, [], ◌∷◌, ◌==◌, if◌then◌else◌,
}
use laya_go.Errors.{ok, err, invalid_state, sentinel}
use laya_go.Question.{
  new_choice_question, validate_choice, validate_question_header, validate_entries,
}
use laya_go.Preprocess.Text.{decimal}
use laya_go.Prediction.{
  ChoiceResult, validate_choice_result, validate_criteria, validate_probability,
}
use laya_go.Adk.Accepted.{AcceptancePolicy, accepted_route, fallback_route}
use laya_go.Adk.Accepted.Strict.{Ranked, IsAccepted, accepted_route-strict}
use laya_go.Adk.Routing.{Node, Config, ChoiceRouting, new_choice_routing, branch_route}
use laya_go.Adk.Routing.Leads.{targets_of, AreLed, new_choice_routing-leads}
use laya_go.Tests.Data.{scaled}

abbrev ranked : Ranked ℕ scaled
ranked = record {
  rank = λ x. x;
  lt-rank = λ a b h k. refl;
  eq-rank = λ a b h k. refl;
  minus_one-number = refl;
}

abbrev result : ChoiceResult ℕ
result = record {
  question_id = "route";
  selected = "accept";
  probabilities =
      record { criterion_id = "accept"; probability = 9000 }
      ∷ record { criterion_id = "review"; probability = 1000 }
      ∷ [];
  confidence = 8000;
  action_probability = 100;
}

abbrev policy : AcceptancePolicy ℕ
policy = record {
  min_selected_probability = 5000;
  min_confidence = 5000;
  max_action_probability = 5000;
}

result_valid : validate_choice_result result ≡ ok tt
unfolding validate_choice_result validate_criteria validate_probability
result_valid = refl

abbrev routes : List (String × String)
routes = ("accept", "laya.branch.0") ∷ ("review", "laya.branch.1") ∷ []

not_fallback : accepted_route result routes policy ≡ fallback_route → ⊥
unfolding accepted_route
not_fallback e =
    let t : false ≡ true = (eq_iff (accepted_route result routes policy) fallback_route).1 e in
    absurd (cc)

accepted_route-strict_example : IsAccepted ranked result routes policy
accepted_route-strict_example =
    accepted_route-strict ranked result routes policy result_valid not_fallback

-- Targets are the nodes 1, 2 and, for the fallback, 3.
abbrev named : Node → String
named n = if n == 1 then "one" else if n == 2 then "two" else "three"

abbrev config : Config ℕ String
config = record {
  name = "router";
  question_id = "route";
  instructions = "Choose.";
  project_state = some (λ text. err (sentinel invalid_state));
  branches =
      record {
        criteria =
            record { id = "accept"; description = "continue" }
            ∷ record { id = "review"; description = "ask" }
            ∷ [];
        target = some 1;
      }
      ∷ record { criteria = record { id = "stop"; description = "end" } ∷ []; target = some 2 }
      ∷ record { criteria = record { id = "again"; description = "repeat" } ∷ []; target = some 1 }
      ∷ [];
  fallback = some 3;
  policy = some policy;
}

abbrev routing : ChoiceRouting ℕ String
routing = record {
  project_state = λ text. err (sentinel invalid_state);
  question = record {
    id = "route";
    instructions = "Choose.";
    criteria =
        record { id = "accept"; description = "continue" }
        ∷ record { id = "review"; description = "ask" }
        ∷ record { id = "stop"; description = "end" }
        ∷ record { id = "again"; description = "repeat" }
        ∷ [];
  };
  routes =
      ("accept", "laya.branch.0")
      ∷ ("review", "laya.branch.0")
      ∷ ("stop", "laya.branch.1")
      ∷ ("again", "laya.branch.2")
      ∷ [];
  policy = policy;
  edges =
      record { target = 1; routes = "laya.branch.0" ∷ "laya.branch.2" ∷ [] }
      ∷ record { target = 2; routes = "laya.branch.1" ∷ [] }
      ∷ record { target = 3; routes = "laya.fallback" ∷ [] }
      ∷ [];
}

routing_made : new_choice_routing (λ s. s) named config ≡ ok routing
unfolding new_choice_routing branch_route decimal new_choice_question validate_choice
    validate_question_header validate_entries
routing_made = refl

new_choice_routing-leads_example :
    AreLed 0 config.branches routing.edges routing.routes
    × ((t : Node) × (config.fallback ≡ some t) × (targets_of fallback_route routing.edges ≡ t ∷ []))
new_choice_routing-leads_example =
    new_choice_routing-leads (λ s. s) named config routing routing_made
