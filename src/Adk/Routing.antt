-- ===== src/Adk/Routing.antt =====
-- `newChoiceRouting` of adklaya/routing.go. A node of the workflow is a number, its identity, with a
-- name; an edge leads to a node on some routes. `targetOrder` and `targetRoutes` are one list.
pub mod Leads
use Prim.Native.String.{◌++◌ as str_append}
use laya_go.Prelude.{
  ℕ, suc, String, str_eq, Bool, true, false, not, ◌&&◌, Option, none, some, List, [], ◌∷◌, ◌++◌,
  length, ◌==◌, if◌then◌else◌,
}
use laya_go.Prelude.Float.{FloatOps}
use laya_go.Errors.{Outcome, ok, err, ◌>>=◌, ◌>>◌, refuse}
use laya_go.Options.{bad_config}
use laya_go.Question.{ChoiceCriterion, ChoiceQuestion, new_choice_question}
use laya_go.Question
use laya_go.State.{State}
use laya_go.Predict.{Engine, first_result}
use laya_go.Preprocess.Text.{decimal}
use laya_go.Adk.Nodes.{Call, still, validate_node_options, as_choice}
use laya_go.Adk.Accepted.{
  fallback_route, AcceptancePolicy, validate_policy, find_route, accepted_route,
}

abbrev pub Node : Type 0
Node = ℕ

-- `fmt.Sprintf("laya.branch.%d", i)`.
unfoldable pub branch_route : ℕ → String
branch_route i = str_append "laya.branch." (decimal i)

pub record Branch : Type 0 where
  pub criteria : List ChoiceCriterion
  pub target : Option Node

pub record Edge : Type 0 where
  pub target : Node
  pub routes : List String

-- What the loop over the branches builds.
pub record Plan : Type 0 where
  pub criteria : List ChoiceCriterion
  pub routes : List (String × String)
  pub names : List (String × Node)
  pub edges : List Edge

abbrev pub not_nil {ℓ} : {A : Type ℓ} → Option A → Outcome A
not_nil none = err bad_config
not_nil (some a) = ok a

unfoldable pub add_route : Node → String → List Edge → List Edge
add_route t r [] = record { target = t; routes = r ∷ [] } ∷ []
add_route t r (e ∷ es) =
    let rest = add_route t r es in
    if e.target == t then record e { routes = e.routes ++ (r ∷ []) } ∷ es else e ∷ rest

-- A name that another target has.
abbrev pub is_other : Node → Option Node → Bool
is_other t none = false
is_other t (some u) = not (u == t)

abbrev pub is_found {ℓ} : {A : Type ℓ} → Option A → Bool
is_found none = false
is_found (some a) = true

unfoldable pub is_target : Node → List Edge → Bool
is_target t [] = false
is_target t (e ∷ es) = let rest = is_target t es in if e.target == t then true else rest

-- The loop over the criteria of a branch.
unfoldable pub add_criteria : String → List ChoiceCriterion → Plan → Outcome Plan
unfolding find_route
add_criteria route [] plan = ok plan
add_criteria route (c ∷ cs) plan = do
  refuse (is_found (find_route c.id plan.routes)) bad_config
  add_criteria route cs (record plan {
    criteria = plan.criteria ++ (c ∷ []);
    routes = plan.routes ++ ((c.id, route) ∷ []);
  })

pub record Config (F In : Type 0) : Type 0 where
  pub name : String
  pub question_id : String
  pub instructions : String
  pub project_state : Option (In → Outcome State)
  pub branches : List Branch
  pub fallback : Option Node
  pub policy : Option (AcceptancePolicy F)

-- The routing node, by its function, and the edges.
pub record ChoiceRouting (F In : Type 0) : Type 0 where
  pub project_state : In → Outcome State
  pub question : ChoiceQuestion
  pub routes : List (String × String)
  pub policy : AcceptancePolicy F
  pub edges : List Edge

abbrev pub start : Plan
start = record { criteria = []; routes = []; names = []; edges = [] }

-- `trim_space` is `strings.TrimSpace`, and `name_of` the `Name` of a node.
module _ (trim_space : String → String) (name_of : Node → String) where
  -- It gives the names with the target's.
  unfoldable pub validate_target : Node → List (String × Node) → Outcome (List (String × Node))
  unfolding find_route
  validate_target t names = do
    refuse (str_eq (trim_space (name_of t)) "") bad_config
    refuse (str_eq (name_of t) "user") bad_config
    refuse (is_other t (find_route (name_of t) names)) bad_config
    ok ((name_of t, t) ∷ names)

  unfoldable pub add_branches : ℕ → List Branch → Plan → Outcome Plan
  unfolding validate_target add_route add_criteria branch_route
  add_branches i [] plan = ok plan
  add_branches i (b ∷ bs) plan = do
    target ← not_nil b.target
    refuse (length b.criteria == 0) bad_config
    names ← validate_target target plan.names
    added ←
        add_criteria (branch_route i) b.criteria
          (record plan { names = names; edges = add_route target (branch_route i) plan.edges })
    add_branches (suc i) bs added

  unfoldable pub new_choice_routing :
      {F In : Type 0} ⦃ops : FloatOps F⦄ → Config F In → Outcome (ChoiceRouting F In)
  unfolding validate_node_options validate_policy add_branches is_target
  new_choice_routing cfg = do
    validate_node_options trim_space cfg.name
    project ← not_nil cfg.project_state
    policy ← not_nil cfg.policy
    validate_policy policy
    fallback ← not_nil cfg.fallback
    refuse (length cfg.branches == 0) bad_config
    plan ← add_branches 0 cfg.branches start
    refuse (is_target fallback plan.edges) bad_config
    names ← validate_target fallback plan.names
    question ← new_choice_question cfg.question_id cfg.instructions plan.criteria
    ok (record {
      project_state = project;
      question = question;
      routes = plan.routes;
      policy = policy;
      edges = plan.edges ++ (record { target = fallback; routes = fallback_route ∷ [] } ∷ []);
    })

-- The function of the routing node: the input, which it passes on, and the route of its event.
unfoldable pub run_routing :
    {F In : Type 0} ⦃ops : FloatOps F⦄
    → ChoiceRouting F In
    → Engine F
    → Call
    → In
    → Outcome (In × String)
unfolding first_result as_choice accepted_route
run_routing r predict call input = do
  still call.entry
  state ← r.project_state input
  still call.projected
  prediction ← predict state (Question.choice r.question ∷ [])
  still call.done
  first ← first_result prediction
  result ← as_choice first
  ok (input, accepted_route result r.routes r.policy)
