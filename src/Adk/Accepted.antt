-- ===== src/Adk/Accepted.antt =====
-- `acceptedRoute` and `validatePolicy` of adklaya/routing.go.
pub mod Strict
use laya_go.Prelude.{
  ℕ, suc, String, str_eq, Bool, true, false, not, ◌&&◌, ◌||◌, Option, none, some, List, [], ◌∷◌,
  ◌==◌, if◌then◌else◌,
}
use laya_go.Prelude.Float.{FloatOps}
use laya_go.Errors.{Outcome, ok, err, ◌>>=◌, ◌>>◌, refuse}
use laya_go.Options.{bad_config}
use laya_go.Prediction.{CriterionProbability, ChoiceResult}

abbrev pub fallback_route : String
fallback_route = "laya.fallback"

pub record AcceptancePolicy (F : Type 0) : Type 0 where
  pub min_selected_probability : F
  pub min_confidence : F
  pub max_action_probability : F

-- `routes[criterion]`.
unfoldable pub find_route : {A : Type 0} → String → List (String × A) → Option A
find_route c [] = none
find_route c ((d, r) ∷ routes) =
    let later = find_route c routes in if str_eq d c then some r else later

-- `max`, `maxCount` and `selectedProbability`.
pub record Scan (F : Type 0) : Type 0 where
  pub best : F
  pub count : ℕ
  pub selected : F

abbrev pub route_or_fallback : Option String → String
route_or_fallback none = fallback_route
route_or_fallback (some route) = route

module _ {F : Type 0} ⦃ops : FloatOps F⦄ where
  -- The test of one value, with the caller's `invalidConfig`.
  unfoldable pub validate_threshold : F → Outcome (Unit {0})
  validate_threshold x =
      refuse (ops.is_nan x || ops.is_inf x || ops.lt x (ops.of_ℕ 0) || ops.lt (ops.of_ℕ 1) x)
        bad_config

  unfoldable pub validate_policy : AcceptancePolicy F → Outcome (Unit {0})
  unfolding validate_threshold
  validate_policy p = do
    validate_threshold p.min_selected_probability
    validate_threshold p.min_confidence
    validate_threshold p.max_action_probability

  abbrev pub minus_one : F
  minus_one = ops.neg (ops.of_ℕ 1)

  abbrev pub scan_start : Scan F
  scan_start = record { best = minus_one; count = 0; selected = minus_one }

  unfoldable pub scan_step : String → Scan F → CriterionProbability F → Scan F
  scan_step chosen s p = record {
    best = if ops.lt s.best p.probability then p.probability else s.best;
    count =
        if ops.lt s.best p.probability
        then 1
        else if ops.eq p.probability s.best
        then suc s.count
        else s.count;
    selected = if str_eq p.criterion_id chosen then p.probability else s.selected;
  }

  unfoldable pub scan : String → Scan F → List (CriterionProbability F) → Scan F
  unfolding scan_step
  scan chosen s [] = s
  scan chosen s (p ∷ ps) = scan chosen (scan_step chosen s p) ps

  unfoldable pub is_refused : Scan F → ChoiceResult F → AcceptancePolicy F → Bool
  is_refused s r policy =
      not (s.count == 1)
      || not (ops.eq s.selected s.best)
      || ops.lt s.selected policy.min_selected_probability
      || ops.lt r.confidence policy.min_confidence
      || ops.lt policy.max_action_probability r.action_probability

  unfoldable pub accepted_route :
      ChoiceResult F → List (String × String) → AcceptancePolicy F → String
  unfolding scan is_refused find_route
  accepted_route r routes policy =
      if is_refused (scan r.selected scan_start r.probabilities) r policy
      then fallback_route
      else route_or_fallback (find_route r.selected routes)
