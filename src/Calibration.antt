-- ===== src/Calibration.antt =====
-- calibration.go: the temperatures of the calibration file. Selecting one is in Output.
-- Decoding of JSON and of numbers is an argument; the check of duplicate fields gives an answer.
use laya_go.Prelude.{
  ℕ, zero, suc, ◌<◌, ◌≡◌, ◌⊎◌, inl, inr, refl, subst, String, str_eq, Bool, Bool-cases, true, false,
  not, ◌||◌, Option, Option-cases, none, some, List, [], ◌∷◌, length, map, ltb, ◌==◌, if◌then◌else◌,
  arith,
}
use laya_go.Prelude.Float.{FloatOps, is_finite}
use laya_go.Errors.{
  sentinel, unsupported_bundle, Outcome, ok, err, ◌>>=◌, ◌>>◌, refuse, ok_injective,
}
use laya_go.Output.{CalibrationConfig, find_qtype, find_bucket, select_value, temperature_bucket}
use laya_go.Output.Matching.{bind-eq-ok}
use laya_go.Preprocess.{PreparedQuestion, question_kind_name}
use laya_go.Bundle.Manifest.{Calibration}
use laya_go.Bundle.Rules.{bad_bundle}
use laya_go.Bundle.Verify.{as_invalid}

-- A decoded value: a `json.Number` and a string with what they are as a float, a truth value, a Go
-- number, and anything else.
pub data Value (F : Type 0) : Type 0 where
  number text : Outcome F → Value F
  truth : Bool → Value F
  go_number : F → Value F
  structured : Value F

-- The fields of `agentConfigDocument` that are read, with what decodes from each.
pub record AgentConfig (F : Type 0) : Type 0 where
  pub temperature : List (Outcome (Value F))
  pub temperature_by_options : List (String × Outcome (Value F))

pub record Document (F : Type 0) : Type 0 where
  pub size : ℕ
  pub unique_fields : Outcome (Unit {0})
  pub decoded : Outcome (AgentConfig F)
  pub trailing : Outcome (Unit {0})

module _ {F : Type 0} where
  abbrev pub parsed : Outcome F → Option F
  parsed (ok x) = some x
  parsed (err e) = none

  unfoldable pub numeric_temperature : ⦃ops : FloatOps F⦄ → Value F → Option F
  numeric_temperature (number o) = parsed o
  numeric_temperature (text o) = parsed o
  numeric_temperature ⦃ops⦄ (truth true) = some (ops.of_ℕ 1)
  numeric_temperature ⦃ops⦄ (truth false) = some (ops.of_ℕ 0)
  numeric_temperature (go_number x) = some x
  numeric_temperature structured = none

  -- The bounds of the manifest, applied to a temperature.
  abbrev pub clamp : ⦃ops : FloatOps F⦄ → Calibration F → F → F
  clamp ⦃ops⦄ c x = ops.fmin c.temperature_max (ops.fmax c.temperature_min x)

  unfoldable pub effective_temperature : ⦃ops : FloatOps F⦄ → Calibration F → Option F → F
  effective_temperature c none = clamp c c.invalid_temperature
  effective_temperature c (some x) =
      if is_finite x then clamp c x else clamp c c.invalid_temperature

  -- The effective temperature; `raw` is not read.
  unfoldable pub parse_calibration_value :
      ⦃ops : FloatOps F⦄ → Calibration F → Outcome (Value F) → F
  unfolding numeric_temperature effective_temperature
  parse_calibration_value c (err e) = c.invalid_temperature
  parse_calibration_value c (ok v) = effective_temperature c (numeric_temperature v)

  unfoldable pub parse_calibration_config :
      ⦃ops : FloatOps F⦄ → Calibration F → Document F → Outcome (CalibrationConfig F)
  unfolding parse_calibration_value
  parse_calibration_config c d = do
    refuse (d.size == 0 || ltb 1048576 d.size) bad_bundle
    as_invalid d.unique_fields
    document ← as_invalid d.decoded
    as_invalid d.trailing
    refuse (not (length document.temperature == 3)) (sentinel unsupported_bundle)
    ok (record {
      by_qtype = map (parse_calibration_value c) document.temperature;
      by_options = map (λ (k, v). (k, parse_calibration_value c v)) document.temperature_by_options;
    })

module _ {F : Type 0} ⦃ops : FloatOps F⦄ (c : Calibration F) where
  -- The manifest's temperature for invalid values, or a finite temperature or that one within bounds.
  abbrev pub IsEffective : F → Type 0
  IsEffective t =
      (t ≡ c.invalid_temperature)
      ⊎ (t ≡ clamp c c.invalid_temperature)
      ⊎ ((x : F) × (is_finite x ≡ true) × (t ≡ clamp c x))

  effective_temperature-IsEffective : (o : Option F) → IsEffective (effective_temperature c o)
  unfolding effective_temperature
  effective_temperature-IsEffective none = inr (inl refl)
  effective_temperature-IsEffective (some x) = elim (Bool-cases (is_finite x)) [
    | inl t ↦ inr (inr (x, t, rw t refl))
    | inr t ↦ inr (inl (rw t refl))
  ]

  parse_calibration_value-IsEffective :
      (o : Outcome (Value F)) → IsEffective (parse_calibration_value c o)
  unfolding parse_calibration_value
  parse_calibration_value-IsEffective (err e) = inl refl
  parse_calibration_value-IsEffective (ok v) =
      effective_temperature-IsEffective (numeric_temperature v)

  find_qtype-map :
      (i : ℕ) (vs : List (Outcome (Value F)))
      → i < length vs
      → (v : Outcome (Value F)) × (find_qtype i (map (parse_calibration_value c) vs)
          ≡ ok (parse_calibration_value c v))
  unfolding find_qtype
  find_qtype-map i [] h = absurd (omega arith)
  find_qtype-map zero (v ∷ vs) h = (v, refl)
  find_qtype-map (suc i) (v ∷ vs) h = find_qtype-map i vs (omega arith)

  find_bucket-map :
      (k : String) (vs : List (String × Outcome (Value F))) (t : F)
      → find_bucket k (map (λ (k, v). (k, parse_calibration_value c v)) vs) ≡ some t
      → IsEffective t
  unfolding find_bucket
  find_bucket-map k [] t e = cc
  find_bucket-map k ((j, v) ∷ vs) t e = elim (Bool-cases (str_eq j k)) [
    | inl s ↦ subst IsEffective (unsome (rw s at e)) (parse_calibration_value-IsEffective v)
    | inr s ↦ find_bucket-map k vs t (rw s at e)
  ]
    where
      unsome : {x y : F} → ◌≡◌ {A = Option F} (some x) (some y) → x ≡ y
      unsome d = cc

  selects :
      (ts : List (Outcome (Value F))) (bs : List (String × Outcome (Value F)))
      (q : PreparedQuestion)
      → q.qtype < length ts
      → (t : F) × (select_value
            (record {
              by_qtype = map (parse_calibration_value c) ts;
              by_options = map (λ (k, v). (k, parse_calibration_value c v)) bs;
            })
            q
          ≡ ok t)
        × IsEffective t
  unfolding select_value
  selects ts bs q h =
      let (v, f) = find_qtype-map q.qtype ts h in
      let k = temperature_bucket (question_kind_name q.kind) (length q.options) in
      elim (Option-cases (find_bucket k (map (λ (k, v). (k, parse_calibration_value c v)) bs))) [
        | inl n ↦
            (parse_calibration_value c v, rw (f, n) refl, parse_calibration_value-IsEffective v)
        | inr (t, b) ↦ (t, rw (f, b) refl, find_bucket-map k bs t b)
      ]

  -- A calibration file that parses has an effective temperature for each question of the kinds 0, 1 and
  -- 2, whatever the number of its options: `selectValue` never fails for one, and what it gives is the
  -- manifest's temperature for invalid values, or that one or a finite temperature held within the
  -- manifest's bounds.
  pub parse_calibration_config-selects :
      (d : Document F) (config : CalibrationConfig F) (q : PreparedQuestion)
      → parse_calibration_config c d ≡ ok config
      → q.qtype < 3
      → (t : F) × (select_value config q ≡ ok t) × IsEffective t
  unfolding parse_calibration_config
  parse_calibration_config-selects d config q e h =
      let (_, _, e₁) = bind-eq-ok (refuse (d.size == 0 || ltb 1048576 d.size) bad_bundle) _ e in
      let (_, _, e₂) = bind-eq-ok (as_invalid d.unique_fields) _ e₁ in
      let (document, _, e₃) = bind-eq-ok (as_invalid d.decoded) _ e₂ in
      let (_, _, e₄) = bind-eq-ok (as_invalid d.trailing) _ e₃ in
      let (_, n, e₅) =
        bind-eq-ok (refuse (not (length document.temperature == 3)) (sentinel unsupported_bundle)) _
          e₄ in
      subst
        (λ (config : CalibrationConfig F). (t : F) × (select_value config q ≡ ok t) × IsEffective t)
        (ok_injective e₅)
        (selects document.temperature document.temperature_by_options q
          (three (length document.temperature) n h))
    where
      three :
          (n : ℕ) {u : Unit {0}}
          → refuse (not (n == 3)) (sentinel unsupported_bundle) ≡ ok u
          → q.qtype < 3
          → q.qtype < n
      three n e h = ground arith
