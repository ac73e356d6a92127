-- ===== src/Adk/Accepted/Strict.antt =====
-- A route other than the fallback needs a choice that is strictly the likeliest and within the policy.
use laya_go.Prelude.{
  ℕ, ◌+◌, ◌≤◌, ◌≡◌, ◌⊎◌, inl, inr, refl, sym, subst, ap, ◌∙◌, String, str_eq, eq_iff, Bool, true,
  false, Bool-cases, Option, none, some, List, [], ◌∷◌, ◌++◌, map, All, Has, All-append, ltb, ◌==◌,
  if◌then◌else◌, arith,
}
use laya_go.Prelude.Float.{FloatOps}
use laya_go.Errors.{ok}
use laya_go.Question.Valid.{str_eq-Tests}
use laya_go.Prediction.{CriterionProbability, ChoiceResult, validate_choice_result}
use laya_go.Prediction.Valid.{IsCriterion, IsChoiceResult, validate_choice_result-Decides}
use laya_go.Adk.Accepted.{
  fallback_route, AcceptancePolicy, find_route, Scan, scan_start, scan_step, scan, is_refused,
  route_or_fallback, accepted_route,
}

-- Floats that are not NaN stand in an order, that of their ranks.
pub record Ranked (F : Type 0) (ops : FloatOps F) : Type 0 where
  pub rank : F → ℕ
  pub lt-rank :
      (a b : F) → ops.is_nan a ≡ false → ops.is_nan b ≡ false → ops.lt a b ≡ ltb (rank a) (rank b)
  pub eq-rank :
      (a b : F) → ops.is_nan a ≡ false → ops.is_nan b ≡ false → ops.eq a b ≡ (rank a == rank b)
  pub minus_one-number : ops.is_nan (ops.neg (ops.of_ℕ 1)) ≡ false

-- The count of a level through one step: `x` is the level of the entry, `b` the best before it, `b'`
-- after it, and `k` at the end.
through :
    (x b b' k t c c' d : ℕ)
    → b ≤ b'
    → x ≤ b'
    → b' ≤ k
    → c' ≡ (if x == b' then 1 else 0) + (if b == b' then c else 0)
    → d ≡ t + (if b' == k then c' else 0)
    → d ≡ ((if x == k then 1 else 0) + t) + (if b == k then c else 0)
through x b b' k t c c' d h i j e f = ground arith

module _ {F : Type 0} ⦃ops : FloatOps F⦄ (ranked : Ranked F ops) where
  abbrev level : CriterionProbability F → ℕ
  level p = ranked.rank p.probability

  abbrev AreNumbers : List (CriterionProbability F) → Type 0
  AreNumbers ps = All (λ (p : CriterionProbability F). ops.is_nan p.probability ≡ false) ps

  -- How many stand at a level.
  abbrev tops : ℕ → List (CriterionProbability F) → ℕ
  tops k [] = 0
  tops k (p ∷ ps) = (if level p == k then 1 else 0) + tops k ps

  -- One step, by ranks.
  step_lem :
      (chosen : String) (s : Scan F) (p : CriterionProbability F)
      → ops.is_nan s.best ≡ false
      → ops.is_nan p.probability ≡ false
      → (ops.is_nan (scan_step chosen s p).best ≡ false)
        × (ranked.rank s.best ≤ ranked.rank (scan_step chosen s p).best)
        × (level p ≤ ranked.rank (scan_step chosen s p).best)
        × ((scan_step chosen s p).count
            ≡ (if level p == ranked.rank (scan_step chosen s p).best then 1 else 0)
              + (if ranked.rank s.best == ranked.rank (scan_step chosen s p).best
                  then s.count
                  else 0))
  unfolding scan_step
  step_lem chosen s p h k =
      ground
        (arith, ranked.lt-rank s.best p.probability h k, ranked.eq-rank p.probability s.best k h)

  abbrev AtMost : ℕ → List (CriterionProbability F) → Type 0
  AtMost k ps = All (λ (p : CriterionProbability F). level p ≤ k) ps

  scan_lem :
      (chosen : String) (s : Scan F) (ps : List (CriterionProbability F))
      → ops.is_nan s.best ≡ false
      → AreNumbers ps
      → (ops.is_nan (scan chosen s ps).best ≡ false)
        × (ranked.rank s.best ≤ ranked.rank (scan chosen s ps).best)
        × AtMost (ranked.rank (scan chosen s ps).best) ps
        × ((scan chosen s ps).count
            ≡ tops (ranked.rank (scan chosen s ps).best) ps
              + (if ranked.rank s.best == ranked.rank (scan chosen s ps).best then s.count else 0))
  unfolding scan
  scan_lem chosen s [] h hs = (h, omega arith, tt, ground arith)
  scan_lem chosen s (p ∷ ps) h (k, hs) =
      let (n, a, b, c) = step_lem chosen s p h k in
      let (m, d, e, f) = scan_lem chosen (scan_step chosen s p) ps n hs in
      (m, omega arith, (omega arith, e), through _ _ _ _ _ _ _ _ a b d c f)

  -- The entry whose probability the scan keeps for the chosen criterion.
  abbrev Chosen : String → F → List (CriterionProbability F) → Type 0
  Chosen chosen x ps =
      (pre : List (CriterionProbability F)) × (p : CriterionProbability F) × (post : List
        (CriterionProbability F))
      × (ps ≡ pre ++ (p ∷ post))
      × (p.criterion_id ≡ chosen)
      × (x ≡ p.probability)

  picked :
      (chosen : String) (s : Scan F) (p : CriterionProbability F)
      → p.criterion_id ≡ chosen
      → (scan_step chosen s p).selected ≡ p.probability
  unfolding scan_step
  picked chosen s p n = rw ((eq_iff p.criterion_id chosen).1 n) refl

  passed :
      (chosen : String) (s : Scan F) (p : CriterionProbability F)
      → str_eq p.criterion_id chosen ≡ false
      → (scan_step chosen s p).selected ≡ s.selected
  unfolding scan_step
  passed chosen s p t = rw t refl

  scan-Chosen :
      (chosen : String) (s : Scan F) (ps : List (CriterionProbability F))
      → ((scan chosen s ps).selected ≡ s.selected) ⊎ Chosen chosen (scan chosen s ps).selected ps
  unfolding scan
  scan-Chosen chosen s [] = inl refl
  scan-Chosen chosen s (p ∷ ps) = elim (scan-Chosen chosen (scan_step chosen s p) ps) [
    | inr (pre, q, post, e, n, x) ↦ inr (p ∷ pre, q, post, ap (◌∷◌ p) e, n, x)
    | inl e ↦ elim (str_eq-Tests p.criterion_id chosen) [
      | inl (n, t) ↦ inr ([], p, ps, refl, n, e ∙ picked chosen s p n)
      | inr (_, t) ↦ inl (e ∙ passed chosen s p t)
    ]
  ]

  scan-Chosen_of_Has :
      (chosen : String) (s : Scan F) (ps : List (CriterionProbability F))
      → Has chosen (map (λ p. p.criterion_id) ps)
      → Chosen chosen (scan chosen s ps).selected ps
  unfolding scan
  scan-Chosen_of_Has chosen s [] h = absurd h
  scan-Chosen_of_Has chosen s (p ∷ ps) (inr h) =
      let (pre, q, post, e, n, x) = scan-Chosen_of_Has chosen (scan_step chosen s p) ps h in
      (p ∷ pre, q, post, ap (◌∷◌ p) e, n, x)
  scan-Chosen_of_Has chosen s (p ∷ ps) (inl n) =
      elim (scan-Chosen chosen (scan_step chosen s p) ps) [
        | inr (pre, q, post, e, m, x) ↦ (p ∷ pre, q, post, ap (◌∷◌ p) e, m, x)
        | inl e ↦ ([], p, ps, refl, n, e ∙ picked chosen s p n)
      ]

  -- The other entries are strictly below.
  abbrev pub Below : F → List (CriterionProbability F) → Type 0
  Below x ps = All (λ (q : CriterionProbability F). ops.lt q.probability x ≡ true) ps

  strictly :
      (x : F) (ps : List (CriterionProbability F))
      → ops.is_nan x ≡ false
      → AreNumbers ps
      → AtMost (ranked.rank x) ps
      → tops (ranked.rank x) ps ≡ 0
      → Below x ps
  strictly x [] n ns m t = tt
  strictly x (p ∷ ps) n (k, ns) (l, m) t = (
    ranked.lt-rank p.probability x k n
        ∙ one (level p) (ranked.rank x) (tops (ranked.rank x) ps) l t,
    strictly x ps n ns m (rest (level p) (ranked.rank x) (tops (ranked.rank x) ps) t),
  )
    where
      one : (a b t : ℕ) → a ≤ b → (if a == b then 1 else 0) + t ≡ 0 → ltb a b ≡ true
      one a b t l e = ground arith

      rest : (a b t : ℕ) → (if a == b then 1 else 0) + t ≡ 0 → t ≡ 0
      rest a b t e = ground arith

  tops-append :
      (k : ℕ) (xs ys : List (CriterionProbability F)) → tops k (xs ++ ys) ≡ tops k xs + tops k ys
  tops-append k [] ys = omega arith
  tops-append k (x ∷ xs) ys = omega (arith, tops-append k xs ys)

  -- The only entry at the level of the chosen one is the chosen one.
  unique :
      (pre : List (CriterionProbability F)) (p : CriterionProbability F)
      (post : List (CriterionProbability F))
      → AreNumbers (pre ++ (p ∷ post))
      → AtMost (level p) (pre ++ (p ∷ post))
      → tops (level p) (pre ++ (p ∷ post)) ≡ 1
      → Below p.probability pre × Below p.probability post
  unique pre p post ns m t =
      let (a, (k, b)) =
        All-append (λ (q : CriterionProbability F). ops.is_nan q.probability ≡ false) pre (p ∷ post)
          ns in
      let (c, (_, d)) =
        All-append (λ (q : CriterionProbability F). level q ≤ level p) pre (p ∷ post) m in
      let (e, f) =
        zeros (level p) (tops (level p) pre) (tops (level p) post)
          (sym (tops-append (level p) pre (p ∷ post)) ∙ t) in
      (strictly p.probability pre k a c e, strictly p.probability post k b d f)
    where
      zeros : (k a b : ℕ) → a + ((if k == k then 1 else 0) + b) ≡ 1 → (a ≡ 0) × (b ≡ 0)
      zeros k a b e = ground arith

  numbers : (ps : List (CriterionProbability F)) → All IsCriterion ps → AreNumbers ps
  numbers [] h = tt
  numbers (p ∷ ps) ((_, q), h) = (q.number, numbers ps h)

  route_of_some :
      (o : Option String)
      → (route_or_fallback o ≡ fallback_route → ⊥)
      → o ≡ some (route_or_fallback o)
  route_of_some none n = absurd (n refl)
  route_of_some (some r) n = refl

  -- What a result that selects a route satisfies.
  abbrev pub IsAccepted : ChoiceResult F → List (String × String) → AcceptancePolicy F → Type 0
  IsAccepted r routes policy =
      (pre : List (CriterionProbability F)) × (p : CriterionProbability F) × (post : List
        (CriterionProbability F))
      × (r.probabilities ≡ pre ++ (p ∷ post))
      × (p.criterion_id ≡ r.selected)
      × Below p.probability pre
      × Below p.probability post
      × (ops.lt p.probability policy.min_selected_probability ≡ false)
      × (ops.lt r.confidence policy.min_confidence ≡ false)
      × (ops.lt policy.max_action_probability r.action_probability ≡ false)
      × (find_route r.selected routes ≡ some (accepted_route r routes policy))

  checks :
      (s : Scan F) (r : ChoiceResult F) (policy : AcceptancePolicy F)
      → is_refused s r policy ≡ false
      → (s.count ≡ 1)
        × (ops.eq s.selected s.best ≡ true)
        × (ops.lt s.selected policy.min_selected_probability ≡ false)
        × (ops.lt r.confidence policy.min_confidence ≡ false)
        × (ops.lt policy.max_action_probability r.action_probability ≡ false)
  unfolding is_refused
  checks s r policy e = ground arith

  accepted :
      (r : ChoiceResult F) (routes : List (String × String)) (policy : AcceptancePolicy F)
      → (accepted_route r routes policy ≡ fallback_route → ⊥)
      → (is_refused (scan r.selected scan_start r.probabilities) r policy ≡ false)
        × (find_route r.selected routes ≡ some (accepted_route r routes policy))
  unfolding accepted_route
  accepted r routes policy n =
      elim (Bool-cases (is_refused (scan r.selected scan_start r.probabilities) r policy)) [
        | inl t ↦ absurd (n (rw t refl))
        | inr t ↦ (t, rw t (route_of_some (find_route r.selected routes) (λ e. n (rw t e))))
      ]

  -- The level that the scan ends at is that of the chosen entry.
  at_level :
      (r : ChoiceResult F) (pre : List (CriterionProbability F)) (p : CriterionProbability F)
      (post : List (CriterionProbability F)) (s : Scan F)
      → r.probabilities ≡ pre ++ (p ∷ post)
      → s.selected ≡ p.probability
      → ops.is_nan s.best ≡ false
      → AreNumbers r.probabilities
      → ops.eq s.selected s.best ≡ true
      → ranked.rank s.best ≡ level p
  at_level r pre p post s e x m ns t =
      let (_, (k, _)) =
        All-append (λ (q : CriterionProbability F). ops.is_nan q.probability ≡ false) pre (p ∷ post)
          (subst AreNumbers e ns) in
      same (ranked.rank s.best) (level p)
        (sym (ranked.eq-rank p.probability s.best k m) ∙ (rw x at t))
    where
      same : (a b : ℕ) → (b == a) ≡ true → a ≡ b
      same a b e = ground arith

  -- Of a valid result, whose floats that are not NaN stand in an order: where a route other than the
  -- fallback is accepted, it is that of the selected criterion, whose probability is strictly above that
  -- of each other criterion and at least the policy's minimum, and the confidence and the probability of
  -- the action are within the policy.
  pub accepted_route-strict :
      (r : ChoiceResult F) (routes : List (String × String)) (policy : AcceptancePolicy F)
      → validate_choice_result r ≡ ok tt
      → (accepted_route r routes policy ≡ fallback_route → ⊥)
      → IsAccepted r routes policy
  accepted_route-strict r routes policy v n =
      let valid : IsChoiceResult r = elim (validate_choice_result-Decides r) [
        | inl (h, _) ↦ h
        | inr (_, g) ↦ cc
      ] in
      let s = scan r.selected scan_start r.probabilities in
      let (t, f) = accepted r routes policy n in
      let (c, q, a, b, d) = checks s r policy t in
      let ns = numbers r.probabilities valid.criteria.0 in
      let (m, _, below, count) =
        scan_lem r.selected scan_start r.probabilities ranked.minus_one-number ns in
      let (pre, p, post, e, id, x) =
        scan-Chosen_of_Has r.selected scan_start r.probabilities valid.among in
      let l = at_level r pre p post s e x m ns q in
      let (u, w) =
        unique pre p post (subst AreNumbers e ns)
          (subst (λ k. AtMost k (pre ++ (p ∷ post))) l
            (subst (AtMost (ranked.rank s.best)) e below))
          (subst (λ k. tops k (pre ++ (p ∷ post)) ≡ 1) l
            (subst (λ ps. tops (ranked.rank s.best) ps ≡ 1) e (once _ _ _ count c))) in
      (pre, p, post, e, id, u, w, rw x at a, b, d, f)
    where
      once : (t c : ℕ) (b : Bool) → c ≡ t + (if b then 0 else 0) → c ≡ 1 → t ≡ 1
      once t c b e f = ground arith
