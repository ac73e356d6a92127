-- ===== src/Adk/Routing/Leads.antt =====
-- Where the edges of a routing lead, and which route a criterion has.
use Prim.Native.String.{◌++◌ as str_append}
use Prim.Native.String.append
use Prim.Native.Char.{code}
use laya_go.Prelude.{
  ℕ, zero, suc, ◌≤◌, ◌≡◌, inl, inr, refl, sym, subst, ap, ◌∙◌, String, str_eq, eq_iff, false, ◌||◌,
  Bool-cases, Option, none, some, List, [], ◌∷◌, ◌++◌, All, length, ◌==◌, if◌then◌else◌, arith,
}
use laya_go.Prelude.Float.{FloatOps}
use laya_go.Errors.{ok, refuse, ok_injective}
use laya_go.Options.{bad_config}
use laya_go.Question.{ChoiceCriterion, seen_before, new_choice_question}
use laya_go.Question.Valid.{str_eq-Tests}
use laya_go.Output.Matching.{bind-eq-ok}
use laya_go.Preprocess.Text.{decimal}
use laya_go.Preprocess.Decimal.{read_from, read_from-decimal}
use laya_go.Adk.Nodes.{validate_node_options}
use laya_go.Adk.Accepted.{fallback_route, validate_policy, find_route}
use laya_go.Adk.Routing.{
  Node, branch_route, Branch, Edge, Plan, not_nil, add_route, is_found, is_target, add_criteria,
  validate_target, add_branches, Config, ChoiceRouting, start, new_choice_routing,
}

-- The targets of the edges on a route.
unfoldable pub targets_of : String → List Edge → List Node
targets_of r [] = []
targets_of r (e ∷ es) =
    let rest = targets_of r es in if seen_before e.routes r then e.target ∷ rest else rest

abbrev behind : String → String
behind String.[] = String.[]
behind (String.◌∷◌ c s) = s

cancel : (s a b : String) → str_append s a ≡ str_append s b → a ≡ b
cancel String.[] a b e = sym (append.nil a) ∙ e ∙ append.nil b
cancel (String.◌∷◌ c s) a b e =
    cancel s a b (ap behind (sym (append.cons c s a) ∙ e ∙ append.cons c s b))

branch_route_injective : (i j : ℕ) → branch_route i ≡ branch_route j → i ≡ j
unfolding branch_route
branch_route_injective i j e =
    sym (read_from-decimal i)
    ∙ ap (read_from 0) (cancel "laya.branch." (decimal i) (decimal j) e)
    ∙ read_from-decimal j

abbrev code_at : ℕ → String → ℕ
code_at n String.[] = 0
code_at zero (String.◌∷◌ c s) = code c
code_at (suc n) (String.◌∷◌ c s) = code_at n s

code_at-append :
    (n : ℕ) (s t : String) → (code_at n s ≡ 0 → ⊥) → code_at n (str_append s t) ≡ code_at n s
code_at-append n String.[] t h = absurd (h refl)
code_at-append zero (String.◌∷◌ c s) t h = ap (code_at zero) (append.cons c s t)
code_at-append (suc n) (String.◌∷◌ c s) t h =
    ap (code_at (suc n)) (append.cons c s t) ∙ code_at-append n s t h

branch_route_fallback : (i : ℕ) → branch_route i ≡ fallback_route → ⊥
unfolding branch_route
branch_route_fallback i e =
    let h = code_at-append 5 "laya.branch." (decimal i) (omega arith) in
    let g = ap (code_at 5) e in omega arith

seen_before-append :
    (rs : List String) (x r : String)
    → seen_before (rs ++ (x ∷ [])) r ≡ (seen_before rs r || str_eq x r)
unfolding seen_before
seen_before-append [] x r = ground arith
seen_before-append (s ∷ rs) x r = ground (arith, seen_before-append rs x r)

targets_of-append :
    (r : String) (es fs : List Edge) → targets_of r (es ++ fs) ≡ targets_of r es ++ targets_of r fs
unfolding targets_of
targets_of-append r [] fs = refl
targets_of-append r (e ∷ es) fs = ground (arith, targets_of-append r es fs)

-- Another route is as before.
targets_of-add_route_other :
    (t : Node) (x r : String) (es : List Edge)
    → str_eq x r ≡ false
    → targets_of r (add_route t x es) ≡ targets_of r es
unfolding targets_of add_route seen_before
targets_of-add_route_other t x r [] h = rw h refl
targets_of-add_route_other t x r (e ∷ es) h = elim (Bool-cases (e.target == t)) [
  | inl k ↦ rw (k, seen_before-append e.routes x r) (ground arith)
  | inr k ↦ rw (k, targets_of-add_route_other t x r es h) refl
]

-- A new route leads to its target only.
targets_of-add_route :
    (t : Node) (r : String) (es : List Edge)
    → targets_of r es ≡ []
    → targets_of r (add_route t r es) ≡ t ∷ []
unfolding targets_of add_route seen_before
targets_of-add_route t r [] h = ground (arith, eq_iff r r)
targets_of-add_route t r (e ∷ es) h = elim (Bool-cases (seen_before e.routes r)) [
  | inl k ↦ let g = rw k at h in cc
  | inr k ↦ elim (Bool-cases (e.target == t)) [
    | inl l ↦ rw (l, seen_before-append e.routes r r) (ground (arith, eq_iff r r))
    | inr l ↦ rw (l, k) (targets_of-add_route t r es (rw k at h))
  ]
]

find_route-append :
    (c : String) (routes : List (String × String)) (d r : String)
    → find_route c (routes ++ ((d, r) ∷ [])) ≡ (elim (find_route c routes) [
      | some x ↦ some x
      | none ↦ if str_eq d c then some r else none
    ])
unfolding find_route
find_route-append c [] d r = refl
find_route-append c ((j, x) ∷ routes) d r = elim (Bool-cases (str_eq j c)) [
  | inl t ↦ rw t refl
  | inr t ↦ rw (t, find_route-append c routes d r) refl
]

-- What the loop over criteria does: the edges stay, a route that is there stays, and each criterion
-- gets the branch's.
add_criteria-lem :
    (route : String) (cs : List ChoiceCriterion) (p q : Plan)
    → add_criteria route cs p ≡ ok q
    → (q.edges ≡ p.edges)
      × ((c r : String) → find_route c p.routes ≡ some r → find_route c q.routes ≡ some r)
      × All (λ (c : ChoiceCriterion). find_route c.id q.routes ≡ some route) cs
unfolding add_criteria
add_criteria-lem route [] p q e = (
  ap (λ (x : Plan). x.edges) (sym (ok_injective e)),
  (λ c r h. subst (λ (x : Plan). find_route c x.routes ≡ some r) (ok_injective e) h),
  tt,
)
add_criteria-lem route (c ∷ cs) p q e =
    let (_, n, f) = bind-eq-ok (refuse (is_found (find_route c.id p.routes)) bad_config) _ e in
    let (g, k, a) = add_criteria-lem route cs _ q f in
    let new = fresh (find_route c.id p.routes) n in
    (
      g,
      (λ d r h. k d r (find_route-append d p.routes c.id route ∙ rw h refl)),
      (
        k c.id route
            (find_route-append c.id p.routes c.id route ∙ rw (new, (eq_iff c.id c.id).1 refl) refl),
        a,
      ),
    )
  where
    fresh : (o : Option String) {u : Unit {0}} → refuse (is_found o) bad_config ≡ ok u → o ≡ none
    fresh none h = refl
    fresh (some x) h = cc

-- Each branch from `i` on has a target; its route leads to that target only, and is the route of each
-- of its criteria.
abbrev pub AreLed : ℕ → List Branch → List Edge → List (String × String) → Type 0
AreLed i [] edges routes = Unit
AreLed i (b ∷ bs) edges routes =
    ((t : Node) × (b.target ≡ some t)
      × (targets_of (branch_route i) edges ≡ t ∷ [])
      × All (λ (c : ChoiceCriterion). find_route c.id routes ≡ some (branch_route i)) b.criteria)
    × AreLed (suc i) bs edges routes

not_nil-ok : {A : Type 0} (o : Option A) {a : A} → not_nil o ≡ ok a → o ≡ some a
not_nil-ok none e = cc
not_nil-ok (some b) e = ap some (ok_injective e)

differ : (x y : String) → (x ≡ y → ⊥) → str_eq x y ≡ false
differ x y n = elim (str_eq-Tests x y) [ inl (e, _) ↦ absurd (n e) | inr (_, e) ↦ e ]

found_later :
    (route : String) (cs : List ChoiceCriterion) (rs qs : List (String × String))
    → ((c r : String) → find_route c rs ≡ some r → find_route c qs ≡ some r)
    → All (λ (c : ChoiceCriterion). find_route c.id rs ≡ some route) cs
    → All (λ (c : ChoiceCriterion). find_route c.id qs ≡ some route) cs
found_later route [] rs qs m h = tt
found_later route (c ∷ cs) rs qs m (h, hs) = (m c.id route h, found_later route cs rs qs m hs)

add_branches-lem :
    (trim_space : String → String) (name_of : Node → String) (i : ℕ) (bs : List Branch) (p q : Plan)
    → add_branches trim_space name_of i bs p ≡ ok q
    → ((j : ℕ) → i ≤ j → targets_of (branch_route j) p.edges ≡ [])
    → ((x : String)
        → ((j : ℕ) → i ≤ j → branch_route j ≡ x → ⊥)
        → targets_of x q.edges ≡ targets_of x p.edges)
      × ((c r : String) → find_route c p.routes ≡ some r → find_route c q.routes ≡ some r)
      × AreLed i bs q.edges q.routes
unfolding add_branches
add_branches-lem trim_space name_of i [] p q e fresh =
    subst
      (λ (q : Plan).
        ((x : String)
          → ((j : ℕ) → i ≤ j → branch_route j ≡ x → ⊥)
          → targets_of x q.edges ≡ targets_of x p.edges)
        × ((c r : String) → find_route c p.routes ≡ some r → find_route c q.routes ≡ some r)
        × Unit {0})
      (ok_injective e) ((λ x n. refl), (λ c r h. h), tt)
add_branches-lem trim_space name_of i (b ∷ bs) p q e fresh =
    let (t, tn, e₁) = bind-eq-ok (not_nil b.target) _ e in
    let (_, _, e₂) = bind-eq-ok (refuse (length b.criteria == 0) bad_config) _ e₁ in
    let (names, _, e₃) = bind-eq-ok (validate_target trim_space name_of t p.names) _ e₂ in
    let (added, ad, e₄) = bind-eq-ok (add_criteria (branch_route i) b.criteria _) _ e₃ in
    let (same, more, all) = add_criteria-lem (branch_route i) b.criteria _ added ad in
    let others : (x : String)
        → (branch_route i ≡ x → ⊥)
        → targets_of x added.edges ≡ targets_of x p.edges =
      λ x n.
        ap (targets_of x) same
        ∙ targets_of-add_route_other t (branch_route i) x p.edges (differ _ _ n) in
    let (a, m, l) = add_branches-lem trim_space name_of (suc i) bs added q e₄ (λ j h.
      others (branch_route j) (λ d. later i j h (branch_route_injective i j d))
      ∙ fresh j (omega arith)) in
    (
      (λ x n. a x (λ j h. n j (omega arith)) ∙ others x (n i (omega arith))),
      (λ c r h. m c r (more c r h)),
      (
        (
          t,
          not_nil-ok b.target tn,
          a (branch_route i) (λ j h d. later i j h (branch_route_injective i j (sym d)))
              ∙ ap (targets_of (branch_route i)) same
              ∙ targets_of-add_route t (branch_route i) p.edges (fresh i (omega arith)),
          found_later (branch_route i) b.criteria added.routes q.routes m all,
        ),
        l,
      ),
    )
  where
    later : (i j : ℕ) → suc i ≤ j → i ≡ j → ⊥
    later i j h d = omega arith

-- The edge of the fallback changes nothing for a branch.
AreLed-fallback :
    (i : ℕ) (bs : List Branch) (es : List Edge) (routes : List (String × String)) (t : Node)
    → AreLed i bs es routes
    → AreLed i bs (es ++ (record { target = t; routes = fallback_route ∷ [] } ∷ [])) routes
unfolding targets_of seen_before
AreLed-fallback i [] es routes t h = tt
AreLed-fallback i (b ∷ bs) es routes t ((u, a, l, c), h) =
    let d = differ fallback_route (branch_route i) (λ e. branch_route_fallback i (sym e)) in
    (
      (u, a, targets_of-append (branch_route i) es _ ∙ rw (l, d) refl, c),
      AreLed-fallback (suc i) bs es routes t h,
    )

none_yet : (x : String) → targets_of x [] ≡ []
unfolding targets_of
none_yet x = refl

alone :
    (es : List Edge) (t : Node)
    → targets_of fallback_route es ≡ []
    → targets_of fallback_route (es ++ (record { target = t; routes = fallback_route ∷ [] } ∷ []))
      ≡ t ∷ []
unfolding targets_of seen_before
alone es t h = targets_of-append fallback_route es _ ∙ rw h refl

-- A routing that is made has edges that decide: the route of each branch leads to the branch's target
-- and to no other, and the fallback's route to the fallback alone; and the table gives each criterion
-- the route of its branch.
pub new_choice_routing-leads :
    (trim_space : String → String) (name_of : Node → String) {F In : Type 0} ⦃ops : FloatOps F⦄
    (cfg : Config F In) (r : ChoiceRouting F In)
    → new_choice_routing trim_space name_of cfg ≡ ok r
    → AreLed 0 cfg.branches r.edges r.routes
      × ((t : Node) × (cfg.fallback ≡ some t) × (targets_of fallback_route r.edges ≡ t ∷ []))
unfolding new_choice_routing
new_choice_routing-leads trim_space name_of {F} {In} cfg r e =
    let (_, _, e₁) = bind-eq-ok (validate_node_options trim_space cfg.name) _ e in
    let (_, _, e₂) = bind-eq-ok (not_nil cfg.project_state) _ e₁ in
    let (policy, _, e₃) = bind-eq-ok (not_nil cfg.policy) _ e₂ in
    let (_, _, e₄) = bind-eq-ok (validate_policy policy) _ e₃ in
    let (t, f, e₅) = bind-eq-ok (not_nil cfg.fallback) _ e₄ in
    let (_, _, e₆) = bind-eq-ok (refuse (length cfg.branches == 0) bad_config) _ e₅ in
    let (plan, b, e₇) = bind-eq-ok (add_branches trim_space name_of 0 cfg.branches start) _ e₆ in
    let (_, _, e₈) = bind-eq-ok (refuse (is_target t plan.edges) bad_config) _ e₇ in
    let (_, _, e₉) = bind-eq-ok (validate_target trim_space name_of t plan.names) _ e₈ in
    let (_, _, d) =
      bind-eq-ok (new_choice_question cfg.question_id cfg.instructions plan.criteria) _ e₉ in
    let (a, _, l) =
      add_branches-lem trim_space name_of 0 cfg.branches start plan b
        (λ j h. none_yet (branch_route j)) in
    subst
      (λ (r : ChoiceRouting F In).
        AreLed 0 cfg.branches r.edges r.routes
        × ((t : Node) × (cfg.fallback ≡ some t) × (targets_of fallback_route r.edges ≡ t ∷ [])))
      (ok_injective d)
      (
        AreLed-fallback 0 cfg.branches plan.edges plan.routes t l,
        (
          t,
          not_nil-ok cfg.fallback f,
          alone plan.edges t
              (a fallback_route (λ j h. branch_route_fallback j) ∙ none_yet fallback_route),
        ),
      )
