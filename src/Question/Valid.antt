-- ===== src/Question/Valid.antt =====
-- Validation accepts exactly the well-formed questions, and refuses the others with an invalid
-- request; it never reads a nil pointer.
use laya_go.Prelude.{
  ◌≤◌, ◌≡◌, ◌≢◌, ◌↔◌, ◌⊎◌, inl, inr, refl, sym, String, str_eq, eq_iff, Bool, true, false,
  Bool-cases, none, some, List, [], ◌∷◌, map, length, All, Has, Fresh, Distinct, arith,
}
use laya_go.Errors.{ok, err, Decides}
use laya_go.Question.{
  ChoiceCriterion, ChoiceQuestion, ScoreLevel, ScoreQuestion, Question, choice, choice_pointer,
  score, score_pointer, noul, noul_pointer, unsupported, bad_request, seen_before,
  validate_question_header, validate_entries, validate_choice, validate_score, validate_noul,
  validate_question, question_id, validate_each, validate_questions, new_choice_question,
}

-- A test together with what it decides.
abbrev pub Tests {ℓ} : Type ℓ → Bool → Type ℓ
Tests P b = (P × (b ≡ true)) ⊎ ((P → ⊥) × (b ≡ false))

pub str_eq-Tests : (s t : String) → Tests (s ≡ t) (str_eq s t)
str_eq-Tests s t = elim (Bool-cases (str_eq s t)) [
  | inl e ↦ inl ((eq_iff s t).0 e, e)
  | inr e ↦ inr (λ p. cc ((eq_iff s t).1 p), e)
]

pub seen_before-Fresh :
    (seen : List String) (k : String)
    → ((Fresh k seen) × (seen_before seen k ≡ false))
      ⊎ ((Fresh k seen → ⊥) × (seen_before seen k ≡ true))
unfolding seen_before
seen_before-Fresh [] k = inl (tt, refl)
seen_before-Fresh (j ∷ seen) k = ground (arith, str_eq-Tests j k, seen_before-Fresh seen k)

pub seen_before-Has : (seen : List String) (k : String) → Tests (Has k seen) (seen_before seen k)
unfolding seen_before
seen_before-Has [] k = inr ((λ h. h), refl)
seen_before-Has (j ∷ seen) k = ground (arith, str_eq-Tests j k, seen_before-Has seen k)

-- The keys are new against those seen, and against one another.
abbrev pub Admits : List String → List String → Type 0
Admits seen ks = All (λ k. Fresh k seen) ks × Distinct ks

All-Fresh-uncons :
    (k : String) (seen ks : List String)
    → All (λ j. Fresh j (k ∷ seen)) ks
    → Fresh k ks × All (λ j. Fresh j seen) ks
All-Fresh-uncons k seen [] h = (tt, tt)
All-Fresh-uncons k seen (j ∷ ks) ((ne, f), h) =
    let (a, b) = All-Fresh-uncons k seen ks h in (((λ e. ne (sym e)), a), (f, b))

All-Fresh-cons :
    (k : String) (seen ks : List String)
    → Fresh k ks
    → All (λ j. Fresh j seen) ks
    → All (λ j. Fresh j (k ∷ seen)) ks
All-Fresh-cons k seen [] h a = tt
All-Fresh-cons k seen (j ∷ ks) (ne, h) (f, a) =
    (((λ e. ne (sym e)), f), All-Fresh-cons k seen ks h a)

-- Admission of a key and then of the rest, with the key among those seen.
pub Admits-cons :
    (k : String) (seen ks : List String)
    → (Fresh k seen × Admits (k ∷ seen) ks) ↔ Admits seen (k ∷ ks)
Admits-cons k seen ks = (
  λ (f, (a, d)). let (n, b) = All-Fresh-uncons k seen ks a in ((f, b), (n, d)),
  λ ((f, b), (n, d)). (f, (All-Fresh-cons k seen ks n b, d)),
)

module _ {A : Type 0} (key describe : A → String) where
  abbrev pub IsEntry : A → Type 0
  IsEntry x = (key x ≢ "") × (describe x ≢ "")

  abbrev pub AreEntries : List String → List A → Type 0
  AreEntries seen xs = All IsEntry xs × Admits seen (map key xs)

  pub validate_entries-Decides :
      (seen : List String) (xs : List A)
      → Decides (AreEntries seen xs) (validate_entries key describe seen xs) bad_request
  unfolding validate_entries
  validate_entries-Decides seen [] = inl ((tt, (tt, tt)), refl)
  validate_entries-Decides seen (x ∷ xs) = ground (
    arith,
    str_eq-Tests (key x) "",
    str_eq-Tests (describe x) "",
    seen_before-Fresh seen (key x),
    Admits-cons (key x) seen (map key xs),
    validate_entries-Decides (key x ∷ seen) xs,
  )

abbrev pub HasHeader : String → String → Type 0
HasHeader id instructions = (id ≢ "") × (instructions ≢ "")

pub validate_question_header-Decides :
    (id instructions : String)
    → Decides (HasHeader id instructions) (validate_question_header id instructions) bad_request
unfolding validate_question_header
validate_question_header-Decides id instructions =
    ground (arith, str_eq-Tests id "", str_eq-Tests instructions "")

-- At least two criteria, each with an ID and a description, and no ID twice.
pub record IsChoice (q : ChoiceQuestion) : Type 0 where
  pub header : HasHeader q.id q.instructions
  pub two : 2 ≤ length q.criteria
  pub entries : AreEntries (λ (c : ChoiceCriterion). c.id) (λ c. c.description) [] q.criteria

pub record IsScore (q : ScoreQuestion) : Type 0 where
  pub header : HasHeader q.id q.instructions
  pub two : 2 ≤ length q.rubric
  pub entries : AreEntries (λ (l : ScoreLevel). l.label) (λ l. l.description) [] q.rubric

pub validate_choice-Decides :
    (q : ChoiceQuestion) → Decides (IsChoice q) (validate_choice q) bad_request
unfolding validate_choice
validate_choice-Decides q = ground (
  arith,
  validate_question_header-Decides q.id q.instructions,
  validate_entries-Decides (λ (c : ChoiceCriterion). c.id) (λ c. c.description) [] q.criteria,
)

pub validate_score-Decides :
    (q : ScoreQuestion) → Decides (IsScore q) (validate_score q) bad_request
unfolding validate_score
validate_score-Decides q = ground (
  arith,
  validate_question_header-Decides q.id q.instructions,
  validate_entries-Decides (λ (l : ScoreLevel). l.label) (λ l. l.description) [] q.rubric,
)

-- A question that is no nil pointer, of one of the three types, and well-formed.
abbrev pub IsQuestion : Question → Type 0
IsQuestion (choice q) = IsChoice q
IsQuestion (choice_pointer (some q)) = IsChoice q
IsQuestion (score q) = IsScore q
IsQuestion (score_pointer (some q)) = IsScore q
IsQuestion (noul q) = HasHeader q.id q.instructions
IsQuestion (noul_pointer (some q)) = HasHeader q.id q.instructions
IsQuestion (choice_pointer none) = ⊥
IsQuestion (score_pointer none) = ⊥
IsQuestion (noul_pointer none) = ⊥
IsQuestion unsupported = ⊥

pub validate_question-Decides :
    (q : Question) → Decides (IsQuestion q) (validate_question q) bad_request
unfolding validate_question validate_noul
validate_question-Decides (choice q) = validate_choice-Decides q
validate_question-Decides (choice_pointer (some q)) = validate_choice-Decides q
validate_question-Decides (score q) = validate_score-Decides q
validate_question-Decides (score_pointer (some q)) = validate_score-Decides q
validate_question-Decides (noul q) = validate_question_header-Decides q.id q.instructions
validate_question-Decides (noul_pointer (some q)) =
    validate_question_header-Decides q.id q.instructions
validate_question-Decides (choice_pointer none) = inr ((λ h. h), refl)
validate_question-Decides (score_pointer none) = inr ((λ h. h), refl)
validate_question-Decides (noul_pointer none) = inr ((λ h. h), refl)
validate_question-Decides unsupported = inr ((λ h. h), refl)

-- The ID that a well-formed question has.
abbrev pub id_of : Question → String
id_of (choice q) = q.id
id_of (choice_pointer (some q)) = q.id
id_of (score q) = q.id
id_of (score_pointer (some q)) = q.id
id_of (noul q) = q.id
id_of (noul_pointer (some q)) = q.id
id_of (choice_pointer none) = ""
id_of (score_pointer none) = ""
id_of (noul_pointer none) = ""
id_of unsupported = ""

pub question_id-IsQuestion : (q : Question) → IsQuestion q → question_id q ≡ ok (id_of q)
unfolding question_id
question_id-IsQuestion (choice q) h = refl
question_id-IsQuestion (choice_pointer (some q)) h = refl
question_id-IsQuestion (score q) h = refl
question_id-IsQuestion (score_pointer (some q)) h = refl
question_id-IsQuestion (noul q) h = refl
question_id-IsQuestion (noul_pointer (some q)) h = refl
question_id-IsQuestion (choice_pointer none) h = absurd h
question_id-IsQuestion (score_pointer none) h = absurd h
question_id-IsQuestion (noul_pointer none) h = absurd h
question_id-IsQuestion unsupported h = absurd h

abbrev AreEach : List String → List Question → Type 0
AreEach seen qs = All IsQuestion qs × Admits seen (map id_of qs)

validate_each-Decides :
    (seen : List String) (qs : List Question)
    → Decides (AreEach seen qs) (validate_each seen qs) bad_request
unfolding validate_each
validate_each-Decides seen [] = inl ((tt, (tt, tt)), refl)
validate_each-Decides seen (q ∷ qs) = elim (validate_question-Decides q) [
  | inl (h, e) ↦
      rw (e, question_id-IsQuestion q h)
        (ground (
          arith,
          h,
          seen_before-Fresh seen (id_of q),
          Admits-cons (id_of q) seen (map id_of qs),
          validate_each-Decides (id_of q ∷ seen) qs,
        ))
  | inr (n, e) ↦ rw e (inr ((λ ((h, _), _). n h), refl))
]

-- A batch: not empty, every question well-formed, and no ID twice.
abbrev pub AreQuestions : List Question → Type 0
AreQuestions qs = (qs ≢ []) × (All IsQuestion qs × Distinct (map id_of qs))

AreEach-nil : (qs : List Question) → AreEach [] qs ↔ (All IsQuestion qs × Distinct (map id_of qs))
AreEach-nil qs = ((λ (a, (_, d)). (a, d)), (λ (a, d). (a, (all_fresh (map id_of qs), d))))
  where
    all_fresh : (ks : List String) → All (λ k. Fresh k []) ks
    all_fresh = elim [ [] ↦ tt | k ∷ (ks → h) ↦ (tt, h) ]

-- `validateQuestions` accepts exactly the batches that are not empty, whose questions are all
-- well-formed and whose IDs are all different. Any other batch is refused as an invalid request,
-- so no nil pointer is ever read.
pub validate_questions-Decides :
    (qs : List Question) → Decides (AreQuestions qs) (validate_questions qs) bad_request
unfolding validate_questions
validate_questions-Decides [] = inr ((λ (h, _). h refl), refl)
validate_questions-Decides (q ∷ qs) = elim (validate_each-Decides [] (q ∷ qs)) [
  | inl (h, e) ↦ inl (((λ e. cc), (AreEach-nil (q ∷ qs)).0 h), e)
  | inr (n, e) ↦ inr ((λ (_, h). n ((AreEach-nil (q ∷ qs)).1 h)), e)
]

-- `NewChoiceQuestion` returns the question that it was given the parts of, exactly if that question
-- is well-formed; otherwise it fails with an invalid request.
pub new_choice_question-Decides :
    (id instructions : String) (criteria : List ChoiceCriterion)
    → let q : ChoiceQuestion = record {
      id = id;
      instructions = instructions;
      criteria = criteria;
    } in
      (IsChoice q × (new_choice_question id instructions criteria ≡ ok q))
      ⊎ ((IsChoice q → ⊥) × (new_choice_question id instructions criteria ≡ err bad_request))
unfolding new_choice_question
new_choice_question-Decides id instructions criteria = elim (validate_choice-Decides q) [
  | inl (h, e) ↦ inl (h, rw e)
  | inr (n, e) ↦ inr (n, rw e)
]
  where
    q : ChoiceQuestion
    q = record { id = id; instructions = instructions; criteria = criteria }
