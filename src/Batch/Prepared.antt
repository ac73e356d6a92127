-- ===== src/Batch/Prepared.antt =====
-- What `prepareInferenceBatch` returns.
use laya_go.Prelude.{
  ℕ, ◌≡◌, ◌⊎◌, inl, inr, refl, sym, subst, ◌∙◌, String, Bool, Option, none, some, List, [], ◌∷◌,
  All, ltb, not, Bool-cases, str_eq, ◌||◌,
}
use laya_go.Errors.{
  Error, sentinel, native_unavailable, Outcome, ok, err, ok_injective, ◌>>=◌, ◌>>◌, refuse,
}
use laya_go.Question.{
  Question, choice, choice_pointer, score, score_pointer, noul, noul_pointer, unsupported,
  bad_request,
}
use laya_go.Question.Valid.{IsQuestion, AreQuestions, id_of, validate_questions-Decides}
use laya_go.State.{
  State, StateKind, invalid_kind, text_kind, json_kind, unknown_kind, bad_state, validate_state,
  validate_kind, model_state_text, text_of_kind,
}
use laya_go.Options.{
  ModelOptions, TruncationPolicy, validate_options-Decides, validate_options, bad_config,
}
use laya_go.Preprocess.{
  Manifest, Tokenizer, PreparedQuestion, PreparedItem, normalize_question, normalize_choice,
  normalize_score, normalize_noul,
}
use laya_go.Preprocess.Budget.{IsItem, IsItemError, prepare_item-total}
use laya_go.Prediction.Valid.{IsTruncation}
use laya_go.Batch.{
  PreparedBatch, require, collate_prepared, effective_limit, prepare_items, prepare_inference_batch,
}
use laya_go.Batch.Collated.{ItemAgrees, IsItem-Agrees, collate_prepared-IsTruncation}

pub normalize_question-IsQuestion :
    (q : Question) (m : Manifest)
    → IsQuestion q
    → (p : PreparedQuestion) × (normalize_question q m ≡ ok p) × (p.id ≡ id_of q)
unfolding normalize_question normalize_choice normalize_score normalize_noul
normalize_question-IsQuestion (choice q) m h = (normalize_choice q m, refl, refl)
normalize_question-IsQuestion (choice_pointer (some q)) m h = (normalize_choice q m, refl, refl)
normalize_question-IsQuestion (score q) m h = (normalize_score q m, refl, refl)
normalize_question-IsQuestion (score_pointer (some q)) m h = (normalize_score q m, refl, refl)
normalize_question-IsQuestion (noul q) m h = (normalize_noul q m, refl, refl)
normalize_question-IsQuestion (noul_pointer (some q)) m h = (normalize_noul q m, refl, refl)
normalize_question-IsQuestion (choice_pointer none) m h = absurd h
normalize_question-IsQuestion (score_pointer none) m h = absurd h
normalize_question-IsQuestion (noul_pointer none) m h = absurd h
normalize_question-IsQuestion unsupported m h = absurd h

-- An item for each question, in order.
module _ (m : Manifest) (limit : ℕ) (policy : TruncationPolicy) where
  abbrev pub Prepares : Question → PreparedItem → Type 0
  Prepares q i =
      (p : PreparedQuestion) × (normalize_question q m ≡ ok p) × IsItem m limit policy p i

  abbrev pub AreItems : List Question → List PreparedItem → Type 0
  AreItems [] [] = Unit
  AreItems [] (i ∷ is) = ⊥
  AreItems (q ∷ qs) [] = ⊥
  AreItems (q ∷ qs) (i ∷ is) = Prepares q i × AreItems qs is

  pub AreItems-Agrees :
      (qs : List Question) (is : List PreparedItem) → AreItems qs is → All ItemAgrees is
  AreItems-Agrees [] [] h = tt
  AreItems-Agrees [] (i ∷ is) h = absurd h
  AreItems-Agrees (q ∷ qs) [] h = absurd h
  AreItems-Agrees (q ∷ qs) (i ∷ is) ((p, e, h), a) =
      (IsItem-Agrees m limit policy p i h, AreItems-Agrees qs is a)

prepare_items-total :
    (text : String) (m : Manifest) (tokenizer : Tokenizer) (limit : ℕ) (o : ModelOptions)
    (qs : List Question)
    → All IsQuestion qs
    → ((items : List PreparedItem) × (prepare_items text m tokenizer limit o qs ≡ ok items)
        × AreItems m limit o.truncation qs items)
      ⊎ ((e : Error) × (prepare_items text m tokenizer limit o qs ≡ err e) × IsItemError e)
unfolding prepare_items
prepare_items-total text m tokenizer limit o [] h = inl ([], refl, tt)
prepare_items-total text m tokenizer limit o (q ∷ qs) (w, h) =
    let (p, n, _) = normalize_question-IsQuestion q m w in
    elim (prepare_item-total text p m tokenizer limit o.truncation) [
      | inr (x, e, k) ↦ inr (x, rw (n, e), k)
      | inl (i, e, k) ↦ elim (prepare_items-total text m tokenizer limit o qs h) [
        | inr (x, d, f) ↦ inr (x, rw (n, e, d), f)
        | inl (is, d, f) ↦ inl (i ∷ is, rw (n, e, d), ((p, n, k), f))
      ]
    ]

-- A refusal before any question is prepared.
abbrev pub IsBatchError : Error → Type 0
IsBatchError e =
    (e ≡ bad_state)
    ⊎ (e ≡ bad_request)
    ⊎ (e ≡ sentinel native_unavailable)
    ⊎ (e ≡ bad_config)
    ⊎ IsItemError e

-- A batch for these questions: they are well-formed, there is an item for each, in order, within
-- the lower of the two limits, and the batch is their collation.
pub record IsBatch (m : Manifest) (o : ModelOptions) (qs : List Question) (b : PreparedBatch)
    : Type 0 where
  pub valid : AreQuestions qs
  pub items : AreItems m (effective_limit o m) o.truncation qs b.items
  pub collated : b ≡ collate_prepared b.items m.pad
  pub counted : IsTruncation b.truncation

collated-IsBatch :
    (m : Manifest) (o : ModelOptions) (qs : List Question) (is : List PreparedItem)
    → AreQuestions qs
    → AreItems m (effective_limit o m) o.truncation qs is
    → IsBatch m o qs (collate_prepared is m.pad)
unfolding collate_prepared
collated-IsBatch m o qs is v h = record {
  valid = v;
  items = h;
  collated = refl;
  counted =
      collate_prepared-IsTruncation is m.pad
        (AreItems-Agrees m (effective_limit o m) o.truncation qs is h);
}

-- A valid state has a text.
kind_cases :
    (valid : String → Bool) (k : StateKind) (s : State)
    → (validate_kind valid k s ≡ err bad_state)
      ⊎ ((text : String) × (validate_kind valid k s ≡ ok tt) × (text_of_kind k s ≡ ok text))
unfolding validate_kind text_of_kind
kind_cases valid invalid_kind s = inl refl
kind_cases valid text_kind s = inr (s.text, refl, refl)
kind_cases valid json_kind s = elim (Bool-cases (str_eq s.json "" || not (valid s.json))) [
  | inl t ↦ inl (rw t)
  | inr f ↦ inr (s.json, rw f, refl)
]
kind_cases valid unknown_kind s = inl refl

state_cases :
    (valid : String → Bool) (s : State)
    → (validate_state valid s ≡ err bad_state)
      ⊎ ((text : String) × (validate_state valid s ≡ ok tt) × (model_state_text s ≡ ok text))
unfolding validate_state model_state_text
state_cases valid s = kind_cases valid s.kind s

-- `prepareInferenceBatch` returns a batch for the questions that it was given, or fails because
-- the state, the request, the options or the limit are invalid, there is no tokenizer, the
-- tokenizer fails, or the input is too long, and in no other way.
pub prepare_inference_batch-total :
    (json_valid : String → Bool) (state : State) (qs : List Question) (m : Manifest)
    (tokenizer : Option Tokenizer) (o : ModelOptions)
    → ((b : PreparedBatch) × (prepare_inference_batch json_valid state qs m tokenizer o ≡ ok b)
        × IsBatch m o qs b)
      ⊎ ((e : Error) × (prepare_inference_batch json_valid state qs m tokenizer o ≡ err e)
          × IsBatchError e)
unfolding prepare_inference_batch
prepare_inference_batch-total json_valid state qs m tokenizer o =
    elim (state_cases json_valid state) [
      | inl e ↦ inr (bad_state, rw e, inl refl)
      | inr (text, e, t) ↦ elim (validate_questions-Decides qs) [
        | inr (_, d) ↦ inr (bad_request, rw (e, d), inr (inl refl))
        | inl (v, d) ↦ rw (e, d) (encoding text t v tokenizer)
      ]
    ]
  where
    limit : ℕ
    limit = effective_limit o m

    Ends : Outcome PreparedBatch → Type 0
    Ends r =
        ((b : PreparedBatch) × (r ≡ ok b) × IsBatch m o qs b)
        ⊎ ((e : Error) × (r ≡ err e) × IsBatchError e)

    preparing :
        (text : String)
        → AreQuestions qs
        → (encoder : Tokenizer)
        → Ends
            (prepare_items text m encoder limit o qs >>= λ items. ok (collate_prepared items m.pad))
    preparing text v encoder = elim (prepare_items-total text m encoder limit o qs v.1.0) [
      | inl (is, e, a) ↦ inl (collate_prepared is m.pad, rw e, collated-IsBatch m o qs is v a)
      | inr (x, e, k) ↦ inr (x, rw e, inr (inr (inr (inr k))))
    ]

    encoding :
        (text : String)
        → model_state_text state ≡ ok text
        → AreQuestions qs
        → (t : Option Tokenizer)
        → Ends (
            require t >>= λ encoder.
            validate_options o
            >> (refuse (not (ltb 0 limit)) bad_config
                >> (model_state_text state >>= λ text.
                    prepare_items text m encoder limit o qs >>= λ items.
                    ok (collate_prepared items m.pad))))
    encoding text s v none = inr (sentinel native_unavailable, refl, inr (inr (inl refl)))
    encoding text s v (some encoder) = elim (validate_options-Decides o) [
      | inr (_, e) ↦ inr (bad_config, rw e, inr (inr (inr (inl refl))))
      | inl (_, e) ↦ elim (Bool-cases (ltb 0 limit)) [
        | inr z ↦ inr (bad_config, rw (e, z), inr (inr (inr (inl refl))))
        | inl z ↦ rw (e, z, s) (preparing text v encoder)
      ]
    ]

pub prepare_inference_batch-IsBatch :
    (json_valid : String → Bool) (state : State) (qs : List Question) (m : Manifest)
    (tokenizer : Option Tokenizer) (o : ModelOptions) (b : PreparedBatch)
    → prepare_inference_batch json_valid state qs m tokenizer o ≡ ok b
    → IsBatch m o qs b
prepare_inference_batch-IsBatch json_valid state qs m tokenizer o b e =
    elim (prepare_inference_batch-total json_valid state qs m tokenizer o) [
      | inl (c, d, h) ↦ subst (IsBatch m o qs) (ok_injective (sym d ∙ e)) h
      | inr (x, d, k) ↦ cc
    ]
