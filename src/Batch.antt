-- ===== src/Batch.antt =====
-- preprocess.go: `prepareInferenceBatch` and `collatePrepared`.
pub mod Collated
pub mod Prepared
use laya_go.Prelude.{
  ℕ, zero, suc, ◌+◌, ◌≡◌, String, Bool, true, false, ◌&&◌, ◌||◌, not, Option, none, some, List, [],
  ◌∷◌, map, length, replicate, ltb, max, if◌then◌else◌,
}
use laya_go.Prelude.Int.{ℤ, pos, pos_part, ltb_ℤ}
use laya_go.Errors.{Error, sentinel, native_unavailable, Outcome, ok, err, ◌>>=◌, ◌>>◌, refuse}
use laya_go.Question.{Question, validate_questions}
use laya_go.State.{State, validate_state, model_state_text}
use laya_go.Options.{ModelOptions, validate_options, bad_config}
use laya_go.Prediction.{Usage, TruncationMetadata}
use laya_go.Preprocess.{
  Manifest, Tokenizer, PreparedQuestion, PreparedItem, normalize_question, prepare_item,
}

-- The counts are sums of lengths, so they are not negative.
pub record PreparedBatch : Type 0 where
  pub input_ids : List (List ℕ)
  pub attention_mask : List (List ℕ)
  pub marker_pos : List (List ℕ)
  pub marker_mask : List (List Bool)
  pub qtype : List ℕ
  pub items : List PreparedItem
  pub usage : Usage
  pub truncation : TruncationMetadata

module _ {A : Type 0} where
  -- The builtin `copy`: as many elements as both slices have.
  unfoldable pub copy : List A → List A → List A
  copy [] src = []
  copy (d ∷ dst) [] = d ∷ dst
  copy (d ∷ dst) (s ∷ src) = s ∷ copy dst src

  -- `make` with a filler, then `copy`; the masks are set by a loop over the positions of `src`.
  unfoldable pub padded : ℕ → A → List A → List A
  unfolding copy
  padded n filler src = copy (replicate n filler) src

  -- The longest of the lists that the items have.
  unfoldable pub longest {κ} : {B : Type κ} → (B → List A) → ℕ → List B → ℕ
  longest f n [] = n
  longest f n (x ∷ xs) = longest f (max n (length (f x))) xs

abbrev pub sequence_length : List PreparedItem → ℕ
sequence_length items = longest (λ (i : PreparedItem). i.input_ids) 0 items

abbrev pub marker_length : List PreparedItem → ℕ
marker_length items = longest (λ (i : PreparedItem). i.marker_positions) 0 items

-- The counts that the loop over the items adds up.
pub record Totals : Type 0 where
  pub effective : ℕ
  pub original : ℕ
  pub truncated : Bool

unfoldable pub add_totals : Totals → List PreparedItem → Totals
add_totals t [] = t
add_totals t (i ∷ is) =
    add_totals
      (record {
        effective = t.effective + length i.input_ids;
        original = t.original + i.original_tokens;
        truncated = t.truncated || i.truncated;
      })
      is

abbrev pub totals : List PreparedItem → Totals
totals items = add_totals (record { effective = 0; original = 0; truncated = false }) items

unfoldable pub collate_prepared : List PreparedItem → ℕ → PreparedBatch
unfolding padded longest add_totals
collate_prepared items pad = record {
  input_ids = map (λ i. padded (sequence_length items) pad i.input_ids) items;
  attention_mask = map (λ i. padded (sequence_length items) 0 (map (λ _. 1) i.input_ids)) items;
  marker_pos = map (λ i. padded (marker_length items) 0 i.marker_positions) items;
  marker_mask =
      map (λ i. padded (marker_length items) false (map (λ _. true) i.marker_positions)) items;
  qtype = map (λ i. i.question.qtype) items;
  items = items;
  usage = record { input_tokens = pos (totals items).effective; output_tokens = pos 0 };
  truncation = record {
    truncated = (totals items).truncated;
    original_input_tokens = pos (totals items).original;
    effective_input_tokens = pos (totals items).effective;
  };
}

-- The lower of the manifest's limit and the option, if the option is set.
unfoldable pub effective_limit : ModelOptions → Manifest → ℕ
effective_limit o m =
    if ltb_ℤ (pos 0) o.input_token_limit && ltb_ℤ o.input_token_limit (pos m.max_len)
    then pos_part o.input_token_limit
    else m.max_len

-- The loop over the questions.
unfoldable pub prepare_items :
    String → Manifest → Tokenizer → ℕ → ModelOptions → List Question → Outcome (List PreparedItem)
prepare_items text m tokenizer limit o [] = ok []
prepare_items text m tokenizer limit o (q ∷ qs) = do
  prepared ← normalize_question q m
  item ← prepare_item text prepared m tokenizer limit o.truncation
  rest ← prepare_items text m tokenizer limit o qs
  ok (item ∷ rest)

-- `none` is a nil tokenizer.
unfoldable pub require : Option Tokenizer → Outcome Tokenizer
require none = err (sentinel native_unavailable)
require (some t) = ok t

unfoldable pub prepare_inference_batch :
    (String → Bool)
    → State
    → List Question
    → Manifest
    → Option Tokenizer
    → ModelOptions
    → Outcome PreparedBatch
unfolding require
prepare_inference_batch json_valid state questions m tokenizer o = do
  validate_state json_valid state
  validate_questions questions
  encoder ← require tokenizer
  validate_options o
  refuse (not (ltb 0 (effective_limit o m))) bad_config
  text ← model_state_text state
  items ← prepare_items text m encoder (effective_limit o m) o questions
  ok (collate_prepared items m.pad)
