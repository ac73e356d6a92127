-- ===== src/Bundle/Json.antt =====
-- `rejectDuplicateFields` of parse.go, over the tokens that the JSON decoder gives before its first
-- error. A delimiter that closes stands for the one that fits: the decoder fails on any other.
pub mod Value
pub mod Unique
pub mod Shape
pub mod Exact
use laya_go.Prelude.{ℕ, zero, suc, ◌+◌, String, List, [], ◌∷◌, length, ltb}
use laya_go.Errors.{stage_error, foreign, invalid_bundle, Outcome, ok, err, ◌>>=◌, ◌>>◌, refuse}
use laya_go.Question.{seen_before}
use laya_go.Bundle.Text.{byte_length}
use laya_go.Bundle.Rules.{bad_bundle}

pub data Token : Type 0 where
  open_object open_array closing scalar : Token
  text : String → Token

-- Of the errors of Go's library, 3 stands for the decoder's after its last token. The fuel is that
-- of `reject_duplicate_fields`, which does not run out: 4 stands for that case.
unfoldable mutual
  -- `path` is left out: it only shows in the text of an error.
  pub consume_json_value : ℕ → ℕ → List Token → Outcome (List Token)
  consume_json_value zero depth ts = err (foreign 4)
  consume_json_value (suc n) depth [] = do
    refuse (ltb 64 depth) bad_bundle
    err (stage_error invalid_bundle (foreign 3))
  consume_json_value (suc n) depth (text s ∷ ts) = do refuse (ltb 64 depth) bad_bundle; ok ts
  consume_json_value (suc n) depth (scalar ∷ ts) = do refuse (ltb 64 depth) bad_bundle; ok ts
  consume_json_value (suc n) depth (open_object ∷ ts) = do
    refuse (ltb 64 depth) bad_bundle
    consume_fields n depth [] ts
  consume_json_value (suc n) depth (open_array ∷ ts) = do
    refuse (ltb 64 depth) bad_bundle
    consume_elements n depth ts
  consume_json_value (suc n) depth (closing ∷ ts) = do
    refuse (ltb 64 depth) bad_bundle
    err bad_bundle

  -- The loop over an object, and its close.
  pub consume_fields : ℕ → ℕ → List String → List Token → Outcome (List Token)
  consume_fields zero depth seen ts = err (foreign 4)
  consume_fields (suc n) depth seen [] = err (stage_error invalid_bundle (foreign 3))
  consume_fields (suc n) depth seen (closing ∷ ts) = ok ts
  consume_fields (suc n) depth seen (text key ∷ ts) = do
    refuse (ltb 512 (byte_length key)) bad_bundle
    refuse (seen_before seen key) bad_bundle
    rest ← consume_json_value n (suc depth) ts
    consume_fields n depth (key ∷ seen) rest
  consume_fields (suc n) depth seen (scalar ∷ ts) = err bad_bundle
  consume_fields (suc n) depth seen (open_object ∷ ts) = err bad_bundle
  consume_fields (suc n) depth seen (open_array ∷ ts) = err bad_bundle

  -- The loop over an array, and its close.
  pub consume_elements : ℕ → ℕ → List Token → Outcome (List Token)
  consume_elements zero depth ts = err (foreign 4)
  consume_elements (suc n) depth [] = err (stage_error invalid_bundle (foreign 3))
  consume_elements (suc n) depth (closing ∷ ts) = ok ts
  consume_elements (suc n) depth (text s ∷ ts) = do
    rest ← consume_json_value n (suc depth) (text s ∷ ts)
    consume_elements n depth rest
  consume_elements (suc n) depth (scalar ∷ ts) = do
    rest ← consume_json_value n (suc depth) (scalar ∷ ts)
    consume_elements n depth rest
  consume_elements (suc n) depth (open_object ∷ ts) = do
    rest ← consume_json_value n (suc depth) (open_object ∷ ts)
    consume_elements n depth rest
  consume_elements (suc n) depth (open_array ∷ ts) = do
    rest ← consume_json_value n (suc depth) (open_array ∷ ts)
    consume_elements n depth rest

-- 5 stands for the error "additional JSON value".
unfoldable pub require_eof : List Token → Outcome (Unit {0})
require_eof [] = ok tt
require_eof (t ∷ ts) = err (foreign 5)

-- Each call takes a token or returns, so one more step than there are tokens is enough.
unfoldable pub reject_duplicate_fields : List Token → Outcome (Unit {0})
unfolding consume_json_value require_eof
reject_duplicate_fields ts = do rest ← consume_json_value (suc (length ts)) 0 ts; require_eof rest
