-- ===== src/Tests/Data.antt =====
-- Sample values that the tests share.
use laya_go.Prelude.{ℕ, ◌+◌, ◌-◌, ◌*◌, ◌/◌, min, max, false, List, [], ◌∷◌, ltb, ◌==◌}
use laya_go.Prelude.Int.{pos}
use laya_go.Prelude.Float.{FloatOps}
use laya_go.Errors.{ok}
use laya_go.Question.{Question, ChoiceQuestion, choice, noul}
use laya_go.Options.{ModelOptions, truncate_overflow}
use laya_go.Preprocess.{Manifest, Tokenizer}
use Prim.Native.String.{len}

-- Numbers in units of 1/10000, for a float that the tests can compute with.
instance abbrev pub scaled : FloatOps ℕ
scaled = record {
  is_nan = λ x. false;
  is_inf = λ x. false;
  lt = ltb;
  eq = λ a b. a == b;
  of_ℕ = λ n. n * 10000;
  neg = λ x. 0;
  add = λ a b. a + b;
  sub = λ a b. a - b;
  mul = λ a b. a * b / 10000;
  div = λ a b. a * 10000 / b;
  exp = λ x. x + 10000;
  log = λ x. x;
  round = λ x. x / 10000 * 10000;
  max_float = 1000000000;
  tiny = 0;
  fmin = min;
  fmax = max;
}

abbrev pub options : ModelOptions
options = record {
  queue_capacity = pos 2;
  max_queue_wait = pos 0;
  input_token_limit = pos 24;
  truncation = truncate_overflow;
}

abbrev pub manifest : Manifest
manifest = record {
  max_len = 1024;
  head_max_len = 256;
  option_max_len = 48;
  head_reserve = 16;
  choice_qtype = 0;
  score_qtype = 1;
  noul_qtype = 2;
  cls = 1;
  sep = 2;
  mask = 3;
  pad = 0;
}

-- Two tokens, whatever the text.
abbrev pub tokenizer : Tokenizer
tokenizer text = ok (len text ∷ 7 ∷ [])

abbrev pub route : ChoiceQuestion
route = record {
  id = "route";
  instructions = "Choose.";
  criteria =
      record { id = "accept"; description = "continue" }
      ∷ record { id = "review"; description = "ask" }
      ∷ [];
}

abbrev pub questions : List Question
questions =
    choice route
    ∷ noul (record {
      id = "sure";
      instructions = "Sure?";
      false_description = "";
      true_description = "";
    })
    ∷ []
