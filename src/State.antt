-- ===== src/State.antt =====
-- state.go: the state that the questions are asked about.
-- `json.Valid` and `json.Compact` are those of the standard library: arguments.
use laya_go.Prelude.{String, str_eq, Bool, ◌||◌, not}
use laya_go.Errors.{Error, sentinel, joined, invalid_state, Outcome, ok, err, refuse}

-- A `uint8`; `unknown_kind` is any value but the constants.
pub data StateKind : Type 0 where
  invalid_kind text_kind json_kind unknown_kind : StateKind

-- Bytes of JSON are a `String` here.
pub record State : Type 0 where
  pub kind : StateKind
  pub text : String
  pub json : String

abbrev pub bad_state : Error
bad_state = sentinel invalid_state

unfoldable pub text_state : String → State
text_state t = record { kind = text_kind; text = t; json = "" }

-- `fmt.Errorf` with two `%w` wraps the sentinel and the cause.
unfoldable pub json_state : (String → Outcome String) → String → Outcome State
json_state compact bytes = elim (compact bytes) [
  | ok c ↦ ok (record { kind = json_kind; text = ""; json = c })
  | err e ↦ err (joined bad_state e)
]

unfoldable pub validate_kind : (String → Bool) → StateKind → State → Outcome (Unit {0})
validate_kind valid invalid_kind s = err bad_state
validate_kind valid text_kind s = ok tt
validate_kind valid json_kind s = refuse (str_eq s.json "" || not (valid s.json)) bad_state
validate_kind valid unknown_kind s = err bad_state

unfoldable pub validate_state : (String → Bool) → State → Outcome (Unit {0})
unfolding validate_kind
validate_state valid s = validate_kind valid s.kind s

-- `modelStateText` of preprocess.go.
unfoldable pub text_of_kind : StateKind → State → Outcome String
text_of_kind text_kind s = ok s.text
text_of_kind json_kind s = ok s.json
text_of_kind invalid_kind s = err bad_state
text_of_kind unknown_kind s = err bad_state

unfoldable pub model_state_text : State → Outcome String
unfolding text_of_kind
model_state_text s = text_of_kind s.kind s
