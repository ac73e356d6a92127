-- ===== src/Native/Opening.antt =====
-- `nativeRuntimeEngine.openVerified` and `nativeOpenFailure` of native_lifecycle.go: a model is
-- opened from three resources, and a failure closes those that are open.
use laya_go.Prelude.{◌≡◌, ◌⊎◌, inl, inr, refl, Bool, true, false, List, [], ◌∷◌, if◌then◌else◌}
use laya_go.Errors.{
  Category, Error, stage_error, matches, native_failure, invalid_state, invalid_bundle,
  invalid_config, unsupported_source, unsupported_bundle, integrity, materialization, canceled,
  deadline_exceeded, source_closed, Outcome, ok, err, Outcome-cases, join_with,
}
use laya_go.Native.Engine.{Resource, session, tokenizer, source, Engine, when_held, held}

unfoldable pub source_error_category : Error → Category
source_error_category e =
    if matches e unsupported_source
    then unsupported_source
    else if matches e unsupported_bundle
    then unsupported_bundle
    else if matches e integrity
    then integrity
    else if matches e materialization
    then materialization
    else if matches e source_closed
    then invalid_state
    else invalid_bundle

-- The loop of `errorCategory` over its list.
unfoldable pub first_category : List Category → Error → Category → Category
first_category [] e fallback = fallback
first_category (c ∷ cs) e fallback = if matches e c then c else first_category cs e fallback

unfoldable pub error_category : Error → Category → Category
unfolding first_category
error_category = first_category (
    canceled ∷ deadline_exceeded ∷ unsupported_source ∷ unsupported_bundle ∷ integrity
    ∷ materialization ∷ invalid_bundle ∷ invalid_config ∷ [])

-- What the steps of an open give, in the order of the code, and what closing a resource gives.
-- The error of a context is one of the categories.
pub record Answers : Type 0 where
  pub read_config : Outcome (Unit {0})
  pub parse_config : Outcome (Unit {0})
  pub ctx_parsed : Outcome (Unit {0})
  pub tokenizer_path : Outcome (Unit {0})
  pub open_tokenizer : Outcome (Unit {0})
  pub ctx_tokenizer : Outcome (Unit {0})
  pub model_path : Outcome (Unit {0})
  pub open_session : Outcome (Unit {0})
  pub ctx_session : Outcome (Unit {0})
  pub canceled_as : Category
  pub closing : Resource → Outcome (Unit {0})

-- The resources that were open at the end of the call, those that it closed, and its result.
pub record Turn : Type 0 where
  pub opened : Engine
  pub closed : List Resource
  pub outcome : Outcome Engine

unfoldable pub close_each : (Resource → Outcome (Unit {0})) → List Resource → Error → Error
close_each closing [] e = e
close_each closing (r ∷ rs) e = close_each closing rs (join_with e (closing r))

abbrev with_source : Engine
with_source = record {
  has_session = false;
  has_tokenizer = false;
  has_source = true;
  closed = false;
}

-- The resources that `nativeOpenFailure` is handed, those that are not nil, in its order.
abbrev handed : Bool → Bool → Bool → List Resource
handed s t r = when_held s session (when_held t tokenizer (when_held r source []))

-- `nativeOpenFailure` closes what it is handed. `e` is what is open when it is called.
unfoldable pub native_open_failure : Answers → Category → Error → Bool → Bool → Bool → Engine → Turn
unfolding close_each
native_open_failure a category cause s t r e = record {
  opened = e;
  closed = handed s t r;
  outcome = err (stage_error category (close_each a.closing (handed s t r) cause));
}

-- Opening the session, with the tokenizer open.
unfoldable pub open_session_in : Answers → Engine → Turn
unfolding native_open_failure source_error_category
open_session_in a e = elim a.ctx_tokenizer [
  | err x ↦ native_open_failure a a.canceled_as x false true true e
  | ok _ ↦ elim a.model_path [
    | err x ↦ native_open_failure a (source_error_category x) x false true true e
    | ok _ ↦ elim a.open_session [
      | err x ↦ native_open_failure a native_failure x false true true e
      | ok _ ↦ elim a.ctx_session [
        | err x ↦
            native_open_failure a a.canceled_as x true true true (record e { has_session = true })
        | ok _ ↦ record {
          opened = record e { has_session = true };
          closed = [];
          outcome = ok (record e { has_session = true });
        }
      ]
    ]
  ]
]

-- Opening the tokenizer, with the configuration read.
unfoldable pub open_tokenizer_in : Answers → Engine → Turn
unfolding open_session_in
open_tokenizer_in a e = elim a.ctx_parsed [
  | err x ↦ native_open_failure a a.canceled_as x false false true e
  | ok _ ↦ elim a.tokenizer_path [
    | err x ↦ native_open_failure a (source_error_category x) x false false true e
    | ok _ ↦ elim a.open_tokenizer [
      | err x ↦ native_open_failure a native_failure x false false true e
      | ok _ ↦ open_session_in a (record e { has_tokenizer = true })
    ]
  ]
]

-- `openVerified` of a source that is not nil.
unfoldable pub open_verified : Answers → Turn
unfolding open_tokenizer_in error_category
open_verified a = elim a.read_config [
  | err x ↦ native_open_failure a (source_error_category x) x false false true with_source
  | ok _ ↦ elim a.parse_config [
    | err x ↦ native_open_failure a (error_category x invalid_bundle) x false false true with_source
    | ok _ ↦ open_tokenizer_in a with_source
  ]
]

-- How a turn ends: all three resources are open and none was closed, or the call failed and closed
-- exactly the resources that were open.
abbrev pub NoLeak : Turn → Type 0
NoLeak t =
    ((t.outcome ≡ ok t.opened)
      × (t.closed ≡ [])
      × (held t.opened ≡ session ∷ tokenizer ∷ source ∷ []))
    ⊎ ((x : Error) × (t.outcome ≡ err x) × (t.closed ≡ held t.opened))

open_session_in-NoLeak :
    (a : Answers) → NoLeak (open_session_in a (record with_source { has_tokenizer = true }))
unfolding open_session_in native_open_failure
open_session_in-NoLeak a = elim (Outcome-cases a.ctx_tokenizer) [
  | inr (x, e) ↦ rw (e, open_session_in) (inr (_, refl, refl))
  | inl (_, e) ↦ elim (Outcome-cases a.model_path) [
    | inr (x, f) ↦ rw (e, f) (inr (_, refl, refl))
    | inl (_, f) ↦ elim (Outcome-cases a.open_session) [
      | inr (x, g) ↦ rw (e, f, g) (inr (_, refl, refl))
      | inl (_, g) ↦ elim (Outcome-cases a.ctx_session) [
        | inr (x, h) ↦ rw (e, f, g, h) (inr (_, refl, refl))
        | inl (_, h) ↦ rw (e, f, g, h) (inl (refl, refl, refl))
      ]
    ]
  ]
]

open_tokenizer_in-NoLeak : (a : Answers) → NoLeak (open_tokenizer_in a with_source)
unfolding open_tokenizer_in native_open_failure
open_tokenizer_in-NoLeak a = elim (Outcome-cases a.ctx_parsed) [
  | inr (x, e) ↦ rw (e, open_tokenizer_in) (inr (_, refl, refl))
  | inl (_, e) ↦ elim (Outcome-cases a.tokenizer_path) [
    | inr (x, f) ↦ rw (e, f) (inr (_, refl, refl))
    | inl (_, f) ↦ elim (Outcome-cases a.open_tokenizer) [
      | inr (x, g) ↦ rw (e, f, g) (inr (_, refl, refl))
      | inl (_, g) ↦ rw (e, f, g) (open_session_in-NoLeak a)
    ]
  ]
]

-- Whatever each step of an open gives, no resource leaks: the call succeeds with the session, the
-- tokenizer and the source open and none closed, or it fails and has closed exactly those that
-- were open.
pub open_verified-NoLeak : (a : Answers) → NoLeak (open_verified a)
unfolding open_verified native_open_failure
open_verified-NoLeak a = elim (Outcome-cases a.read_config) [
  | inr (x, e) ↦ rw (e, open_verified) (inr (_, refl, refl))
  | inl (_, e) ↦ elim (Outcome-cases a.parse_config) [
    | inr (x, f) ↦ rw (e, f) (inr (_, refl, refl))
    | inl (_, f) ↦ rw (e, f) (open_tokenizer_in-NoLeak a)
  ]
]
