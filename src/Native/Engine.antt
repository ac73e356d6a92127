-- ===== src/Native/Engine.antt =====
-- `nativeModelEngine.Close` of native_lifecycle.go: three resources, closed in order, by as many
-- calls as it takes.
use laya_go.Prelude.{◌≡◌, Bool, true, false, List, [], ◌∷◌, ◌++◌, arith}
use laya_go.Errors.{Error, stage_error, native_failure, materialization, Outcome, ok, err}

pub data Resource : Type 0 where
  session tokenizer source : Resource

-- Which fields are not nil.
pub record Engine : Type 0 where
  pub has_session : Bool
  pub has_tokenizer : Bool
  pub has_source : Bool
  pub closed : Bool

-- What the context gives at the three places where it is asked, and the resources' answers.
pub record Answers : Type 0 where
  pub entry : Outcome (Unit {0})
  pub after_session : Outcome (Unit {0})
  pub after_tokenizer : Outcome (Unit {0})
  pub close_session : Outcome (Unit {0})
  pub close_tokenizer : Outcome (Unit {0})
  pub close_source : Outcome (Unit {0})

-- The engine afterwards, what the call returns, and the resources that were closed, in order.
pub record Turn : Type 0 where
  pub after : Engine
  pub outcome : Outcome (Unit {0})
  pub released : List Resource

abbrev stop : Engine → List Resource → Error → Turn
stop e done x = record { after = e; outcome = err x; released = done }

close_source_of : Bool → Answers → Engine → List Resource → Turn
close_source_of false a e done = record {
  after = record e { closed = true };
  outcome = ok tt;
  released = done;
}
close_source_of true a e done = elim a.close_source [
  | err x ↦ stop e done (stage_error materialization x)
  | ok _ ↦ record {
    after = record e { has_source = false; closed = true };
    outcome = ok tt;
    released = done ++ (source ∷ []);
  }
]

-- `ctx.Err()` after the tokenizer, and then the source.
then_source : Answers → Engine → List Resource → Turn
unfolding close_source_of
then_source a e done = elim a.after_tokenizer [
  | err x ↦ stop e done x
  | ok _ ↦ close_source_of e.has_source a e done
]

close_tokenizer_of : Bool → Answers → Engine → List Resource → Turn
unfolding then_source
close_tokenizer_of false a e done = then_source a e done
close_tokenizer_of true a e done = elim a.close_tokenizer [
  | err x ↦ stop e done (stage_error native_failure x)
  | ok _ ↦ then_source a (record e { has_tokenizer = false }) (done ++ (tokenizer ∷ []))
]

then_tokenizer : Answers → Engine → List Resource → Turn
unfolding close_tokenizer_of
then_tokenizer a e done = elim a.after_session [
  | err x ↦ stop e done x
  | ok _ ↦ close_tokenizer_of e.has_tokenizer a e done
]

close_session_of : Bool → Answers → Engine → Turn
unfolding then_tokenizer
close_session_of false a e = then_tokenizer a e []
close_session_of true a e = elim a.close_session [
  | err x ↦ stop e [] (stage_error native_failure x)
  | ok _ ↦ then_tokenizer a (record e { has_session = false }) (session ∷ [])
]

close_open : Bool → Answers → Engine → Turn
unfolding close_session_of
close_open true a e = record { after = e; outcome = ok tt; released = [] }
close_open false a e = close_session_of e.has_session a e

unfoldable pub close : Answers → Engine → Turn
unfolding close_open
close a e = elim a.entry [ err x ↦ stop e [] x | ok _ ↦ close_open e.closed a e ]

-- What an engine still has to close, in the order of closing.
abbrev pub when_held : Bool → Resource → List Resource → List Resource
when_held true r rs = r ∷ rs
when_held false r rs = rs

abbrev pub held : Engine → List Resource
held e =
    when_held e.has_session session
      (when_held e.has_tokenizer tokenizer (when_held e.has_source source []))

-- A closed engine holds nothing.
abbrev pub IsSound : Engine → Type 0
IsSound e = e.closed ≡ true → held e ≡ []

-- Whatever the context and the resources answer, a call of `Close` releases resources from the
-- front of what the engine holds, in the order session, tokenizer, source, and keeps the rest for
-- the next call. It succeeds only when nothing is left and the engine is closed, and a closed
-- engine holds nothing.
pub close-resumes :
    (a : Answers) (e : Engine)
    → IsSound e
    → (held e ≡ (close a e).released ++ held (close a e).after)
      × IsSound (close a e).after
      × ((close a e).outcome ≡ ok tt
          → ((close a e).after.closed ≡ true) × (held (close a e).after ≡ []))
unfolding close
close-resumes a e h = ground arith

-- If the context stays live and no resource fails, one call closes what is left, in order.
pub close-completes :
    (a : Answers) (e : Engine)
    → IsSound e
    → a.entry ≡ ok tt
    → a.after_session ≡ ok tt
    → a.after_tokenizer ≡ ok tt
    → a.close_session ≡ ok tt
    → a.close_tokenizer ≡ ok tt
    → a.close_source ≡ ok tt
    → ((close a e).outcome ≡ ok tt) × ((close a e).released ≡ held e)
unfolding close
close-completes a e h p q r s t u = ground arith
