-- ===== src/Native/Coordinator.antt =====
-- `nativeCoordinator` and `nativeLease`: one native environment in the process, shared by counting
-- leases. What the environment answers is an argument; the effects that a call has on the process
-- are listed in order. A call of the environment that fails has no effect.
use laya_go.Prelude.{
  ℕ, suc, ◌-◌, String, str_eq, Bool, true, false, ◌&&◌, ◌||◌, not, List, [], ◌∷◌, ltb,
  if◌then◌else◌,
}
use laya_go.Errors.{
  Error, sentinel, stage_error, joined, foreign, invalid_config, invalid_state, native_failure,
  native_unavailable, Outcome, ok, err,
}

pub record Key : Type 0 where
  pub library_path : String
  pub library_sha256 : String

-- `environment` says whether the field is not nil.
pub record Coordinator : Type 0 where
  pub environment : Bool
  pub key : Key
  pub leases : ℕ
  pub cleanup_pending : Bool

abbrev pub no_key : Key
no_key = record { library_path = ""; library_sha256 = "" }

pub data Effect : Type 0 where
  initialized destroyed : Effect

-- The answers of the environment to the calls that one `acquire` may make.
pub record Answers : Type 0 where
  pub retry_destroy : Outcome (Unit {0})
  pub initialize : Outcome (Unit {0})
  pub version_matches : Bool
  pub mismatch_destroy : Outcome (Unit {0})

pub record Turn (A : Type 0) : Type 0 where
  pub after : Coordinator
  pub outcome : Outcome A
  pub effects : List Effect

-- The text of this error is not modelled.
abbrev pub version_mismatch : Error
version_mismatch = foreign 0

unfoldable pub mismatch : Outcome (Unit {0}) → Key → Coordinator → Turn (Unit {0})
mismatch (ok _) key c = record {
  after = c;
  outcome = err (stage_error native_unavailable version_mismatch);
  effects = initialized ∷ destroyed ∷ [];
}
mismatch (err e) key c = record {
  after = record c { environment = true; key = key; cleanup_pending = true };
  outcome = err (stage_error native_unavailable (joined version_mismatch e));
  effects = initialized ∷ [];
}

-- The part of `acquire` from `SetSharedLibraryPath` on.
unfoldable pub acquire_fresh : Answers → Key → Coordinator → Turn (Unit {0})
unfolding mismatch
acquire_fresh a key c = elim a.initialize [
  | err e ↦ record { after = c; outcome = err (stage_error native_unavailable e); effects = [] }
  | ok _ ↦
      if a.version_matches
      then record {
        after = record c { environment = true; key = key; leases = 1 };
        outcome = ok tt;
        effects = initialized ∷ [];
      }
      else mismatch a.mismatch_destroy key c
]

abbrev pub same_key : Key → Key → Bool
same_key a b = str_eq a.library_path b.library_path && str_eq a.library_sha256 b.library_sha256

-- The part from the test of `c.leases` on.
unfoldable pub acquire_shared : Answers → Key → Coordinator → Turn (Unit {0})
unfolding acquire_fresh
acquire_shared a key c =
    if ltb 0 c.leases
    then if same_key c.key key
      then record { after = record c { leases = suc c.leases }; outcome = ok tt; effects = [] }
      else record { after = c; outcome = err (sentinel invalid_config); effects = [] }
    else acquire_fresh a key c

abbrev pub idle : Coordinator → Coordinator
idle c = record c { environment = false; key = no_key; leases = 0; cleanup_pending = false }

-- The retry of a cleanup that is pending.
unfoldable pub retry_cleanup : Outcome (Unit {0}) → Answers → Key → Coordinator → Turn (Unit {0})
unfolding acquire_shared
retry_cleanup (err e) a key c = record {
  after = c;
  outcome = err (stage_error native_failure e);
  effects = [];
}
retry_cleanup (ok _) a key c =
    let t =
      acquire_shared a key
        (record c { environment = false; key = no_key; cleanup_pending = false }) in
    record { after = t.after; outcome = t.outcome; effects = destroyed ∷ t.effects }

-- The part under the lock.
unfoldable pub acquire_locked : Answers → Key → Coordinator → Turn (Unit {0})
unfolding acquire_shared retry_cleanup
acquire_locked a key c =
    if not c.cleanup_pending
    then acquire_shared a key c
    else if ltb 0 c.leases
    then record { after = c; outcome = err (sentinel native_failure); effects = [] }
    else retry_cleanup a.retry_destroy a key c

abbrev pub is_incomplete : Key → Bool
is_incomplete key = str_eq key.library_path "" || str_eq key.library_sha256 ""

-- `early` and `late` are what the context gives before the lock and under it.
unfoldable pub acquire :
    Outcome (Unit {0}) → Outcome (Unit {0}) → Answers → Key → Coordinator → Turn (Unit {0})
unfolding acquire_locked
acquire (err e) late a key c = record { after = c; outcome = err e; effects = [] }
acquire (ok _) (err e) a key c =
    if is_incomplete key
    then record { after = c; outcome = err (sentinel invalid_config); effects = [] }
    else record { after = c; outcome = err e; effects = [] }
acquire (ok _) (ok _) a key c =
    if is_incomplete key
    then record { after = c; outcome = err (sentinel invalid_config); effects = [] }
    else acquire_locked a key c

unfoldable pub destroying : Outcome (Unit {0}) → Coordinator → Turn Bool
destroying (err e) c = record {
  after = record c { cleanup_pending = true };
  outcome = err (stage_error native_failure e);
  effects = [];
}
destroying (ok _) c = record { after = idle c; outcome = ok true; effects = destroyed ∷ [] }

-- `nativeLease.close` on a lease that is not released, under both locks; `ok true` releases it.
unfoldable pub close_locked : Outcome (Unit {0}) → Coordinator → Turn Bool
unfolding destroying
close_locked destroy c =
    if not (ltb 0 c.leases)
    then record { after = c; outcome = err (sentinel invalid_state); effects = [] }
    else if ltb 1 c.leases
    then record { after = record c { leases = c.leases - 1 }; outcome = ok true; effects = [] }
    else destroying destroy c

-- `nativeLease.close`: a lease that is released closes with no effect.
unfoldable pub close_lease :
    Outcome (Unit {0}) → Outcome (Unit {0}) → Outcome (Unit {0}) → Bool → Coordinator → Turn Bool
unfolding close_locked
close_lease (err e) late destroy released c = record { after = c; outcome = err e; effects = [] }
close_lease (ok _) late destroy true c = record { after = c; outcome = ok true; effects = [] }
close_lease (ok _) (err e) destroy false c = record { after = c; outcome = err e; effects = [] }
close_lease (ok _) (ok _) destroy false c = close_locked destroy c
