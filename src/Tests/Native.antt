-- ===== src/Tests/Native.antt =====
-- Leases, opens that fail, and engines that close in two calls.
use laya_go.Prelude.{suc, ◌<◌, ◌≡◌, ◌⊎◌, refl, true, false, [], ◌∷◌, ◌++◌, arith}
use laya_go.Errors.{Error, invalid_config, sentinel, native_failure, canceled, ok, err}
use laya_go.Native.Coordinator.{Key, Answers, acquire}
use laya_go.Native.Leases.{
  Process, fresh, take_lease, takes, Reach, starts, next_step, Reach-live, CanShare, Reach-shares,
}
use laya_go.Native.Engine.{
  Resource, session, source, Engine, close, held, IsSound, close-resumes, close-completes,
}
use laya_go.Native.Engine
use laya_go.Native.Opening.{open_verified, NoLeak, open_verified-NoLeak}
use laya_go.Native.Opening

abbrev key : Key
key = record { library_path = "/lib"; library_sha256 = "ab" }

abbrev works : Answers
works = record {
  retry_destroy = ok tt;
  initialize = ok tt;
  version_matches = true;
  mismatch_destroy = ok tt;
}

abbrev leased : Process
leased = take_lease (ok tt) (ok tt) works key fresh

leased-Reach : Reach leased
leased-Reach = next_step starts (takes (ok tt) (ok tt) works key)

Reach-live_example :
    (leased.live ≡ true → (0 < leased.held) ⊎ (leased.coordinator.cleanup_pending ≡ true))
    × ((0 < leased.held) ⊎ (leased.coordinator.cleanup_pending ≡ true) → leased.live ≡ true)
    × (leased.coordinator.leases ≡ leased.held)
    × (leased.misused ≡ false)
Reach-live_example = Reach-live leased-Reach

Reach-shares_example :
    (CanShare (ok tt) (ok tt) key leased.coordinator
      × ((acquire (ok tt) (ok tt) works key leased.coordinator).outcome ≡ ok tt)
      × (take_lease (ok tt) (ok tt) works key leased ≡ record leased {
        coordinator = record leased.coordinator { leases = suc leased.coordinator.leases };
        held = suc leased.held;
      }))
    ⊎ ((CanShare (ok tt) (ok tt) key leased.coordinator → ⊥)
        × (take_lease (ok tt) (ok tt) works key leased ≡ leased)
        × ((e : Error) × ((acquire (ok tt) (ok tt) works key leased.coordinator).outcome ≡ err e)
            × (CanShare (ok tt) (ok tt) key (record leased.coordinator { key = key })
                → e ≡ sentinel invalid_config)))
unfolding take_lease fresh acquire
Reach-shares_example = Reach-shares (ok tt) (ok tt) works key leased-Reach (omega arith)

-- The tokenizer does not close at first.
abbrev stuck : Engine.Answers
stuck = record {
  entry = ok tt;
  after_session = ok tt;
  after_tokenizer = ok tt;
  close_session = ok tt;
  close_tokenizer = err (sentinel native_failure);
  close_source = ok tt;
}

abbrev loaded : Engine
loaded = record { has_session = true; has_tokenizer = true; has_source = true; closed = false }

loaded-IsSound : IsSound loaded
loaded-IsSound e = cc

close-resumes_example :
    (held loaded ≡ (close stuck loaded).released ++ held (close stuck loaded).after)
    × IsSound (close stuck loaded).after
    × ((close stuck loaded).outcome ≡ ok tt
        → ((close stuck loaded).after.closed ≡ true) × (held (close stuck loaded).after ≡ []))
close-resumes_example = close-resumes stuck loaded loaded-IsSound

first_call : (close stuck loaded).released ≡ session ∷ []
unfolding close
first_call = refl

abbrev smooth : Engine.Answers
smooth = record stuck { close_tokenizer = ok tt }

close-completes_example :
    ((close smooth loaded).outcome ≡ ok tt) × ((close smooth loaded).released ≡ held loaded)
close-completes_example = close-completes smooth loaded loaded-IsSound refl refl refl refl refl refl

-- The session does not open.
abbrev no_session : Opening.Answers
no_session = record {
  read_config = ok tt;
  parse_config = ok tt;
  ctx_parsed = ok tt;
  tokenizer_path = ok tt;
  open_tokenizer = ok tt;
  ctx_tokenizer = ok tt;
  model_path = ok tt;
  open_session = err (sentinel native_failure);
  ctx_session = ok tt;
  canceled_as = canceled;
  closing = λ r. ok tt;
}

open_verified-NoLeak_example : NoLeak (open_verified no_session)
open_verified-NoLeak_example = open_verified-NoLeak no_session
