-- ===== src/Native/Leases.antt =====
-- The native environment is live exactly while it is leased or its cleanup is pending.
use laya_go.Prelude.{
  ℕ, suc, ◌-◌, ◌≤◌, ◌<◌, ◌≡◌, ◌≢◌, ◌⊎◌, inl, inr, refl, Bool, true, false, ◌||◌, not, List, [], ◌∷◌,
  Bool-cases, ltb, if◌then◌else◌, arith,
}
use laya_go.Errors.{Error, sentinel, invalid_config, Outcome, ok, err}
use laya_go.Question.Valid.{Tests, str_eq-Tests}
use laya_go.Native.Coordinator.{
  Key, Coordinator, no_key, Effect, initialized, destroyed, Answers, Turn, acquire, acquire_locked,
  acquire_shared, retry_cleanup, close_lease, is_incomplete, same_key,
}

-- The process: whether the environment is live, and whether it was ever initialized while live or
-- destroyed while not. `held` counts the leases that are not released.
pub record Process : Type 0 where
  pub coordinator : Coordinator
  pub held : ℕ
  pub live : Bool
  pub misused : Bool

abbrev pub perform : List Effect → Process → Process
perform [] p = p
perform (initialized ∷ es) p = perform es (record p { live = true; misused = p.misused || p.live })
perform (destroyed ∷ es) p =
    perform es (record p { live = false; misused = p.misused || not p.live })

unfoldable pub fresh : Process
fresh = record {
  coordinator = record { environment = false; key = no_key; leases = 0; cleanup_pending = false };
  held = 0;
  live = false;
  misused = false;
}

abbrev count_lease {ℓ} : {A : Type ℓ} → Outcome A → ℕ → ℕ
count_lease (ok _) n = suc n
count_lease (err e) n = n

abbrev drop_lease {ℓ} : {A : Type ℓ} → Outcome A → ℕ → ℕ
drop_lease (ok _) n = n - 1
drop_lease (err e) n = n

unfoldable pub take_lease :
    Outcome (Unit {0}) → Outcome (Unit {0}) → Answers → Key → Process → Process
take_lease early late a key p =
    let t = acquire early late a key p.coordinator in
    perform t.effects (record p { coordinator = t.after; held = count_lease t.outcome p.held })

pub give_back : Outcome (Unit {0}) → Outcome (Unit {0}) → Outcome (Unit {0}) → Process → Process
give_back early late destroy p =
    let t = close_lease early late destroy false p.coordinator in
    perform t.effects (record p { coordinator = t.after; held = drop_lease t.outcome p.held })

-- A lease is asked for, or one that is not released is closed.
pub data Step (p : Process) : Process → Type 0 where
  takes :
      (early late : Outcome (Unit {0})) (a : Answers) (key : Key)
      → Step p (take_lease early late a key p)
  gives :
      (early late destroy : Outcome (Unit {0}))
      → 0 < p.held
      → Step p (give_back early late destroy p)

pub data Reach : Process → Type 0 where
  starts : Reach fresh
  next_step : {p q : Process} → Reach p → Step p q → Reach q

pub record Inv (p : Process) : Type 0 where
  pub counted : p.coordinator.leases ≡ p.held
  pub stored : p.coordinator.environment ≡ p.live
  pub needed : p.live ≡ true → (0 < p.held) ⊎ (p.coordinator.cleanup_pending ≡ true)
  pub kept : (0 < p.held) ⊎ (p.coordinator.cleanup_pending ≡ true) → p.live ≡ true
  pub last : p.coordinator.cleanup_pending ≡ true → p.held ≤ 1
  pub proper : p.misused ≡ false

fresh-Inv : Inv fresh
unfolding fresh
fresh-Inv = ground arith

-- What a turn does to the process, whoever takes it.
abbrev After : Turn (Unit {0}) → Process → Process
After t p =
    perform t.effects (record p { coordinator = t.after; held = count_lease t.outcome p.held })

acquire_shared-Inv :
    (a : Answers) (key : Key) (p : Process)
    → p.coordinator.cleanup_pending ≡ false
    → Inv p
    → Inv (After (acquire_shared a key p.coordinator) p)
unfolding acquire_shared
acquire_shared-Inv a key p c h = ground arith

retry_cleanup-Inv :
    (o : Outcome (Unit {0})) (a : Answers) (key : Key) (p : Process)
    → p.coordinator.cleanup_pending ≡ true
    → p.coordinator.leases ≡ 0
    → Inv p
    → Inv (After (retry_cleanup o a key p.coordinator) p)
unfolding retry_cleanup
retry_cleanup-Inv (err e) a key p c z h = h
retry_cleanup-Inv (ok _) a key p c z h =
    acquire_shared-Inv a key
      (record p {
        coordinator = record p.coordinator {
          environment = false;
          key = no_key;
          cleanup_pending = false;
        };
        live = false;
        misused = p.misused || not p.live;
      })
      refl (ground arith)

-- The two tests of `acquire_locked`, over any turns.
choice-Inv :
    (p : Process) (pending leased : Bool) (shared refused retried : Turn (Unit {0}))
    → (pending ≡ false → Inv (After shared p))
    → (pending ≡ true → leased ≡ true → Inv (After refused p))
    → (pending ≡ true → leased ≡ false → Inv (After retried p))
    → Inv (After (if not pending then shared else if leased then refused else retried) p)
choice-Inv p false leased x y z f g k = f refl
choice-Inv p true true x y z f g k = g refl refl
choice-Inv p true false x y z f g k = k refl refl

acquire_locked-Inv :
    (a : Answers) (key : Key) (p : Process)
    → Inv p
    → Inv (After (acquire_locked a key p.coordinator) p)
unfolding acquire_locked
acquire_locked-Inv a key p h =
    choice-Inv p p.coordinator.cleanup_pending (ltb 0 p.coordinator.leases) _ _ _
      (λ f. acquire_shared-Inv a key p f h) (λ t b. h)
      (λ t b. retry_cleanup-Inv a.retry_destroy a key p t (ground arith) h)

take_lease-Inv :
    (early late : Outcome (Unit {0})) (a : Answers) (key : Key) (p : Process)
    → Inv p
    → Inv (take_lease early late a key p)
unfolding take_lease acquire
take_lease-Inv (err e) late a key p h = h
take_lease-Inv (ok _) (err e) a key p h = elim (Bool-cases (is_incomplete key)) [
  | inl t ↦ rw t h
  | inr f ↦ rw f h
]
take_lease-Inv (ok _) (ok _) a key p h = elim (Bool-cases (is_incomplete key)) [
  | inl t ↦ rw t h
  | inr f ↦ rw f (acquire_locked-Inv a key p h)
]

give_back-Inv :
    (early late destroy : Outcome (Unit {0})) (p : Process)
    → 0 < p.held
    → Inv p
    → Inv (give_back early late destroy p)
unfolding give_back close_lease
give_back-Inv (err e) late destroy p q h = h
give_back-Inv (ok _) (err e) destroy p q h = h
give_back-Inv (ok _) (ok _) (ok _) p q h = ground arith
give_back-Inv (ok _) (ok _) (err e) p q h = ground arith

Step-Inv : {p q : Process} → Step p q → Inv p → Inv q
Step-Inv {p} (takes early late a key) h = take_lease-Inv early late a key p h
Step-Inv {p} (gives early late destroy r) h = give_back-Inv early late destroy p r h

Reach-Inv : {p : Process} → Reach p → Inv p
Reach-Inv starts = fresh-Inv
Reach-Inv (next_step r st) = Step-Inv st (Reach-Inv r)

-- In every reachable state of the process the environment is live exactly while a lease is held or
-- a cleanup is pending; the coordinator's count is that of the leases held; and the environment
-- was never initialized while it was live, nor destroyed while it was not.
pub Reach-live :
    {p : Process}
    → Reach p
    → (p.live ≡ true → (0 < p.held) ⊎ (p.coordinator.cleanup_pending ≡ true))
      × ((0 < p.held) ⊎ (p.coordinator.cleanup_pending ≡ true) → p.live ≡ true)
      × (p.coordinator.leases ≡ p.held)
      × (p.misused ≡ false)
Reach-live r = let h = Reach-Inv r in (h.needed, h.kept, h.counted, h.proper)

-- The context is live, the key complete, no cleanup is pending, and the key is the current one.
abbrev pub CanShare : Outcome (Unit {0}) → Outcome (Unit {0}) → Key → Coordinator → Type 0
CanShare early late key c =
    (early ≡ ok tt)
    × (late ≡ ok tt)
    × (key.library_path ≢ "")
    × (key.library_sha256 ≢ "")
    × (c.cleanup_pending ≡ false)
    × (c.key ≡ key)

same_key-Tests : (a b : Key) → Tests (a ≡ b) (same_key a b)
same_key-Tests a b = ground (
  arith,
  str_eq-Tests a.library_path b.library_path,
  str_eq-Tests a.library_sha256 b.library_sha256,
)

complete-Tests :
    (key : Key)
    → Tests ((key.library_path ≢ "") × (key.library_sha256 ≢ "")) (not (is_incomplete key))
complete-Tests key =
    ground (arith, str_eq-Tests key.library_path "", str_eq-Tests key.library_sha256 "")

-- While leases are held, `acquire` in a reachable state succeeds exactly if the context is live, the key
-- is complete, no cleanup is pending, and the key is the current one; then there is one more lease and
-- nothing else has changed. Otherwise it fails and changes nothing, and if only the key is another one,
-- the error is that of an invalid configuration.
pub Reach-shares :
    {p : Process} (early late : Outcome (Unit {0})) (a : Answers) (key : Key)
    → Reach p
    → 0 < p.held
    → (CanShare early late key p.coordinator
        × ((acquire early late a key p.coordinator).outcome ≡ ok tt)
        × (take_lease early late a key p ≡ record p {
          coordinator = record p.coordinator { leases = suc p.coordinator.leases };
          held = suc p.held;
        }))
      ⊎ ((CanShare early late key p.coordinator → ⊥)
          × (take_lease early late a key p ≡ p)
          × ((e : Error) × ((acquire early late a key p.coordinator).outcome ≡ err e)
              × (CanShare early late key (record p.coordinator { key = key })
                  → e ≡ sentinel invalid_config)))
unfolding take_lease acquire acquire_locked acquire_shared
Reach-shares {p} (err x) late a key r q =
    inr ((λ (e, _, _, _, _, _). cc), refl, (x, refl, λ (e, _, _, _, _, _). cc))
Reach-shares {p} (ok _) (err x) a key r q = elim (Bool-cases (is_incomplete key)) [
  | inl i ↦ rw i (
      inr (
        (λ (_, e, _, _, _, _). cc),
        refl,
        (sentinel invalid_config, refl, λ (_, e, _, _, _, _). cc),
      ))
  | inr n ↦ rw n (inr ((λ (_, e, _, _, _, _). cc), refl, (x, refl, λ (_, e, _, _, _, _). cc)))
]
Reach-shares {p} (ok _) (ok _) a key r q =
    let h = Reach-Inv r in
    ground (arith, h, same_key-Tests p.coordinator.key key, complete-Tests key)
