-- ===== src/Bundle/Reading/Exact.antt =====
-- What the reading of a manifest gives, and what `Verify` reads.
use laya_go.Prelude.{
  ℕ, suc, ◌≤◌, ◌≡◌, ◌↔◌, inl, inr, refl, sym, ap, ◌∙◌, String, str_eq, Bool, Bool-cases, true,
  false, not, ◌&&◌, ◌||◌, List, length, length-take, min, leb, ltb, arith,
}
use laya_go.Prelude.Int.{ℤ, pos, pos_part, neg_part, ltb_ℤ}
use laya_go.Prelude.Float.{FloatOps}
use laya_go.Errors.{Error, Outcome, ok, err, ◌>>=◌, refuse, ok_injective}
use laya_go.Output.Matching.{bind-eq-ok}
use laya_go.Bundle.Manifest.{Manifest}
use laya_go.Bundle.Rules.{Library, bad_bundle}
use laya_go.Bundle.Verify.{Kind, directory, regular, other, is_regular, as_invalid}
use laya_go.Bundle.Parse.{verify}
use laya_go.Bundle.Reading.{
  Stream, Source, read_limited, read_manifest, is_missing, explained, not_canceled, verify_source,
}

refused-ok : (b : Bool) (x : Error) {u : Unit {0}} → refuse b x ≡ ok u → b ≡ false
refused-ok true x e = cc
refused-ok false x e = refl

as_invalid-ok : {A : Type 0} (o : Outcome A) {a : A} → as_invalid o ≡ ok a → o ≡ ok a
as_invalid-ok (ok b) e = e
as_invalid-ok (err x) e = cc

-- A manifest that can be opened: a regular file of a size up to 1 MiB, with at most 1 MiB of bytes that
-- read to their end.
abbrev pub IsReadable : Outcome Stream → List ℕ → Type 0
IsReadable opened contents =
    (f : Stream) × (opened ≡ ok f)
    × ((n : ℤ) × (f.stat ≡ ok (regular, n)) × (neg_part n ≡ 0) × (pos_part n ≤ 1048576))
    × (f.ending ≡ ok tt)
    × (length f.bytes ≤ 1048576)
    × (contents ≡ f.bytes)

-- Lengths at a limit.
at_limit : (m n k : ℕ) → leb (suc m) n ≡ true → k ≡ min (suc m) n → k ≤ m → ⊥
at_limit m n k h e l = ground arith

below_limit : (m n : ℕ) → leb (suc m) n ≡ false → n ≤ m
below_limit m n h = ground arith

not_above : (m n : ℕ) → ltb m n ≡ false → n ≤ m
not_above m n h = ground arith

leb-above : (m n : ℕ) → n ≤ m → leb (suc m) n ≡ false
leb-above m n h = ground arith

ltb-above : (m n : ℕ) → n ≤ m → ltb m n ≡ false
ltb-above m n h = ground arith

read_limited-ok :
    (f : Stream) (contents : List ℕ)
    → read_limited 1048577 f ≡ ok contents
    → length contents ≤ 1048576
    → (f.ending ≡ ok tt) × (length f.bytes ≤ 1048576) × (contents ≡ f.bytes)
unfolding read_limited
read_limited-ok f contents e h = elim (Bool-cases (leb 1048577 (length f.bytes))) [
  | inl t ↦
      let c = ok_injective (rw t at e) in
      absurd (
        at_limit 1048576 (length f.bytes) (length contents) t
          (ap length (sym c) ∙ length-take 1048577 f.bytes) h)
  | inr t ↦
      let (u, d, c) = bind-eq-ok f.ending _ (rw t at e) in
      (d, below_limit 1048576 (length f.bytes) t, sym (ok_injective c))
]

regular_of :
    (k : Kind) (n : ℤ) → not (is_regular k) ≡ false → ◌≡◌ {A = Kind × ℤ} (k, n) (regular, n)
regular_of directory n h = cc
regular_of other n h = cc
regular_of regular n h = refl

bounded_of :
    (n : ℤ)
    → (ltb_ℤ n (pos 0) || ltb_ℤ (pos 1048576) n) ≡ false
    → (neg_part n ≡ 0) × (pos_part n ≤ 1048576)
bounded_of n h = ground arith

size_of :
    (n : ℤ)
    → neg_part n ≡ 0
    → pos_part n ≤ 1048576
    → (ltb_ℤ n (pos 0) || ltb_ℤ (pos 1048576) n) ≡ false
size_of n z p = ground arith

read_manifest-IsReadable :
    (opened : Outcome Stream) (contents : List ℕ)
    → read_manifest opened ≡ ok contents
    → IsReadable opened contents
unfolding read_manifest
read_manifest-IsReadable opened contents e =
    let (f, a, e₁) = bind-eq-ok (as_invalid opened) _ e in
    let (info, b, e₂) = bind-eq-ok (as_invalid f.stat) _ e₁ in
    let (_, k, e₃) = bind-eq-ok (refuse (not (is_regular info.0)) bad_bundle) _ e₂ in
    let (_, z, e₄) =
      bind-eq-ok (refuse (ltb_ℤ info.1 (pos 0) || ltb_ℤ (pos 1048576) info.1) bad_bundle) _ e₃ in
    let (got, r, e₅) = bind-eq-ok (as_invalid (read_limited 1048577 f)) _ e₄ in
    let (_, l, e₆) = bind-eq-ok (refuse (ltb 1048576 (length got)) bad_bundle) _ e₅ in
    let small = not_above 1048576 (length got) (refused-ok _ _ l) in
    let (d, h, c) = read_limited-ok f got (as_invalid-ok _ r) small in
    let (low, high) = bounded_of info.1 (refused-ok _ _ z) in
    (
      f,
      as_invalid-ok opened a,
      (
        info.1,
        as_invalid-ok f.stat b ∙ ap ok (regular_of info.0 info.1 (refused-ok _ _ k)),
        low,
        high,
      ),
      d,
      h,
      sym (ok_injective e₆) ∙ c,
    )

-- `readManifest` returns some bytes exactly if the manifest opens as a regular file of a size of at
-- most 1 MiB, reads to its end without an error, and these are all its bytes, at most 1 MiB.
pub read_manifest-Exact :
    (opened : Outcome Stream) (contents : List ℕ)
    → (read_manifest opened ≡ ok contents) ↔ IsReadable opened contents
unfolding read_manifest read_limited
read_manifest-Exact opened contents = (
  read_manifest-IsReadable opened contents,
  λ (f, e, (n, s, z, p), d, l, c).
      rw
        (
          e,
          s,
          size_of n z p,
          leb-above 1048576 (length f.bytes) l,
          d,
          ltb-above 1048576 (length f.bytes) l,
          c,
        )
        refl,
)

explained-ok :
    (b : Bool) (o : Outcome (List ℕ)) (contents : List ℕ)
    → explained b o ≡ ok contents
    → o ≡ ok contents
unfolding explained
explained-ok b (ok c) contents e = e
explained-ok b (err x) contents e = elim (Bool-cases (is_missing x && b)) [
  | inl t ↦ let d = rw t at e in cc
  | inr t ↦ let d = rw t at e in cc
]

-- Where `Verify` succeeds, it read a manifest of at most 1 MiB to its end, and what it returns is what
-- the verification of these bytes and of the tree returns.
pub verify_source-read :
    (lib : Library) {F : Type 0} ⦃ops : FloatOps F⦄ (equal_fold : String → String → Bool)
    (digest : List ℕ → String) (s : Source F) (m : Manifest F)
    → verify_source lib equal_fold digest s ≡ ok m
    → (contents : List ℕ) × IsReadable s.manifest_file contents
      × (verify lib equal_fold digest (ok (s.document contents)) s.entries ≡ ok m)
unfolding verify_source verify
verify_source-read lib equal_fold digest s m e =
    let (_, _, e₁) = bind-eq-ok (refuse (not s.has_context) bad_bundle) _ e in
    let (_, _, e₂) = bind-eq-ok (refuse (not s.has_file_system) bad_bundle) _ e₁ in
    let (_, _, e₃) =
      bind-eq-ok
        (refuse
          (str_eq s.root ""
            || not (str_eq s.root ".") && (not (lib.valid_path s.root) || lib.has_backslash s.root))
          bad_bundle)
        _ e₂ in
    let (_, _, e₄) = bind-eq-ok (not_canceled s.context) _ e₃ in
    let (_, _, e₅) = bind-eq-ok (as_invalid s.sub) _ e₄ in
    let (d, r, e₆) =
      bind-eq-ok
        (explained s.has_checkpoint (read_manifest s.manifest_file) >>= λ contents.
          ok (s.document contents))
        _ e₅ in
    let (contents, x, y) =
      bind-eq-ok (explained s.has_checkpoint (read_manifest s.manifest_file)) _ r in
    (
      contents,
      read_manifest-IsReadable s.manifest_file contents
          (explained-ok s.has_checkpoint (read_manifest s.manifest_file) contents x),
      rw (ok_injective y) e₆,
    )
