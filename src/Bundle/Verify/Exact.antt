-- ===== src/Bundle/Verify/Exact.antt =====
-- What the verification of a bundle's files accepts.
use laya_go.Prelude.{
  ℕ, ◌≡◌, ◌≢◌, ◌⊎◌, ◌↔◌, inl, inr, refl, sym, ap, ◌∙◌, String, str_eq, eq_iff, Bool, true, false,
  not, ◌||◌, Bool-cases, Option, none, some, Option-cases, List, [], ◌∷◌, ◌++◌, append_assoc, All,
  Has, length, if◌then◌else◌, arith,
}
use laya_go.Prelude.Int.{ℤ, pos, eqb_ℤ}
use laya_go.Errors.{Category, Error, Outcome, ok, err, refuse, ok_injective}
use laya_go.Question.Valid.{seen_before-Has}
use laya_go.Output.Matching.{bind-eq-ok}
use laya_go.Bundle.Manifest.{File}
use laya_go.Bundle.Rules.{bad_bundle}
use laya_go.Bundle.Verify.{
  bad_content, find_file, Kind, directory, regular, other, is_directory, is_regular, Reads, stopped,
  ends, fails, gives, Opened, Entry, read_all, as_invalid, verify_file, verify_declared,
  verify_kind, verify_entry, walk, require_seen, verify_files,
}

-- The bytes that reads give, if they come to an end.
abbrev pub contents : Reads → Option (List ℕ)
contents (stopped c) = none
contents (ends bytes) = some bytes
contents (fails bytes e) = none
contents (gives [] r) = none
contents (gives (b ∷ bytes) r) = elim (contents r) [
  | none ↦ none
  | some rest ↦ some ((b ∷ bytes) ++ rest)
]

read_all-contents :
    (r : Reads) (done bytes : List ℕ)
    → contents r ≡ some bytes
    → read_all done r ≡ ok (done ++ bytes)
unfolding read_all
read_all-contents (stopped c) done bytes e = cc
read_all-contents (ends b) done bytes e = ground arith
read_all-contents (fails b x) done bytes e = cc
read_all-contents (gives [] r) done bytes e = cc
read_all-contents (gives (b ∷ bs) r) done bytes e = elim (Option-cases (contents r)) [
  | inl n ↦ absurd (ground arith)
  | inr (rest, s) ↦
      read_all-contents r (done ++ (b ∷ bs)) rest s
      ∙ ap ok (append_assoc done (b ∷ bs) rest ∙ ap (◌++◌ done) (ground arith))
]

read_all-ok :
    (r : Reads) (done all : List ℕ)
    → read_all done r ≡ ok all
    → (bytes : List ℕ) × (contents r ≡ some bytes) × (all ≡ done ++ bytes)
unfolding read_all
read_all-ok (stopped c) done all e = cc
read_all-ok (ends b) done all e = (b, refl, sym (ok_injective e))
read_all-ok (fails b x) done all e = cc
read_all-ok (gives [] r) done all e = cc
read_all-ok (gives (b ∷ bs) r) done all e =
    let (rest, s, t) = read_all-ok r (done ++ (b ∷ bs)) all e in
    ((b ∷ bs) ++ rest, rw s refl, t ∙ append_assoc done (b ∷ bs) rest)

refused-ok : (b : Bool) (x : Error) {u : Unit {0}} → refuse b x ≡ ok u → b ≡ false
refused-ok true x e = cc
refused-ok false x e = refl

module _ (digest : List ℕ → String) (files : List File) where
  -- An opened file is a regular file of the declared size, whose bytes have the declared digest.
  abbrev pub IsContent : File → Outcome Opened → Type 0
  IsContent f o =
      (file : Opened) × (o ≡ ok file)
      × (file.stat ≡ ok (regular, f.size))
      × (bytes : List ℕ) × (contents file.reads ≡ some bytes)
      × (pos (length bytes) ≡ f.size)
      × (digest bytes ≡ f.sha256)

  verify_file-IsContent :
      (f : File) (o : Outcome Opened) → IsContent f o → verify_file digest files f o ≡ ok tt
  unfolding verify_file
  verify_file-IsContent f o (file, e, s, bytes, c, n, d) =
      rw (e, s, read_all-contents file.reads [] bytes c)
        (ground (arith, eq_iff (digest bytes) f.sha256))

  as_invalid-ok : {A : Type 0} (o : Outcome A) {a : A} → as_invalid o ≡ ok a → o ≡ ok a
  as_invalid-ok (ok b) e = e
  as_invalid-ok (err x) e = cc

  verify_file-ok :
      (f : File) (o : Outcome Opened) → verify_file digest files f o ≡ ok tt → IsContent f o
  unfolding verify_file
  verify_file-ok f o e =
      let (file, a, e₁) = bind-eq-ok (as_invalid o) _ e in
      let (info, b, e₂) = bind-eq-ok (as_invalid file.stat) _ e₁ in
      let (_, k, e₃) = bind-eq-ok (refuse (not (is_regular info.0)) bad_bundle) _ e₂ in
      let (_, s, e₄) = bind-eq-ok (refuse (not (eqb_ℤ info.1 f.size)) bad_content) _ e₃ in
      let (bytes, r, e₅) = bind-eq-ok (read_all [] file.reads) _ e₄ in
      let (_, n, e₆) =
        bind-eq-ok (refuse (not (eqb_ℤ (pos (length bytes)) f.size)) bad_content) _ e₅ in
      let (all, c, t) = read_all-ok file.reads [] bytes r in
      (
        file,
        as_invalid-ok o a,
        as_invalid-ok file.stat b
            ∙ ap ok (pair info.0 info.1 f.size (refused-ok _ _ k) (refused-ok _ _ s)),
        bytes,
        c ∙ ap some (sym t),
        number (pos (length bytes)) f.size (refused-ok _ _ n),
        digested bytes (refused-ok _ _ e₆),
      )
    where
      number : (a b : ℤ) → not (eqb_ℤ a b) ≡ false → a ≡ b
      number a b h = ground arith

      pair :
          (k : Kind) (a b : ℤ)
          → not (is_regular k) ≡ false
          → not (eqb_ℤ a b) ≡ false
          → ◌≡◌ {A = Kind × ℤ} (k, a) (regular, b)
      pair directory a b h s = cc
      pair other a b h s = cc
      pair regular a b h s = ap (λ x. (regular, x)) (number a b s)

      digested :
          (bytes : List ℕ) → not (str_eq (digest bytes) f.sha256) ≡ false → digest bytes ≡ f.sha256
      digested bytes h = ground (arith, eq_iff (digest bytes) f.sha256)

  -- An entry of the walk that is not an artifact: the root, a directory, or a regular manifest.
  abbrev pub IsAside : Entry → Type 0
  IsAside e =
      (e.path ≡ ".") ⊎ (e.kind ≡ directory) ⊎ ((e.path ≡ "manifest.json") × (e.kind ≡ regular))

  -- A declared artifact with its declared content.
  abbrev pub IsArtifact : Entry → Type 0
  IsArtifact e =
      (e.path ≢ ".")
      × (e.path ≢ "manifest.json")
      × (e.kind ≡ regular)
      × ((f : File) × (find_file e.path files ≡ some f) × IsContent f e.open_file)

  abbrev pub IsEntry : Entry → Type 0
  IsEntry e = (e.walk_error ≡ none) × (e.context ≡ none) × (IsAside e ⊎ IsArtifact e)

  verify_declared-ok :
      (o : Option File) (e : Entry)
      → verify_declared digest files o e ≡ ok tt
      → (e.kind ≡ regular) × ((f : File) × (o ≡ some f) × IsContent f e.open_file)
  unfolding verify_declared
  verify_declared-ok none e h = cc
  verify_declared-ok (some f) e h =
      let (_, k, h₁) = bind-eq-ok (refuse (not (is_regular e.kind)) bad_bundle) _ h in
      (ground arith, (f, refl, verify_file-ok f e.open_file h₁))

  verify_kind-ok :
      (e : Entry) (b : Bool)
      → verify_kind digest files e ≡ ok b
      → (IsAside e × (b ≡ false)) ⊎ (IsArtifact e × (b ≡ true))
  unfolding verify_kind
  verify_kind-ok e b h = elim (Bool-cases (str_eq e.path "." || is_directory e.kind)) [
    | inl t ↦ inl (ground (arith, eq_iff e.path "."), sym (ok_injective (rw t at h)))
    | inr f ↦ elim (Bool-cases (str_eq e.path "manifest.json")) [
      | inl t ↦ inl (ground (arith, eq_iff e.path "manifest.json"), ground arith)
      | inr g ↦
          let (_, d, h₁) =
            bind-eq-ok (verify_declared digest files (find_file e.path files) e) _
              (rw (f, g) at h) in
          let (k, r) = verify_declared-ok (find_file e.path files) e d in
          inr (
            (
              ground (arith, eq_iff e.path "."),
              ground (arith, eq_iff e.path "manifest.json"),
              k,
              r,
            ),
            sym (ok_injective h₁),
          )
    ]
  ]

  verify_kind-IsAside : (e : Entry) → IsAside e → verify_kind digest files e ≡ ok false
  unfolding verify_kind
  verify_kind-IsAside e h = ground (arith, eq_iff e.path ".", eq_iff e.path "manifest.json")

  verify_kind-IsArtifact : (e : Entry) → IsArtifact e → verify_kind digest files e ≡ ok true
  unfolding verify_kind verify_declared
  verify_kind-IsArtifact e (p, q, k, (f, d, c)) =
      let v = verify_file-IsContent f e.open_file c in
      ground (arith, eq_iff e.path ".", eq_iff e.path "manifest.json")

  verify_entry-ok :
      (w : Option Error) (x : Option Category) (e : Entry) (b : Bool)
      → verify_entry digest files w x e ≡ ok b
      → (w ≡ none) × (x ≡ none) × (verify_kind digest files e ≡ ok b)
  unfolding verify_entry
  verify_entry-ok (some y) x e b h = cc
  verify_entry-ok none (some c) e b h = cc
  verify_entry-ok none none e b h = (refl, refl, h)

  -- Some entry is an artifact at this path.
  abbrev pub Found : String → List Entry → Type 0
  Found p [] = ⊥
  Found p (e ∷ es) = ((e.path ≡ p) × IsArtifact e) ⊎ Found p es

  not_both : (e : Entry) → IsAside e → IsArtifact e → ⊥
  not_both e (inl p) (q, _, _, _) = q p
  not_both e (inr (inl k)) (_, _, r, _) = cc
  not_both e (inr (inr (m, _))) (_, n, _, _) = n m

  walk-ok :
      (es : List Entry) (seen : List String)
      → walk digest files es ≡ ok seen
      → All IsEntry es × ((p : String) → Has p seen ↔ Found p es)
  unfolding walk
  walk-ok [] seen h = (tt, λ p. rw (sym (ok_injective h)) ((λ x. x), (λ x. x)))
  walk-ok (e ∷ es) seen h =
      let (b, d, h₁) = bind-eq-ok (verify_entry digest files e.walk_error e.context e) _ h in
      let (rest, r, h₂) = bind-eq-ok (walk digest files es) _ h₁ in
      let (w, x, k) = verify_entry-ok e.walk_error e.context e b d in
      let (a, f) = walk-ok es rest r in
      elim (verify_kind-ok e b k) [
        | inl (s, t) ↦ (
          ((w, x, inl s), a),
          λ p.
              rw (sym (ok_injective h₂), t)
                (
                  (λ m. inr ((f p).0 m)),
                  (λ m. elim m [ inl (_, y) ↦ absurd (not_both e s y) | inr y ↦ (f p).1 y ]),
                ),
        )
        | inr (s, t) ↦ (
          ((w, x, inr s), a),
          λ p.
              rw (sym (ok_injective h₂), t)
                (
                  (λ m. elim m [ inl y ↦ inl (y, s) | inr y ↦ inr ((f p).0 y) ]),
                  (λ m. elim m [ inl (y, _) ↦ inl y | inr y ↦ inr ((f p).1 y) ]),
                ),
        )
      ]

  verify_entry-calm :
      (w : Option Error) (x : Option Category) (e : Entry) (b : Bool)
      → w ≡ none
      → x ≡ none
      → verify_kind digest files e ≡ ok b
      → verify_entry digest files w x e ≡ ok b
  unfolding verify_entry
  verify_entry-calm none none e b w x h = h
  verify_entry-calm none (some c) e b w x h = cc
  verify_entry-calm (some y) x e b w z h = cc

  verify_entry-IsEntry :
      (e : Entry)
      → IsEntry e
      → (b : Bool) × (verify_entry digest files e.walk_error e.context e ≡ ok b)
  verify_entry-IsEntry e (w, x, inl s) =
      (false, verify_entry-calm _ _ e _ w x (verify_kind-IsAside e s))
  verify_entry-IsEntry e (w, x, inr s) =
      (true, verify_entry-calm _ _ e _ w x (verify_kind-IsArtifact e s))

  walk-succeeds :
      (es : List Entry) → All IsEntry es → (seen : List String) × (walk digest files es ≡ ok seen)
  unfolding walk
  walk-succeeds [] h = ([], refl)
  walk-succeeds (e ∷ es) (h, hs) =
      let (b, d) = verify_entry-IsEntry e h in
      let (rest, r) = walk-succeeds es hs in (if b then e.path ∷ rest else rest, rw (d, r) refl)

require_seen-ok :
    (seen : List String) (fs : List File)
    → (require_seen seen fs ≡ ok tt) ↔ All (λ (f : File). Has f.path seen) fs
unfolding require_seen
require_seen-ok seen [] = ((λ _. tt), (λ _. refl))
require_seen-ok seen (f ∷ fs) = elim (seen_before-Has seen f.path) [
  | inl (h, e) ↦
      rw e ((λ x. (h, (require_seen-ok seen fs).0 x)), (λ (_, x). (require_seen-ok seen fs).1 x))
  | inr (n, e) ↦ rw e ((λ x. cc), (λ (x, _). absurd (n x)))
]

All-transfer :
    {P Q : File → Type 0} (fs : List File) → ((f : File) → P f → Q f) → All P fs → All Q fs
All-transfer [] g h = tt
All-transfer (f ∷ fs) g (h, hs) = (g f h, All-transfer fs g hs)

-- `verifyFiles` succeeds exactly if the walk meets no error, each entry that is not the root, a
-- directory or the regular manifest is a declared regular file, of the declared size, whose bytes
-- have the declared digest, and each declared file is met.
pub verify_files-Exact :
    (digest : List ℕ → String) (files : List File) (entries : List Entry)
    → (verify_files digest files entries ≡ ok tt) ↔ (
        All (IsEntry digest files) entries
        × All (λ (f : File). Found digest files f.path entries) files)
unfolding verify_files
verify_files-Exact digest files entries = (
  λ h.
      let (seen, w, r) = bind-eq-ok (walk digest files entries) _ h in
      let (a, f) = walk-ok digest files entries seen w in
      (a, All-transfer files (λ g. (f g.path).0) ((require_seen-ok seen files).0 r)),
  λ (a, g).
      let (seen, w) = walk-succeeds digest files entries a in
      let (_, f) = walk-ok digest files entries seen w in
      rw w ((require_seen-ok seen files).1 (All-transfer files (λ g. (f g.path).1) g)),
)
