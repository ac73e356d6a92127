-- ===== src/Bundle/Layout.antt =====
-- What `validateLayout` of verify.go accepts.
use laya_go.Prelude.{
  ℕ, suc, ◌≡◌, ◌≢◌, ◌↔◌, ◌⊎◌, inl, inr, refl, sym, subst, ap, ◌∙◌, String, Bool, Bool-cases, true,
  false, Option-cases, none, some, List, [], ◌∷◌, ◌++◌, All, All-append, map, length, ◌==◌, arith,
}
use laya_go.Errors.{invalid_bundle, matches_sentinel, Outcome}
use laya_go.Question.Valid.{Tests, str_eq-Tests}
use laya_go.Bundle.Manifest.{File, License, Manifest}
use laya_go.Bundle.Rules.{bad_bundle}
use laya_go.Bundle.Valid.{Accepts, ◌&◌, ◌next◌, need}
use laya_go.Bundle.Verify.{
  find_file, count_role, none_is_manifest, validate_role_counts, require_role, validate_required,
  role_counts, required, validate_layout,
}

-- The files of a role are so many.
abbrev pub Counts : String → ℕ → List File → Type 0
Counts role n [] = n ≡ 0
Counts role n (f ∷ fs) =
    ((k : ℕ) × (n ≡ suc k) × (f.role ≡ role) × Counts role k fs)
    ⊎ ((f.role ≢ role) × Counts role n fs)

-- The last file of a path has the role; paths are unique in a valid manifest.
abbrev pub HasRole : String → String → List File → Type 0
HasRole path role [] = ⊥
HasRole path role (f ∷ fs) =
    HasRole path role fs
    ⊎ ((f.path ≡ path) × (f.role ≡ role) × All (λ (g : File). g.path ≢ path) fs)

-- No file is the manifest itself; there are as many files of each role as the manifest says; and each
-- path that the manifest names has a file of its role.
abbrev pub IsLayout : (String → String → Bool) → {F : Type 0} → Manifest F → Type 0
IsLayout equal_fold m =
    All (λ (f : File). equal_fold f.path "manifest.json" ≡ false) m.files
    & Counts "model" 1 m.files
    & Counts "model-external-data" (length m.model.external_data) m.files
    & Counts "tokenizer" 1 m.files
    & Counts "tokenizer-config" 1 m.files
    & Counts "agent-config" 1 m.files
    & Counts "license" (length m.provenance.licenses) m.files
    & Counts "notice" (length m.provenance.licenses) m.files
    & HasRole m.model.path "model" m.files
    & HasRole m.tokenizer.json_path "tokenizer" m.files
    & HasRole m.tokenizer.config_path "tokenizer-config" m.files
    & HasRole m.calibration.config_path "agent-config" m.files
    & All (λ (p : String). HasRole p "model-external-data" m.files) m.model.external_data
    & All (λ (l : License). HasRole l.path "license" m.files) m.provenance.licenses

none_is_manifest-Accepts :
    (equal_fold : String → String → Bool) (fs : List File)
    → Accepts
        (All (λ (f : File). equal_fold f.path "manifest.json" ≡ false) fs)
        (none_is_manifest equal_fold fs)
unfolding none_is_manifest
none_is_manifest-Accepts equal_fold [] = inl (tt, refl)
none_is_manifest-Accepts equal_fold (f ∷ fs) =
    ground (arith, matches_sentinel invalid_bundle, none_is_manifest-Accepts equal_fold fs)

Counts-count_role : (role : String) (fs : List File) → Counts role (count_role role fs) fs
unfolding count_role
Counts-count_role role [] = refl
Counts-count_role role (f ∷ fs) = elim (str_eq-Tests f.role role) [
  | inl (e, t) ↦ rw t (inl (count_role role fs, refl, e, Counts-count_role role fs))
  | inr (n, t) ↦ rw t (inr (n, Counts-count_role role fs))
]

Counts-unique :
    (role : String) (m n : ℕ) (fs : List File) → Counts role m fs → Counts role n fs → m ≡ n
Counts-unique role m n [] a b = a ∙ sym b
Counts-unique role m n (f ∷ fs) (inl (k, e, r, a)) (inl (l, d, q, b)) =
    e ∙ ap suc (Counts-unique role k l fs a b) ∙ sym d
Counts-unique role m n (f ∷ fs) (inl (k, e, r, a)) (inr (q, b)) = absurd (q r)
Counts-unique role m n (f ∷ fs) (inr (q, a)) (inl (l, d, r, b)) = absurd (q r)
Counts-unique role m n (f ∷ fs) (inr (q, a)) (inr (r, b)) = Counts-unique role m n fs a b

count_role-Tests :
    (role : String) (n : ℕ) (fs : List File) → Tests (Counts role n fs) (count_role role fs == n)
count_role-Tests role n fs =
    decided (count_role role fs) n (Counts-count_role role fs)
      (λ c. Counts-unique role _ _ fs (Counts-count_role role fs) c)
  where
    same : (a b : ℕ) → (a == b) ≡ true → a ≡ b
    same a b e = ground arith

    apart : (a b : ℕ) → (a == b) ≡ false → a ≡ b → ⊥
    apart a b e d = ground arith

    decided :
        (k n : ℕ)
        → Counts role k fs
        → (Counts role n fs → k ≡ n)
        → Tests (Counts role n fs) (k == n)
    decided k n c u = elim (Bool-cases (k == n)) [
      | inl t ↦ inl (subst (λ (x : ℕ). Counts role x fs) (same k n t) c, t)
      | inr t ↦ inr ((λ d. apart k n t (u d)), t)
    ]

validate_role_counts-Accepts :
    (files : List File) (rs : List (String × ℕ))
    → Accepts (All (λ ((r, n) : String × ℕ). Counts r n files) rs) (validate_role_counts files rs)
unfolding validate_role_counts
validate_role_counts-Accepts files [] = inl (tt, refl)
validate_role_counts-Accepts files ((r, n) ∷ rs) =
    need (count_role-Tests r n files) next validate_role_counts-Accepts files rs

none-HasRole :
    (path role : String) (fs : List File)
    → All (λ (g : File). g.path ≢ path) fs
    → HasRole path role fs
    → ⊥
none-HasRole path role [] a h = h
none-HasRole path role (f ∷ fs) (n, a) (inl h) = none-HasRole path role fs a h
none-HasRole path role (f ∷ fs) (n, a) (inr (e, _, _)) = n e

find_file-none :
    (path : String) (fs : List File)
    → find_file path fs ≡ none
    → All (λ (g : File). g.path ≢ path) fs
unfolding find_file
find_file-none path [] e = tt
find_file-none path (f ∷ fs) e = elim (Option-cases (find_file path fs)) [
  | inr (g, s) ↦ absurd (cc)
  | inl n ↦ elim (str_eq-Tests f.path path) [
    | inl (p, t) ↦ absurd (cc)
    | inr (p, t) ↦ (p, find_file-none path fs n)
  ]
]

find_file-some :
    (path : String) (fs : List File) {f : File}
    → find_file path fs ≡ some f
    → HasRole path f.role fs × ((role : String) → HasRole path role fs → f.role ≡ role)
unfolding find_file
find_file-some path [] e = absurd (cc)
find_file-some path (g ∷ fs) {f} e = elim (Option-cases (find_file path fs)) [
  | inr (h, s) ↦
      let d : h ≡ f = cc in
      let (a, b) = find_file-some path fs {f = f} (s ∙ ap some d) in
      (
        inl a,
        λ role r. elim r [
          | inl k ↦ b role k
          | inr (_, _, m) ↦ absurd (none-HasRole path f.role fs m a)
        ],
      )
  | inl n ↦ elim (str_eq-Tests g.path path) [
    | inl (p, t) ↦
        let d : g ≡ f = cc in
        let m = find_file-none path fs n in
        (
          inr (p, ap (λ (x : File). x.role) d, m),
          λ role r. elim r [
            | inl k ↦ absurd (none-HasRole path role fs m k)
            | inr (_, q, _) ↦ sym (ap (λ (x : File). x.role) d) ∙ q
          ],
        )
    | inr (p, t) ↦ absurd (cc)
  ]
]

require_role-Accepts :
    (path role : String) (fs : List File)
    → Accepts (HasRole path role fs) (require_role role (find_file path fs))
unfolding require_role
require_role-Accepts path role fs = elim (Option-cases (find_file path fs)) [
  | inl n ↦ rw n (
      inr (
        none-HasRole path role fs (find_file-none path fs n),
        bad_bundle,
        refl,
        matches_sentinel invalid_bundle,
      ))
  | inr (f, s) ↦
      let (a, b) = find_file-some path fs s in
      rw s (elim (need (str_eq-Tests f.role role)) [
        | inl (h, e) ↦ inl (subst (λ (r : String). HasRole path r fs) h a, e)
        | inr (n, x, e, k) ↦ inr ((λ h. n (b role h)), x, e, k)
      ])
]

validate_required-Accepts :
    (files : List File) (rs : List (String × String))
    → Accepts
        (All (λ ((p, role) : String × String). HasRole p role files) rs)
        (validate_required files rs)
unfolding validate_required
validate_required-Accepts files [] = inl (tt, refl)
validate_required-Accepts files ((p, role) ∷ rs) =
    require_role-Accepts p role files next validate_required-Accepts files rs

append-All : {A : Type 0} (P : A → Type 0) (xs ys : List A) → All P xs → All P ys → All P (xs ++ ys)
append-All P [] ys a b = b
append-All P (x ∷ xs) ys (p, a) b = (p, append-All P xs ys a b)

All-map :
    {A B : Type 0} (P : B → Type 0) (f : A → B) (xs : List A)
    → All P (map f xs) ↔ All (λ (x : A). P (f x)) xs
All-map P f [] = ((λ a. a), (λ a. a))
All-map P f (x ∷ xs) = let (g, h) = All-map P f xs in ((λ (p, a). (p, g a)), (λ (p, a). (p, h a)))

accepts_as : {P Q : Type 0} {o : Outcome (Unit {0})} → (P → Q) → (Q → P) → Accepts P o → Accepts Q o
accepts_as f g (inl (p, e)) = inl (f p, e)
accepts_as f g (inr (n, x, e, k)) = inr ((λ q. n (g q)), x, e, k)

-- `validateLayout` accepts exactly the manifests whose files do not include the manifest itself,
-- have each role as often as the manifest says, and have the right role at each path that it names;
-- it refuses any other as an invalid bundle.
pub validate_layout-Accepts :
    (equal_fold : String → String → Bool) {F : Type 0} (m : Manifest F)
    → Accepts (IsLayout equal_fold m) (validate_layout equal_fold m)
unfolding validate_layout
validate_layout-Accepts equal_fold {F} m =
    accepts_as
      (λ (n, ((c₁, (c₂, (c₃, (c₄, (c₅, (c₆, (c₇, _))))))), (r₁, (r₂, (r₃, (r₄, rest)))))).
        let (e, l) = All-append P external licenses rest in
        (
          n,
          (
            c₁,
            (
              c₂,
              (
                c₃,
                (
                  c₄,
                  (
                    c₅,
                    (
                      c₆,
                      (
                        c₇,
                        (
                          r₁,
                          (
                            r₂,
                            (
                              r₃,
                              (
                                r₄,
                                (
                                  (All-map P (λ p. (p, "model-external-data"))
                                        m.model.external_data).0
                                      e,
                                  (All-map P (λ (x : License). (x.path, "license"))
                                        m.provenance.licenses).0
                                      l,
                                ),
                              ),
                            ),
                          ),
                        ),
                      ),
                    ),
                  ),
                ),
              ),
            ),
          ),
        ))
      (λ (n, (c₁, (c₂, (c₃, (c₄, (c₅, (c₆, (c₇, (r₁, (r₂, (r₃, (r₄, (e, l))))))))))))). (
        n,
        (
          (c₁, (c₂, (c₃, (c₄, (c₅, (c₆, (c₇, tt))))))),
          (
            r₁,
            (
              r₂,
              (
                r₃,
                (
                  r₄,
                  append-All P external licenses
                      ((All-map P (λ p. (p, "model-external-data")) m.model.external_data).1 e)
                      ((All-map P (λ (x : License). (x.path, "license")) m.provenance.licenses).1
                        l),
                ),
              ),
            ),
          ),
        ),
      ))
      (none_is_manifest-Accepts equal_fold m.files
        next validate_role_counts-Accepts m.files (role_counts m)
        next validate_required-Accepts m.files (required m))
  where
    P : String × String → Type 0
    P (p, role) = HasRole p role m.files

    external : List (String × String)
    external = map (λ p. (p, "model-external-data")) m.model.external_data

    licenses : List (String × String)
    licenses = map (λ (x : License). (x.path, "license")) m.provenance.licenses
