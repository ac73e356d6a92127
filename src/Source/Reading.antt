-- ===== src/Source/Reading.antt =====
-- What `ReadFile` returns, and that a closed handle gives nothing.
use laya_go.Prelude.{
  ℕ, ◌≤◌, ◌≡◌, ◌↔◌, inl, inr, refl, sym, subst, ap, ◌∙◌, String, Bool, true, false, not, ◌||◌,
  Option, none, some, Option-cases, List, [], ◌∷◌, ◌++◌, append_assoc, length, length-append, Has,
  arith,
}
use laya_go.Prelude.Int.{ℤ, pos, pos_part, ltb_ℤ}
use laya_go.Errors.{Category, invalid_bundle, Outcome, ok, err, refuse, ok_injective}
use laya_go.Question.Valid.{seen_before-Has}
use laya_go.Output.Matching.{bind-eq-ok}
use laya_go.Bundle.Rules.{Library, bad_bundle}
use laya_go.Bundle.Verify.{Kind, directory, regular, other, is_regular, bad_content}
use laya_go.Source.{as_kind, valid_logical_path}
use laya_go.Source.Handle.{
  Handle, is_empty, require_declared, Stream, stopped, miscounts, ends, fails, gives, too_long,
  read_within, File, read_file,
}

-- The bytes of a stream that comes to its end.
abbrev pub bytes_of : Stream → Option (List ℕ)
bytes_of (stopped c) = none
bytes_of miscounts = none
bytes_of (ends bytes) = some bytes
bytes_of (fails bytes e) = none
bytes_of (gives [] s) = none
bytes_of (gives (b ∷ bytes) s) = elim (bytes_of s) [
  | none ↦ none
  | some rest ↦ some ((b ∷ bytes) ++ rest)
]

pub kept :
    (limit : ℕ) (done bytes : List ℕ) {u : Unit {0}}
    → length done ≤ limit
    → refuse (too_long limit done bytes) bad_content ≡ ok u
    → length (done ++ bytes) ≤ limit
kept limit done [] h e = let n = length-append done [] in ground arith
kept limit done (b ∷ bytes) h e = ground arith

fits :
    (limit : ℕ) (done bytes : List ℕ)
    → length (done ++ bytes) ≤ limit
    → too_long limit done bytes ≡ false
fits limit done [] h = refl
fits limit done (b ∷ bytes) h = ground arith

read_within-ok :
    (limit : ℕ) (s : Stream) (done got : List ℕ)
    → length done ≤ limit
    → read_within limit done s ≡ ok got
    → (bytes : List ℕ) × (bytes_of s ≡ some bytes) × (got ≡ done ++ bytes) × (length got ≤ limit)
unfolding read_within
read_within-ok limit (stopped c) done got h e = cc
read_within-ok limit miscounts done got h e = cc
read_within-ok limit (ends bytes) done got h e =
    let (_, k, f) = bind-eq-ok (refuse (too_long limit done bytes) bad_content) _ e in
    (
      bytes,
      refl,
      sym (ok_injective f),
      subst (λ (l : List ℕ). length l ≤ limit) (ok_injective f) (kept limit done bytes h k),
    )
read_within-ok limit (fails bytes x) done got h e =
    let (_, k, f) = bind-eq-ok (refuse (too_long limit done bytes) bad_content) _ e in cc
read_within-ok limit (gives [] s) done got h e = cc
read_within-ok limit (gives (b ∷ bytes) s) done got h e =
    let (_, k, f) = bind-eq-ok (refuse (too_long limit done (b ∷ bytes)) bad_content) _ e in
    let (rest, r, g, l) =
      read_within-ok limit s (done ++ (b ∷ bytes)) got (kept limit done (b ∷ bytes) h k) f in
    ((b ∷ bytes) ++ rest, rw r refl, g ∙ append_assoc done (b ∷ bytes) rest, l)

read_within-bytes :
    (limit : ℕ) (s : Stream) (done bytes : List ℕ)
    → bytes_of s ≡ some bytes
    → length (done ++ bytes) ≤ limit
    → read_within limit done s ≡ ok (done ++ bytes)
unfolding read_within
read_within-bytes limit (stopped c) done bytes e h = cc
read_within-bytes limit miscounts done bytes e h = cc
read_within-bytes limit (ends b) done bytes e h =
    let d : b ≡ bytes = cc in
    rw (sym d, fits limit done b (subst (λ (l : List ℕ). length (done ++ l) ≤ limit) (sym d) h))
      refl
read_within-bytes limit (fails b x) done bytes e h = cc
read_within-bytes limit (gives [] s) done bytes e h = cc
read_within-bytes limit (gives (b ∷ bs) s) done bytes e h = elim (Option-cases (bytes_of s)) [
  | inl n ↦ absurd (ground arith)
  | inr (rest, r) ↦
      let d : (b ∷ bs) ++ rest ≡ bytes = ground arith in
      let l = subst (λ (l : List ℕ). length (done ++ l) ≤ limit) (sym d) h in
      rw (sym d, fits limit done (b ∷ bs) (shorter done (b ∷ bs) rest limit l))
        (read_within-bytes limit s (done ++ (b ∷ bs)) rest r
            (subst (λ (l : List ℕ). length l ≤ limit) (sym (append_assoc done (b ∷ bs) rest)) l)
          ∙ ap ok (append_assoc done (b ∷ bs) rest))
]
  where
    shorter :
        (xs ys zs : List ℕ) (limit : ℕ)
        → length (xs ++ (ys ++ zs)) ≤ limit
        → length (xs ++ ys) ≤ limit
    shorter xs ys zs limit h =
        omega (arith, length-append xs (ys ++ zs), length-append ys zs, length-append xs ys)

-- A handle that is open and declares the path.
abbrev pub Declares : Handle → String → Type 0
Declares h path =
    (h.closed ≡ false) × (is_empty h.roots ≡ false) × (h.has_fs ≡ true) × Has path h.allowed

require_declared-ok :
    (h : Handle) (path : String) → (require_declared h path ≡ ok tt) ↔ Declares h path
unfolding require_declared
require_declared-ok h path = ground (arith, seen_before-Has h.allowed path)

-- A regular file of a size from 0 to the limit, whose bytes come to an end within the limit.
abbrev pub IsWithin : ℤ → Outcome File → List ℕ → Type 0
IsWithin limit opened got =
    (f : File) × (opened ≡ ok f)
    × ((n : ℤ) × (f.stat ≡ ok (regular, n)) × (ltb_ℤ n (pos 0) ≡ false) × (ltb_ℤ limit n ≡ false))
    × (bytes_of f.stream ≡ some got)
    × (length got ≤ pos_part limit)

pub as_kind-ok : {A : Type 0} (k : Category) (o : Outcome A) {a : A} → as_kind k o ≡ ok a → o ≡ ok a
as_kind-ok k (ok b) e = e
as_kind-ok k (err x) e = cc

sized :
    (k : Kind) (n limit : ℤ) {u : Unit {0}}
    → refuse (not (is_regular k) || ltb_ℤ n (pos 0) || ltb_ℤ limit n) bad_bundle ≡ ok u
    → ((k ≡ regular) × (ltb_ℤ n (pos 0) ≡ false) × (ltb_ℤ limit n ≡ false))
sized directory n limit e = cc
sized other n limit e = cc
sized regular n limit e = ground arith

-- `ReadFile` returns some bytes exactly if the context is live, the path is a logical path and the limit
-- not negative, the handle is open and declares the path, and the file opens as a regular file of a size
-- up to the limit, reads to its end without an error, and these are all its bytes, up to the limit.
pub read_file-Exact :
    (lib : Library) (context : Option Category) (h : Handle) (open_file : String → Outcome File)
    (path : String) (limit : ℤ) (got : List ℕ)
    → (read_file lib context (some h) open_file path limit ≡ ok got) ↔ (
        (context ≡ none)
        × (valid_logical_path lib path ≡ true)
        × (ltb_ℤ limit (pos 0) ≡ false)
        × Declares h path
        × IsWithin limit (open_file path) got)
unfolding read_file
read_file-Exact lib (some c) h open_file path limit got = ((λ e. cc), (λ (e, _, _, _, _). cc))
read_file-Exact lib none h open_file path limit got = (
  λ e.
      let (_, a, e₁) =
        bind-eq-ok (refuse (not (valid_logical_path lib path) || ltb_ℤ limit (pos 0)) bad_bundle) _
          e in
      let (_, b, e₂) = bind-eq-ok (require_declared h path) _ e₁ in
      let (f, c, e₃) = bind-eq-ok (as_kind invalid_bundle (open_file path)) _ e₂ in
      let (info, d, e₄) = bind-eq-ok (as_kind invalid_bundle f.stat) _ e₃ in
      let (_, k, e₅) =
        bind-eq-ok
          (refuse (not (is_regular info.0) || ltb_ℤ info.1 (pos 0) || ltb_ℤ limit info.1)
            bad_bundle)
          _ e₄ in
      let (r, low, high) = sized info.0 info.1 limit k in
      let (bytes, s, g, l) = read_within-ok (pos_part limit) f.stream [] got (omega arith) e₅ in
      let (v, n) = logical (valid_logical_path lib path) (ltb_ℤ limit (pos 0)) a in
      (
        refl,
        v,
        n,
        (require_declared-ok h path).0 b,
        (
          f,
          as_kind-ok invalid_bundle (open_file path) c,
          (
            info.1,
            as_kind-ok invalid_bundle f.stat d ∙ ap (λ (x : Kind). ok (x, info.1)) r,
            low,
            high,
          ),
          s ∙ ap some (sym g),
          l,
        ),
      ),
  λ (_, v, n, d, (f, o, (size, s, low, high), b, l)).
      rw (v, n, (require_declared-ok h path).1 d, o, s, low, high)
        (read_within-bytes (pos_part limit) f.stream [] got b l),
)
  where
    logical :
        (a b : Bool) {u : Unit {0}}
        → refuse (not a || b) bad_bundle ≡ ok u
        → (a ≡ true) × (b ≡ false)
    logical a b e = ground arith
