-- ===== src/Source/Copy/Whole.antt =====
-- What `copyStagedFile` writes.
use laya_go.Prelude.{
  ℕ, zero, suc, ◌≤◌, ◌≡◌, ◌⊎◌, inl, inr, refl, sym, subst, ap, ◌∙◌, String, str_eq, eq_iff, Bool,
  true, false, not, ◌&&◌, Option, none, some, List, [], ◌∷◌, ◌++◌, append_assoc, append-nil, length,
  take, drop, ltb, ◌==◌, arith,
}
use laya_go.Prelude.Int.{pos, pos_part, ltb_ℤ, eqb_ℤ}
use laya_go.Errors.{
  Category, invalid_bundle, materialization, integrity, Outcome, ok, err, ◌>>◌, refuse,
  ok_injective,
}
use laya_go.Output.Matching.{bind-eq-ok}
use laya_go.Bundle.Verify.{bad_content}
use laya_go.Source.{as_kind, join_errors, still}
use laya_go.Source.Handle.{too_long}
use laya_go.Source.Reading.{kept, as_kind-ok}
use laya_go.Source.Copy.{
  Writer, stopped, breaks, takes, after_take, write_all, Chunks, halted, miscounts, ends, fails,
  gives, after_write, write_chunk, copy_chunks, Answers, Expected, check_content, begin_copy,
  fill_copy, end_copy, copy_staged_file,
}

take-drop : (n : ℕ) (xs : List ℕ) → take n xs ++ drop n xs ≡ xs
take-drop zero xs = refl
take-drop (suc n) [] = refl
take-drop (suc n) (x ∷ xs) = ap (λ ys. x ∷ ys) (take-drop n xs)

after_take-ok :
    (over nothing : Bool) (taken : List ℕ) (rest : List ℕ × Outcome (Unit {0})) {u : Unit {0}}
    → (after_take over nothing taken rest).1 ≡ ok u
    → (rest.1 ≡ ok u) × ((after_take over nothing taken rest).0 ≡ taken ++ rest.0)
unfolding after_take
after_take-ok true nothing taken rest e = cc
after_take-ok false true taken rest e = cc
after_take-ok false false taken rest e = (e, refl)

-- A write that succeeds has written all of the chunk.
write_all-Whole :
    (bytes : List ℕ) (w : Writer) {u : Unit {0}}
    → (write_all bytes w).1 ≡ ok u
    → (write_all bytes w).0 ≡ bytes
unfolding write_all
write_all-Whole [] w e = refl
write_all-Whole (b ∷ bytes) (stopped c) e = cc
write_all-Whole (b ∷ bytes) (breaks n x) e = ground arith
write_all-Whole (b ∷ bytes) (takes n w) e =
    let (r, f) =
      after_take-ok (ltb (length (b ∷ bytes)) n) (n == 0) (take n (b ∷ bytes))
        (write_all (drop n (b ∷ bytes)) w) e in
    f
    ∙ ap (λ ys. take n (b ∷ bytes) ++ ys) (write_all-Whole (drop n (b ∷ bytes)) w r)
    ∙ take-drop n (b ∷ bytes)

-- The bytes of chunks that come to their end.
abbrev pub bytes_of : Chunks → Option (List ℕ)
bytes_of (halted c) = none
bytes_of miscounts = none
bytes_of (ends bytes w) = some bytes
bytes_of (fails bytes w e) = none
bytes_of (gives [] w s) = none
bytes_of (gives (b ∷ bytes) w s) = elim (bytes_of s) [
  | none ↦ none
  | some rest ↦ some ((b ∷ bytes) ++ rest)
]

after_write-ok :
    (over : Bool) (written : List ℕ) (o : Outcome (Unit {0})) (rest : List ℕ × Outcome (List ℕ))
    {got : List ℕ}
    → (after_write over written o rest).1 ≡ ok got
    → (over ≡ false)
      × (o ≡ ok tt)
      × (rest.1 ≡ ok got)
      × ((after_write over written o rest).0 ≡ written ++ rest.0)
unfolding after_write
after_write-ok true written o rest e = cc
after_write-ok false written (ok _) rest e = (refl, refl, e, refl)
after_write-ok false written (err x) rest e = cc

-- A chunk that succeeds is within the limit and written, and what comes after it succeeds.
write_chunk-Whole :
    (limit : ℕ) (done bytes : List ℕ) (w : Writer) (rest : List ℕ × Outcome (List ℕ)) {got : List ℕ}
    → length done ≤ limit
    → (write_chunk limit done bytes w rest).1 ≡ ok got
    → (length (done ++ bytes) ≤ limit)
      × (rest.1 ≡ ok got)
      × ((write_chunk limit done bytes w rest).0 ≡ bytes ++ rest.0)
unfolding write_chunk
write_chunk-Whole limit done bytes w rest h e =
    let (t, o, r, f) =
      after_write-ok (too_long limit done bytes) (write_all bytes w).0 (write_all bytes w).1 rest
        e in
    (
      kept limit done bytes {u = tt} h (ap (λ b. refuse b bad_content) t),
      r,
      f ∙ ap (λ ys. ys ++ rest.0) (write_all-Whole bytes w o),
    )

-- Chunks that are copied come to their end within the limit, and all of them is written.
copy_chunks-Whole :
    (limit : ℕ) (s : Chunks) (done got : List ℕ)
    → length done ≤ limit
    → (copy_chunks limit done s).1 ≡ ok got
    → (bytes : List ℕ) × (bytes_of s ≡ some bytes)
      × (got ≡ done ++ bytes)
      × (length got ≤ limit)
      × ((copy_chunks limit done s).0 ≡ bytes)
unfolding copy_chunks
copy_chunks-Whole limit (halted c) done got h e = cc
copy_chunks-Whole limit miscounts done got h e = cc
copy_chunks-Whole limit (ends bytes w) done got h e =
    let (l, r, f) = write_chunk-Whole limit done bytes w ([], ok (done ++ bytes)) h e in
    (
      bytes,
      refl,
      sym (ok_injective r),
      subst (λ (x : List ℕ). length x ≤ limit) (ok_injective r) l,
      f ∙ append-nil bytes,
    )
copy_chunks-Whole limit (fails bytes w x) done got h e =
    let (l, r, f) = write_chunk-Whole limit done bytes w _ h e in cc
copy_chunks-Whole limit (gives [] w s) done got h e = cc
copy_chunks-Whole limit (gives (b ∷ bytes) w s) done got h e =
    let (l, r, f) =
      write_chunk-Whole limit done (b ∷ bytes) w (copy_chunks limit (done ++ (b ∷ bytes)) s) h e in
    let (rest, k, g, m, v) = copy_chunks-Whole limit s (done ++ (b ∷ bytes)) got l r in
    (
      (b ∷ bytes) ++ rest,
      rw k refl,
      g ∙ append_assoc done (b ∷ bytes) rest,
      m,
      f ∙ ap (λ ys. (b ∷ bytes) ++ ys) v,
    )

join_errors-ok : (a b : Outcome (Unit {0})) → join_errors a b ≡ ok tt → (a ≡ ok tt) × (b ≡ ok tt)
join_errors-ok (ok _) b e = (refl, e)
join_errors-ok (err x) (ok _) e = cc
join_errors-ok (err x) (err y) e = cc

-- The bytes have the expected size, if there is one, and digest.
abbrev pub IsExpected : (List ℕ → String) → Expected → List ℕ → Type 0
IsExpected sha256 x bytes =
    ((ltb_ℤ x.size (pos 0) ≡ true) ⊎ (eqb_ℤ (pos (length bytes)) x.size ≡ true))
    × (sha256 bytes ≡ x.digest)

check_content-IsExpected :
    (sha256 : List ℕ → String) (x : Expected) (got : List ℕ) {u : Unit {0}}
    → check_content sha256 x got ≡ ok u
    → IsExpected sha256 x got
unfolding check_content
check_content-IsExpected sha256 x got e =
    let (_, a, f) =
      bind-eq-ok
        (refuse (not (ltb_ℤ x.size (pos 0)) && not (eqb_ℤ (pos (length got)) x.size)) bad_content) _
        e in
    (
      sized (ltb_ℤ x.size (pos 0)) (eqb_ℤ (pos (length got)) x.size) a,
      (eq_iff (sha256 got) x.digest).0 (holds (str_eq (sha256 got) x.digest) f),
    )
  where
    sized :
        (a b : Bool) {u : Unit {0}}
        → refuse (not a && not b) bad_content ≡ ok u
        → (a ≡ true) ⊎ (b ≡ true)
    sized true b e = inl refl
    sized false true e = inr refl
    sized false false e = cc

    holds : (a : Bool) {u : Unit {0}} → refuse (not a) bad_content ≡ ok u → a ≡ true
    holds true e = refl
    holds false e = cc

fill_copy-Whole :
    (sha256 : List ℕ → String) (a : Answers) (x : Expected)
    → (fill_copy sha256 a x).1 ≡ ok tt
    → (bytes_of a.chunks ≡ some (fill_copy sha256 a x).0)
      × (length (fill_copy sha256 a x).0 ≤ pos_part x.limit)
      × IsExpected sha256 x (fill_copy sha256 a x).0
      × (a.close_output ≡ ok tt)
unfolding fill_copy
fill_copy-Whole sha256 a x e =
    let (r, out) = join_errors-ok _ _ e in
    let (got, c, f) = bind-eq-ok (copy_chunks (pos_part x.limit) [] a.chunks).1 _ r in
    let (_, k, _) = bind-eq-ok (check_content sha256 x got) _ f in
    let (bytes, b, g, l, w) =
      copy_chunks-Whole (pos_part x.limit) a.chunks [] got (omega arith) c in
    let same : (copy_chunks (pos_part x.limit) [] a.chunks).0 ≡ got = w ∙ sym g in
    rw same (
      b ∙ ap some (sym g),
      l,
      check_content-IsExpected sha256 x got k,
      as_kind-ok materialization a.close_output out,
    )

end_copy-ok :
    (opened begun : Outcome (Unit {0})) (filled : List ℕ × Outcome (Unit {0}))
    (closed : Outcome (Unit {0}))
    → (end_copy opened begun filled closed).1 ≡ ok tt
    → (opened ≡ ok tt)
      × (filled.1 ≡ ok tt)
      × (closed ≡ ok tt)
      × ((end_copy opened begun filled closed).0 ≡ some filled.0)
unfolding end_copy
end_copy-ok (err x) begun filled closed e = cc
end_copy-ok (ok _) (err x) filled closed e = let (n, _) = join_errors-ok (err x) closed e in cc
end_copy-ok (ok _) (ok _) filled closed e =
    let (f, c) = join_errors-ok filled.1 closed e in (refl, f, c, refl)

-- A copy that succeeds has read its source to the end, and the staged file has exactly these bytes, which
-- are within the limit and have the expected size, if there is one, and the expected digest; and the
-- context was live, and both files were closed without an error.
pub copy_staged_file-Whole :
    (sha256 : List ℕ → String) (context : Option Category) (a : Answers) (x : Expected)
    → (copy_staged_file sha256 context a x).1 ≡ ok tt
    → (bytes : List ℕ) × ((copy_staged_file sha256 context a x).0 ≡ some bytes)
      × (bytes_of a.chunks ≡ some bytes)
      × (length bytes ≤ pos_part x.limit)
      × IsExpected sha256 x bytes
      × (context ≡ none)
      × (a.close_input ≡ ok tt)
      × (a.close_output ≡ ok tt)
unfolding copy_staged_file
copy_staged_file-Whole sha256 context a x e =
    let (o, f, c, w) =
      end_copy-ok (still context >> as_kind invalid_bundle a.open_input) (begin_copy a x)
        (fill_copy sha256 a x) (as_kind integrity a.close_input) e in
    let (b, l, k, out) = fill_copy-Whole sha256 a x f in
    (
      (fill_copy sha256 a x).0,
      w,
      b,
      l,
      k,
      live context _ o,
      as_kind-ok integrity a.close_input c,
      out,
    )
  where
    live :
        (c : Option Category) (after : Outcome (Unit {0})) {u : Unit {0}}
        → still c >> after ≡ ok u
        → c ≡ none
    live none after e = refl
    live (some c) after e = cc
