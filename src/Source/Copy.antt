-- ===== src/Source/Copy.antt =====
-- `copyStagedFile` and `writeAll` of stage.go: a file is copied in chunks, with its size and digest.
pub mod Whole
use laya_go.Prelude.{
  ℕ, String, str_eq, Bool, true, false, not, ◌&&◌, ◌||◌, Option, none, some, List, [], ◌∷◌, ◌++◌,
  length, take, drop, ltb, ◌==◌, if◌then◌else◌,
}
use laya_go.Prelude.Int.{ℤ, pos, pos_part, ltb_ℤ, eqb_ℤ}
use laya_go.Errors.{
  Category, Error, sentinel, stage_error, foreign, invalid_bundle, integrity, materialization,
  Outcome, ok, err, ◌>>=◌, ◌>>◌, refuse,
}
use laya_go.Bundle.Verify.{Kind, is_regular, bad_content}
use laya_go.Source.{still, canceled_as, as_kind, join_errors}
use laya_go.Source.Handle.{too_long}

-- The writes of a chunk: the context is done, a write fails after some bytes, or it takes some bytes.
pub data Writer : Type 0 where
  stopped : Category → Writer
  breaks : ℕ → Error → Writer
  takes : ℕ → Writer → Writer

-- A write without an error: its count is out of the data, or it took nothing, or more is written.
unfoldable pub after_take :
    Bool → Bool → List ℕ → List ℕ × Outcome (Unit {0}) → List ℕ × Outcome (Unit {0})
after_take true nothing taken rest = ([], err (foreign 9))
after_take false true taken rest = ([], err (foreign 10))
after_take false false taken rest = (taken ++ rest.0, rest.1)

-- What was written, and the result. Of the errors of Go's library, 9 stands for "invalid writer count",
-- which a count out of the data gives, and 10 is `io.ErrShortWrite`.
unfoldable pub write_all : List ℕ → Writer → List ℕ × Outcome (Unit {0})
unfolding after_take
write_all [] w = ([], ok tt)
write_all (b ∷ bytes) (stopped c) = ([], err (sentinel c))
write_all (b ∷ bytes) (breaks n e) =
    if ltb (length (b ∷ bytes)) n then ([], err (foreign 9)) else (take n (b ∷ bytes), err e)
write_all (b ∷ bytes) (takes n w) =
    after_take (ltb (length (b ∷ bytes)) n) (n == 0) (take n (b ∷ bytes))
      (write_all (drop n (b ∷ bytes)) w)

-- The reads of a file to its end, each with the writes of its bytes: the context is done before or after
-- a read, a count is out of the buffer, a read ends or fails the file, or there are more.
pub data Chunks : Type 0 where
  halted : Category → Chunks
  miscounts : Chunks
  ends : List ℕ → Writer → Chunks
  fails : List ℕ → Writer → Error → Chunks
  gives : List ℕ → Writer → Chunks → Chunks

-- After the write of a chunk that is not too long, what comes next.
unfoldable pub after_write :
    Bool → List ℕ → Outcome (Unit {0}) → List ℕ × Outcome (List ℕ) → List ℕ × Outcome (List ℕ)
after_write true written result rest = ([], err bad_content)
after_write false written (ok _) rest = (written ++ rest.0, rest.1)
after_write false written (err e) rest = (written, err (stage_error materialization e))

unfoldable pub write_chunk :
    ℕ → List ℕ → List ℕ → Writer → List ℕ × Outcome (List ℕ) → List ℕ × Outcome (List ℕ)
unfolding write_all after_write
write_chunk limit done bytes w rest =
    let written = write_all bytes w in
    after_write (too_long limit done bytes) written.0 written.1 rest

-- The loop of `copyStagedFile`, with the bytes that were read so far: those that it writes, and all that
-- were read. Of the errors of Go's library, 0 is `io.ErrNoProgress`, and 8 stands for "invalid reader
-- count".
unfoldable pub copy_chunks : ℕ → List ℕ → Chunks → List ℕ × Outcome (List ℕ)
unfolding write_chunk
copy_chunks limit done (halted c) = ([], err (canceled_as c))
copy_chunks limit done miscounts = ([], err (stage_error integrity (foreign 8)))
copy_chunks limit done (ends bytes w) = write_chunk limit done bytes w ([], ok (done ++ bytes))
copy_chunks limit done (fails bytes w e) =
    write_chunk limit done bytes w ([], err (stage_error integrity e))
copy_chunks limit done (gives [] w s) = ([], err (stage_error integrity (foreign 0)))
copy_chunks limit done (gives (b ∷ bytes) w s) =
    write_chunk limit done (b ∷ bytes) w (copy_chunks limit (done ++ (b ∷ bytes)) s)

-- `make_directory` is `MkdirAll` of the file's directory, which is not called for ".".
pub record Answers : Type 0 where
  pub open_input : Outcome (Unit {0})
  pub stat : Outcome (Kind × ℤ)
  pub make_directory : Outcome (Unit {0})
  pub create : Outcome (Unit {0})
  pub chunks : Chunks
  pub sync : Outcome (Unit {0})
  pub close_output : Outcome (Unit {0})
  pub close_input : Outcome (Unit {0})

-- An expected size below 0 is none.
pub record Expected : Type 0 where
  pub size : ℤ
  pub limit : ℤ
  pub digest : String

-- Regular, and of a size that is not negative, within the limit and as expected.
unfoldable pub check_size : Expected → Kind × ℤ → Outcome (Unit {0})
check_size x info = do
  refuse (not (is_regular info.0)) (sentinel invalid_bundle)
  refuse
      (ltb_ℤ info.1 (pos 0)
        || ltb_ℤ x.limit info.1
        || (not (ltb_ℤ x.size (pos 0)) && not (eqb_ℤ info.1 x.size)))
      bad_content

-- What was read has the expected size and digest.
unfoldable pub check_content : (List ℕ → String) → Expected → List ℕ → Outcome (Unit {0})
check_content sha256 x got = do
  refuse (not (ltb_ℤ x.size (pos 0)) && not (eqb_ℤ (pos (length got)) x.size)) bad_content
  refuse (not (str_eq (sha256 got) x.digest)) bad_content

-- Before the staged file is created.
unfoldable pub begin_copy : Answers → Expected → Outcome (Unit {0})
unfolding check_size
begin_copy a x = do
  info ← as_kind invalid_bundle a.stat
  check_size x info
  as_kind materialization a.make_directory
  as_kind materialization a.create

-- With the staged file: what is in it, and the result.
unfoldable pub fill_copy : (List ℕ → String) → Answers → Expected → List ℕ × Outcome (Unit {0})
unfolding copy_chunks check_content
fill_copy sha256 a x =
    let copied = copy_chunks (pos_part x.limit) [] a.chunks in
    let result = copied.1 >>= λ got. check_content sha256 x got >> as_kind materialization a.sync in
    (copied.0, join_errors result (as_kind materialization a.close_output))

-- The results of opening the source, of what comes before the staged file, of the file, and of closing
-- the source.
unfoldable pub end_copy :
    Outcome (Unit {0})
    → Outcome (Unit {0})
    → List ℕ × Outcome (Unit {0})
    → Outcome (Unit {0})
    → Option (List ℕ) × Outcome (Unit {0})
end_copy (err e) begun filled closed = (none, err e)
end_copy (ok _) (err e) filled closed = (none, join_errors (err e) closed)
end_copy (ok _) (ok _) filled closed = (some filled.0, join_errors filled.1 closed)

-- The content of the staged file, if it was created, and the result. `sha256` is the digest in
-- hexadecimal digits.
unfoldable pub copy_staged_file :
    (List ℕ → String) → Option Category → Answers → Expected → Option (List ℕ) × Outcome (Unit {0})
unfolding begin_copy fill_copy end_copy
copy_staged_file sha256 context a x =
    end_copy (still context >> as_kind invalid_bundle a.open_input) (begin_copy a x)
      (fill_copy sha256 a x) (as_kind integrity a.close_input)
