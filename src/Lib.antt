-- ===== src/Lib.antt =====
-- A verification library for laya-go, which runs a local model that answers typed questions.
--
-- A program opens a `Runtime`, opens a `Model` from a bundle of files, and calls `Predict` with a
-- state and a list of questions, each a choice, a score or a noul (true or false). The model admits
-- one call at a time to its engine and queues the others up to a capacity. The engine turns the
-- questions into token ids, runs a session of ONNX Runtime on them, and formats the outputs as a
-- prediction, which the model checks against the questions. Closing goes the other way: a model
-- waits for its calls, closes its engine and leaves its runtime's registry; a runtime refuses to
-- close while models are open, and then gives back its lease of the native environment.
--
-- Which file models which part; the paths are from the repository's root.
--   Errors            errors.go, and `inferenceStageError` of preprocess.go: errors as values, with
--                     `errors.Is` as `matches`.
--   Question          question.go, and `validateQuestions` of model.go. Question.Valid says which pass.
--   State, Options    state.go, and `modelStateText` of preprocess.go; options.go.
--   Preprocess        preprocess.go: `normalizeQuestion` and `prepareItem`. Preprocess.Text has the
--                     two text routines, Preprocess.Layout and Preprocess.Budget the bounds, and
--                     Preprocess.Prepared says what an item is made of.
--   Batch             preprocess.go: `prepareInferenceBatch` and `collatePrepared`.
--   Output            postprocess.go, and `selectValue` of calibration.go.
--   Prediction        result.go: the results of a prediction and their validation.
--   Check             model.go: the check of a prediction against its questions.
--   Admission         model.go: `acquire`, `release`, `cancelWaiter` and `Close` of a `Model`.
--   Runtime           runtime.go: `beginOpen`, `finishOpen`, `unregister` and `Close`.
--   Native            native_lifecycle.go and native_run.go. Native.Coordinator and Native.Leases
--                     have the leases of the environment, Native.Opening the opening of a model's
--                     resources, Native.Engine their close, and Native.Run one call of a session.
--   Predict           model.go: `Predict`, `Choice`, `Score` and `Noul`, in front of any engine.
--                     Predict.Engine is `Predict` of the native engine in native_lifecycle.go, and
--                     Predict.Agreement puts the two together.
--   Bundle            internal/bundle. Bundle.Manifest has the parsed manifest, Bundle.Text and
--                     Bundle.Rules its validation, Bundle.Compatibility the supported values,
--                     Bundle.Verify the layout and the walk over the files, Bundle.Json the checks of
--                     a manifest's JSON fields, and Bundle.Parse and Bundle.Reading the functions
--                     `Parse` and `Verify` that put these together. Bundle.Valid says which manifests
--                     are valid, Bundle.Layout which have the required files, and
--                     Bundle.Compatibility.Budget which have supported values, and takes the supported
--                     lengths to the preprocessing of a question.
--   Calibration       calibration.go: the parsing of temperatures.
--   Source            internal/source. Source.Handle and Source.Reading have the use of an open bundle,
--                     Source.Directory its opening (source.go), Source.Copy the copy of a file
--                     (stage.go), Source.Materialize the publication of a bundle and Source.Recovery
--                     the removal of abandoned stages (materialize.go).
--   Adk               adklaya. Adk.Nodes has data.go, Adk.Accepted and Adk.Routing the acceptance of a
--                     choice and the routing node of routing.go.
--   Prelude, Tests    shared names and lemmas; concrete runs.
--
-- How the code becomes definitions. A function that returns `(A, error)` returns an `Outcome A`. The
-- code under a lock is one function from the fields before to the fields after, and Admission.Steps,
-- Runtime.Steps and Native.Leases let the calls that share an object interleave as a step relation
-- over these functions; a channel that is only closed is a flag. The text of an error message is
-- left out, its categories and its cause are kept. Where Go reads through a nil pointer or runs out
-- of an index, the definition says so or the comment on it says why it does not happen. Token ids,
-- lengths and positions are natural numbers; a subtraction that Go may take below 0 is compared
-- without it. Sums and counts are not cut to a machine word: they count tokens and calls in memory.
--
-- A `float64` is a type with the operations that the code uses (Prelude.Float), and no law about
-- them is used but in Adk.Accepted.Strict, where floats that are not NaN stand in an order: all else
-- that is proved of results holds for any arithmetic. The tokenizer, `json.Valid`,
-- `json.Compact`, `fs.ValidPath`, the session's outputs, and the answers of a context, of the native
-- environment and of a resource that is closed are arguments, and nothing is assumed of them, but
-- that a call of the environment that fails has changed nothing in the process, and, where a theorem
-- says so, that the tokenizer answers every text.
--
-- Every function is by recursion on its data, except two of Preprocess.Text: `decimal`,
-- on fuel `n + 1`, which is enough since each step divides by 10, and `replace_from`, which walks the
-- text and counts the characters of a match that it still has to skip; and the functions of
-- Bundle.Json, on fuel one more than the tokens, which is enough since each call takes a token or
-- returns: the theorem on them has no fuel in it.
--
-- A bundle is checked over data: the manifest as the JSON decoder gives it, the entries of `fs.WalkDir`
-- in order, and the reads of each file. The JSON in the manifest's bytes is a value, and its tokens are
-- those of `json.Decoder`. `fs.ValidPath`, `strings.ToLower`, `strings.EqualFold`, `time.Parse` and the
-- SHA-256 of some bytes are arguments.
--
-- A source of bundles is modelled over what the file system answers to each call, in the order of the
-- code, so that a theorem on all answers is one on all runs: the tests of whether two directories are
-- the same, the walks, the reads and the writes are data. `strings.TrimSpace`, `strings.TrimPrefix`,
-- `filepath.Join` and the name of a workflow's node are arguments; a node, and an open directory, is a
-- number. `Materialize` logs what it opens, closes and publishes; a deferred call comes after the part
-- that it encloses, and `joinMaterializeReturn` is applied to that part's result.
--
-- Not modelled: of internal/source, the links of a snapshot (snapshot.go), the directories that `Stage`
-- makes around its copies, and the making of the namespace (materialize.go); `Materialize` takes what
-- these give, and what the recovery of stages gives, as answers. Nor are modelled the check of
-- duplicate fields in the calibration file (calibration.go), the open and close of the native runtime
-- around `openVerified`, of adklaya the copies of options and edges and the workflow engine, the
-- bindings of ONNX Runtime and the tokenizer, and tools and examples, which are calls of other
-- libraries.
pub mod Prelude
pub mod Errors
pub mod Question
pub mod Prediction
pub mod Options
pub mod Admission
pub mod State
pub mod Preprocess
pub mod Batch
pub mod Runtime
pub mod Native
pub mod Output
pub mod Check
pub mod Predict
pub mod Bundle
pub mod Adk
pub mod Source
pub mod Calibration
mod Tests
