-- ===== src/Options.antt =====
-- options.go: the options of a model, and their validation.
use laya_go.Prelude.{◌≡◌, String, str_eq, Bool, true, false, ◌&&◌, not, ◌⊎◌, arith}
use laya_go.Prelude.Int.{ℤ, pos, neg_part, ltb_ℤ}
use laya_go.Errors.{Error, sentinel, invalid_config, Outcome, ◌>>◌, refuse, Decides}

-- A `uint8`; `unknown_policy` is any value but the two constants.
pub data TruncationPolicy : Type 0 where
  reject_overflow truncate_overflow unknown_policy : TruncationPolicy

pub record ModelOptions : Type 0 where
  pub queue_capacity : ℤ
  -- Nanoseconds.
  pub max_queue_wait : ℤ
  pub input_token_limit : ℤ
  pub truncation : TruncationPolicy

pub record FsModelOptions : Type 0 where
  pub root : String
  pub work_dir : String
  pub model_options : ModelOptions

abbrev pub bad_config : Error
bad_config = sentinel invalid_config

abbrev pub is_known : TruncationPolicy → Bool
is_known reject_overflow = true
is_known truncate_overflow = true
is_known unknown_policy = false

unfoldable pub validate_options : ModelOptions → Outcome (Unit {0})
validate_options o = do
  refuse (ltb_ℤ o.queue_capacity (pos 0)) bad_config
  refuse (ltb_ℤ o.max_queue_wait (pos 0)) bad_config
  refuse (ltb_ℤ o.input_token_limit (pos 0)) bad_config
  refuse (not (is_known o.truncation)) bad_config

-- `valid_path` is `fs.ValidPath` of the standard library.
unfoldable pub validate_fs_options : (String → Bool) → FsModelOptions → Outcome (Unit {0})
validate_fs_options valid_path o = do
  validate_options o.model_options
  refuse (not (str_eq o.root "") && not (valid_path o.root)) bad_config
  refuse (str_eq o.work_dir "") bad_config

pub record IsOptions (o : ModelOptions) : Type 0 where
  pub capacity : neg_part o.queue_capacity ≡ 0
  pub wait : neg_part o.max_queue_wait ≡ 0
  pub limit : neg_part o.input_token_limit ≡ 0
  pub policy : (o.truncation ≡ reject_overflow) ⊎ (o.truncation ≡ truncate_overflow)

pub validate_options-Decides :
    (o : ModelOptions) → Decides (IsOptions o) (validate_options o) bad_config
unfolding validate_options
validate_options-Decides o = ground arith
