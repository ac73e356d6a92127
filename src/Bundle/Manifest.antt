-- ===== src/Bundle/Manifest.antt =====
-- manifest.go: the parsed manifest of a bundle. Go's `int` and `int64` are signed numbers; a
-- `float64` is abstract.
use laya_go.Prelude.{String, List}
use laya_go.Prelude.Int.{ℤ, pos_part}
use laya_go.Preprocess

pub record BundleIdentity : Type 0 where
  pub id : String
  pub version : String

pub record SourceModel : Type 0 where
  pub id : String
  pub revision : String

pub record Sdk : Type 0 where
  pub repository : String
  pub revision : String
  pub version : String

pub record ProfileIdentity : Type 0 where
  pub id : String
  pub sha256 : String

pub record Exporter : Type 0 where
  pub name : String
  pub version : String
  pub source_sha256 : String
  pub git_revision : String

pub record Lock : Type 0 where
  pub path : String
  pub sha256 : String

pub record License : Type 0 where
  pub component : String
  pub spdx : String
  pub path : String

pub record Provenance : Type 0 where
  pub source_model : SourceModel
  pub sdk : Sdk
  pub profile : ProfileIdentity
  pub exporter : Exporter
  pub lock : Lock
  pub created_at : String
  pub source_date_epoch : ℤ
  pub redistribution : String
  pub licenses : List License

pub record QTypes : Type 0 where
  pub choice : ℤ
  pub score : ℤ
  pub noul : ℤ

pub record Preprocessing : Type 0 where
  pub version : ℤ
  pub max_len : ℤ
  pub head_max_len : ℤ
  pub option_max_len : ℤ
  pub head_reserve : ℤ
  pub truncation_side : String
  pub qtypes : QTypes

pub record TensorDescriptor : Type 0 where
  pub name : String
  pub dtype : String
  pub dimensions : List String

pub record Model : Type 0 where
  pub path : String
  pub format : String
  pub opset : ℤ
  pub precision : String
  pub external_data : List String
  pub inputs : List TensorDescriptor
  pub outputs : List TensorDescriptor

pub record SpecialTokens : Type 0 where
  pub cls : ℤ
  pub sep : ℤ
  pub mask : ℤ
  pub pad : ℤ

pub record Tokenizer : Type 0 where
  pub json_path : String
  pub config_path : String
  pub special_tokens : SpecialTokens

pub record Action : Type 0 where
  pub index : ℤ
  pub id : String

pub record Calibration (F : Type 0) : Type 0 where
  pub config_path : String
  pub temperature_min : F
  pub temperature_max : F
  pub invalid_temperature : F
  pub selection_order : List String
  pub actions : List Action

pub record Runtime : Type 0 where
  pub engine : String
  pub minimum_version : String
  pub maximum_exclusive : String
  pub execution_providers : List String

pub record File : Type 0 where
  pub role : String
  pub path : String
  pub size : ℤ
  pub sha256 : String

pub record Manifest (F : Type 0) : Type 0 where
  pub schema_version : ℤ
  pub bundle : BundleIdentity
  pub provenance : Provenance
  pub preprocessing : Preprocessing
  pub model : Model
  pub tokenizer : Tokenizer
  pub calibration : Calibration F
  pub runtime : Runtime
  pub files : List File

-- What preprocessing reads of a manifest, with a number that is not negative for each `int`.
abbrev pub preprocessing_of : {F : Type 0} → Manifest F → Preprocess.Manifest
preprocessing_of m = record {
  max_len = pos_part m.preprocessing.max_len;
  head_max_len = pos_part m.preprocessing.head_max_len;
  option_max_len = pos_part m.preprocessing.option_max_len;
  head_reserve = pos_part m.preprocessing.head_reserve;
  choice_qtype = pos_part m.preprocessing.qtypes.choice;
  score_qtype = pos_part m.preprocessing.qtypes.score;
  noul_qtype = pos_part m.preprocessing.qtypes.noul;
  cls = pos_part m.tokenizer.special_tokens.cls;
  sep = pos_part m.tokenizer.special_tokens.sep;
  mask = pos_part m.tokenizer.special_tokens.mask;
  pad = pos_part m.tokenizer.special_tokens.pad;
}
