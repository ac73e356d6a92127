-- ===== src/Tests/Calibration.antt =====
-- A calibration file with a temperature out of bounds, one that is no number, and one for few options.
use laya_go.Prelude.{ℕ, ◌≡◌, refl, true, [], ◌∷◌, ◌<◌, arith}
use laya_go.Errors.{foreign, ok, err}
use laya_go.Output.{CalibrationConfig}
use laya_go.Preprocess.{normalize_choice}
use laya_go.Calibration.{
  Document, number, truth, structured, effective_temperature, numeric_temperature,
  parse_calibration_config, parse_calibration_value,
}
use laya_go.Tests.Data.{scaled, route, manifest}
use laya_go.Tests.Sample.{supported}

abbrev document : Document ℕ
document = record {
  size = 300;
  unique_fields = ok tt;
  decoded = ok (record {
    temperature = ok (number (ok 90000)) ∷ ok structured ∷ err (foreign 6) ∷ [];
    temperature_by_options = ("choice:2", ok (truth true)) ∷ [];
  });
  trailing = ok tt;
}

abbrev config : CalibrationConfig ℕ
config = record { by_qtype = 50000 ∷ 10000 ∷ 10000 ∷ []; by_options = ("choice:2", 10000) ∷ [] }

config_parsed : parse_calibration_config supported.calibration document ≡ ok config
unfolding parse_calibration_config parse_calibration_value effective_temperature numeric_temperature
config_parsed = refl

route_kind : (normalize_choice route manifest).qtype < 3
unfolding normalize_choice
route_kind = omega arith
