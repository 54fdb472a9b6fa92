-- ===== src/Tests/StartRuns.antt =====
-- A start of main.go with two threads and a configuration whose file has a block `gc` only.
use nomad_ondemand_scaler.Prelude.{
  ℕ, ◌*◌, ◌≤◌, ◌≡◌, ◌↔◌, String, Bool, true, false, Option, none, some, [], ◌∷◌,
}
use nomad_ondemand_scaler.Prelude.Int.{ℤ, pos}
use nomad_ondemand_scaler.Config.{
  Config, Opts, with_defaults, decode_variable, duration, an_int, nanoseconds,
}
use nomad_ondemand_scaler.Config.Durations.{decode_variable-exact}
use nomad_ondemand_scaler.Start.{fine, Calls}

abbrev nothing_set : Config
nothing_set = record {
  pool_config = "";
  gc = [];
  telemetry = none;
  stale_nomad_api = [];
  hung_prevention = [];
}

abbrev read_file : String → Option String
read_file path = some path

abbrev parse_bytes : String → Option String
parse_bytes bytes = some bytes

abbrev decode : String → Config → Config × Bool
decode m c =
    (record c { pool_config = m; gc = record { cicles_to_gc = 3; allowed = none } ∷ [] }, true)

abbrev opts : Opts
opts = record { verbose = true ∷ []; scale_threads = pos 2; config_path = "pools.yml" }

abbrev calls : Calls
calls = record {
  parse_pools = λ path. fine;
  sink = λ t. false;
  client = true;
  create_pools = λ stale. fine;
}

abbrev config : Config
config = with_defaults (decode "pools.yml" nothing_set).0

abbrev no_duration : String → Option ℤ
no_duration s = none

abbrev no_expression : String → Option ℕ
no_expression s = none

decode_variable-exact_example :
    (d : ℤ) × (decode_variable {D = ℕ} no_duration no_expression duration (an_int (pos 9223372037))
      ≡ some (nanoseconds d))
    × ((d ≡ pos (9223372037 * 1000000000)) ↔ (9223372037 ≤ 9223372036))
decode_variable-exact_example = decode_variable-exact no_duration no_expression 9223372037
