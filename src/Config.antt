-- ===== src/Config.antt =====
-- types.go, configParse.go and decodeToTimeDuration.go: the configuration. Reading a file, HCL, and the
-- filling in of structs by mapstructure are parameters.
pub mod Durations
pub mod Defaults
use nomad_ondemand_scaler.Prelude.{
  ℕ, suc, ◌+◌, ◌-◌, ◌*◌, ◌%◌, ◌^◌, String, Bool, true, false, Option, none, some, List, [], ◌∷◌,
}
use nomad_ondemand_scaler.Prelude.Int.{ℤ, pos, negsuc, signed_64}
use nomad_ondemand_scaler.Gc.{GcConfig}
use nomad_ondemand_scaler.Retry.{StaleApiConfig}

pub record HungPreventionConfig : Type 0 where
  pub allow : Bool
  pub detect_period : ℤ

pub record TelemetryConfig : Type 0 where
  pub stat_site_addr : String
  pub prefix : String

-- `none` for the telemetry is a nil slice.
pub record Config : Type 0 where
  pub pool_config : String
  pub gc : List GcConfig
  pub telemetry : Option (List TelemetryConfig)
  pub stale_nomad_api : List StaleApiConfig
  pub hung_prevention : List HungPreventionConfig

pub record Opts : Type 0 where
  pub verbose : List Bool
  pub scale_threads : ℤ
  pub config_path : String

-- A value to decode, by its kind, and the type that is asked for.
pub data Raw (D : Type 0) : Type 0 where
  an_int : ℤ → Raw D
  a_string : String → Raw D
  another : D → Raw D

pub data Target : Type 0 where
  duration expression elsewhere : Target

-- Unchanged, nanoseconds, or a compiled expression.
pub data Decoded (D X : Type 0) : Type 0 where
  unchanged : Raw D → Decoded D X
  nanoseconds : ℤ → Decoded D X
  compiled : X → Decoded D X

-- A product with `time.Second`, in 64 bits.
unfoldable pub seconds : ℤ → ℤ
seconds (pos n) = signed_64 (n * 1000000000 % 2 ^ 64)
seconds (negsuc n) = signed_64 ((2 ^ 64 - suc n * 1000000000 % 2 ^ 64) % 2 ^ 64)

module _ {D X : Type 0} (parse_duration : String → Option ℤ) (compile : String → Option X) where
  unfoldable pub decode_to_time_duration : Target → Raw D → Option (Decoded D X)
  unfolding seconds
  decode_to_time_duration duration (an_int n) = some (nanoseconds (seconds n))
  decode_to_time_duration duration (a_string s) = elim (parse_duration s) [
    | none ↦ none
    | some d ↦ some (nanoseconds d)
  ]
  decode_to_time_duration duration (another d) = none
  decode_to_time_duration _ raw = some (unchanged raw)

  unfoldable pub decode_variable : Target → Raw D → Option (Decoded D X)
  unfolding decode_to_time_duration
  decode_variable expression (a_string s) = elim (compile s) [
    | none ↦ none
    | some x ↦ some (compiled x)
  ]
  decode_variable expression _ = none
  decode_variable duration raw = decode_to_time_duration duration raw
  decode_variable elsewhere raw = decode_to_time_duration elsewhere raw

pub data ConfigError : Type 0 where
  unreadable unparsed undecoded unmapped : ConfigError

abbrev pub or_default : {A : Type 0} → List A → A → List A
or_default [] x = x ∷ []
or_default (y ∷ ys) x = y ∷ ys

unfoldable pub with_defaults : Config → Config
with_defaults c = record c {
  stale_nomad_api =
      or_default c.stale_nomad_api (record { allow = false; stale_allowed_duration = pos 0 });
  hung_prevention = or_default c.hung_prevention (record { allow = false; detect_period = pos 0 });
}

-- What decoding made of `_opts`, and whether it had no error.
abbrev pub mapped : Config × Bool → Config × Option ConfigError
mapped (c, true) = (with_defaults c, none)
mapped (c, false) = (with_defaults c, some unmapped)

-- `new_decoder` gives a decoder that fills its last argument in, also where it has an error.
module _ {Bytes Ast Fields : Type 0} (read_file : String → Option Bytes)
    (parse_bytes : Bytes → Option Ast) (decode_object : Ast → Option Fields)
    (new_decoder : Option (Fields → Config → Config × Bool)) where
  unfoldable pub config_parse : String → Config → Config × Option ConfigError
  unfolding with_defaults
  config_parse path c = elim (read_file path) [
    | none ↦ (c, some unreadable)
    | some bytes ↦ elim (parse_bytes bytes) [
      | none ↦ (c, some unparsed)
      | some ast ↦ elim (decode_object ast) [
        | none ↦ (c, some undecoded)
        | some m ↦ elim new_decoder [ none ↦ mapped (c, false) | some decode ↦ mapped (decode m c) ]
      ]
    ]
  ]
