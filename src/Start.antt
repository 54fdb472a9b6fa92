-- ===== src/Start.antt =====
-- `main` of main.go, from the parsed flags to the goroutines. What else is called, of the repository or of
-- others, is an argument by its answer; each answer before a use of the configuration takes what it is given.
pub mod Panics
use nomad_ondemand_scaler.Prelude.{
  ℕ, zero, suc, String, Bool, true, false, Option, none, some, List, [], ◌∷◌, length, if◌then◌else◌,
}
use nomad_ondemand_scaler.Prelude.Int.{ℤ, pos, negsuc}
use nomad_ondemand_scaler.Gc.{GcConfig}
use nomad_ondemand_scaler.Retry.{StaleApiConfig}
use nomad_ondemand_scaler.Config.{Config, ConfigError, TelemetryConfig, HungPreventionConfig, Opts}
use nomad_ondemand_scaler.Stat.{
  StateStat, new_state_stat, set_total_scaling_threads, inc_free_scaling_threads,
  set_total_gc_threads, inc_free_gc_threads,
}

pub data Level : Type 0 where
  warn info debug trace : Level

-- By the number of flags `-v`.
unfoldable pub level_of : List Bool → Level
level_of [] = warn
level_of (_ ∷ []) = info
level_of (_ ∷ _ ∷ []) = debug
level_of (_ ∷ _ ∷ _ ∷ []) = debug
level_of _ = trace

-- How a call ends. The parsing and the creating of the pools may panic.
pub data Called : Type 0 where
  fine errs panics : Called

-- How each call ends; `true` is without an error.
pub record Calls : Type 0 where
  pub parse_pools : String → Called
  pub sink : TelemetryConfig → Bool
  pub client : Bool
  pub create_pools : StaleApiConfig → Called

-- `gc` is what the goroutine of gcAction.go is started with, if it is started.
pub record Running : Type 0 where
  pub level : Level
  pub stat : StateStat
  pub stale : StaleApiConfig
  pub hung : HungPreventionConfig
  pub gc : Option GcConfig

pub data Start : Type 0 where
  fatal : Start
  panicked : Start
  running : Running → Start

unfoldable pub start_scaling : ℕ → StateStat → StateStat
unfolding inc_free_scaling_threads
start_scaling zero s = s
start_scaling (suc n) s = start_scaling n (inc_free_scaling_threads s)

-- The element at 0 of a slice, or a panic.
abbrev pub at_first : {A : Type 0} → List A → (A → Start) → Start
at_first [] go_on = panicked
at_first (x ∷ xs) go_on = go_on x

-- What follows on a call.
abbrev pub after_call : Called → Start → Start
after_call fine s = s
after_call errs s = fatal
after_call panics s = panicked

unfoldable pub start_gc : List GcConfig → Running → Start
unfolding set_total_gc_threads inc_free_gc_threads
start_gc gc r = at_first gc (λ cfg.
    running (record r {
      stat = inc_free_gc_threads (set_total_gc_threads (pos 1) r.stat);
      gc = some cfg;
    }))

unfoldable pub start_threads : ℤ → Config → Running → Start
unfolding start_gc start_scaling set_total_scaling_threads
start_threads (pos zero) c r =
    running (record r { stat = set_total_scaling_threads (pos zero) r.stat })
start_threads (negsuc n) c r =
    running (record r { stat = set_total_scaling_threads (negsuc n) r.stat })
start_threads (pos (suc n)) c r =
    start_gc c.gc
      (record r { stat = start_scaling (suc n) (set_total_scaling_threads (pos (suc n)) r.stat) })

unfoldable pub start_clients : Calls → Opts → Config → Start
unfolding start_threads level_of
start_clients calls opts c =
    if calls.client
    then at_first c.stale_nomad_api (λ stale. after_call (calls.create_pools stale) (
        at_first c.hung_prevention (λ hung. start_threads opts.scale_threads c (record {
          level = level_of opts.verbose;
          stat = new_state_stat;
          stale = stale;
          hung = hung;
          gc = none;
        }))))
    else fatal

unfoldable pub start_sink : Calls → Opts → Config → Option (List TelemetryConfig) → Start
unfolding start_clients
start_sink calls opts c none = start_clients calls opts c
start_sink calls opts c (some ts) =
    at_first ts (λ t. if calls.sink t then start_clients calls opts c else fatal)

unfoldable pub start_up : Calls → Opts → Config × Option ConfigError → Start
unfolding start_sink
start_up calls opts (c, some e) = fatal
start_up calls opts (c, none) =
    after_call (calls.parse_pools c.pool_config) (start_sink calls opts c c.telemetry)
