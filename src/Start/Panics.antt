-- ===== src/Start/Panics.antt =====
-- When main.go reaches its loops, with which counters, and when it does not.
use nomad_ondemand_scaler.Prelude.{
  ℕ, zero, suc, ◌<◌, ◌≡◌, true, false, ◌⊎◌, Option, none, some, List, [], ◌∷◌,
}
use nomad_ondemand_scaler.Prelude.Int.{pos, pos_part}
use nomad_ondemand_scaler.Gc.{GcConfig}
use nomad_ondemand_scaler.Retry.{StaleApiConfig}
use nomad_ondemand_scaler.Config.{Config, TelemetryConfig, Opts}
use nomad_ondemand_scaler.Stat.{
  get_free_scaling_threads, get_free_gc_threads, get_total_scaling_threads,
}
use nomad_ondemand_scaler.Start.{
  Called, fine, errs, panics, Calls, Running, Start, fatal, panicked, running,
}

-- How the creating of the pools with the first block on stale answers ends.
abbrev pub Creates : Calls → Config → Called → Type 0
Creates calls c how =
    (stale : StaleApiConfig) × (rest : List StaleApiConfig) × (c.stale_nomad_api ≡ stale ∷ rest)
    × (calls.create_pools stale ≡ how)

-- There is no sink for the first block on telemetry.
abbrev pub IsUnsunk : Calls → Option (List TelemetryConfig) → Type 0
IsUnsunk calls telemetry =
    (t : TelemetryConfig) × (rest : List TelemetryConfig) × (telemetry ≡ some (t ∷ rest))
    × (calls.sink t ≡ false)

-- Each call is without an error, and without a panic.
abbrev pub IsCalled : Calls → Config → Type 0
IsCalled calls c =
    (calls.parse_pools c.pool_config ≡ fine)
    × (¬ IsUnsunk calls c.telemetry)
    × (calls.client ≡ true)
    × Creates calls c fine

-- The goroutine that removes empty nodes, by the number of threads that are asked for.
abbrev pub IsGc : ℕ → List GcConfig → Running → Type 0
IsGc zero gc r = (r.gc ≡ none) × (get_free_gc_threads r.stat ≡ pos 0)
IsGc (suc n) gc r =
    (cfg : GcConfig) × (rest : List GcConfig) × (gc ≡ cfg ∷ rest)
    × (r.gc ≡ some cfg)
    × (get_free_gc_threads r.stat ≡ pos 1)

abbrev pub IsStarted : Calls → Opts → Config → Start → Type 0
IsStarted calls opts c fatal =
    (calls.parse_pools c.pool_config ≡ errs)
    ⊎ (IsUnsunk calls c.telemetry ⊎ ((calls.client ≡ false) ⊎ Creates calls c errs))
IsStarted calls opts c panicked =
    (calls.parse_pools c.pool_config ≡ panics)
    ⊎ (Creates calls c panics ⊎ ((0 < pos_part opts.scale_threads) × (c.gc ≡ [])))
IsStarted calls opts c (running r) =
    IsCalled calls c
    × (get_total_scaling_threads r.stat ≡ opts.scale_threads)
    × (get_free_scaling_threads r.stat ≡ pos (pos_part opts.scale_threads))
    × IsGc (pos_part opts.scale_threads) c.gc r
