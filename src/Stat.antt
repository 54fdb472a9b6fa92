-- ===== src/Stat.antt =====
-- stateStat.go: the counters, and sendStats.go, which reports them. An atomic number is its 64 bits; those of the free threads are read as
-- signed ones.
use nomad_ondemand_scaler.Prelude.{ℕ, ◌+◌, ◌-◌, ◌%◌, ◌^◌, String, List, [], ◌∷◌}
use nomad_ondemand_scaler.Prelude.Int.{ℤ, pos, signed_64}

pub record StateStat : Type 0 where
  pub evals_count : ℕ
  pub allocs_count : ℕ
  pub scaling_timeouts : ℕ
  pub nosuited_events : ℕ
  pub free_scaling_threads : ℕ
  pub free_gc_threads : ℕ
  pub total_scaling_threads : ℤ
  pub total_gc_threads : ℤ

abbrev pub new_state_stat : StateStat
new_state_stat = record {
  evals_count = 0;
  allocs_count = 0;
  scaling_timeouts = 0;
  nosuited_events = 0;
  free_scaling_threads = 0;
  free_gc_threads = 0;
  total_scaling_threads = pos 0;
  total_gc_threads = pos 0;
}

-- `Add(1)` and `Add(-1)`.
unfoldable pub inc : ℕ → ℕ
inc n = (n + 1) % 2 ^ 64

unfoldable pub dec : ℕ → ℕ
dec n = (n + (2 ^ 64 - 1)) % 2 ^ 64

unfoldable pub inc_free_scaling_threads : StateStat → StateStat
unfolding inc
inc_free_scaling_threads s = record s { free_scaling_threads = inc s.free_scaling_threads }

unfoldable pub dec_free_scaling_threads : StateStat → StateStat
unfolding dec
dec_free_scaling_threads s = record s { free_scaling_threads = dec s.free_scaling_threads }

unfoldable pub get_free_scaling_threads : StateStat → ℤ
unfolding signed_64
get_free_scaling_threads s = signed_64 s.free_scaling_threads

unfoldable pub inc_free_gc_threads : StateStat → StateStat
unfolding inc
inc_free_gc_threads s = record s { free_gc_threads = inc s.free_gc_threads }

unfoldable pub dec_free_gc_threads : StateStat → StateStat
unfolding dec
dec_free_gc_threads s = record s { free_gc_threads = dec s.free_gc_threads }

unfoldable pub get_free_gc_threads : StateStat → ℤ
unfolding signed_64
get_free_gc_threads s = signed_64 s.free_gc_threads

unfoldable pub set_total_scaling_threads : ℤ → StateStat → StateStat
set_total_scaling_threads n s = record s { total_scaling_threads = n }

abbrev pub get_total_scaling_threads : StateStat → ℤ
get_total_scaling_threads s = s.total_scaling_threads

unfoldable pub set_total_gc_threads : ℤ → StateStat → StateStat
set_total_gc_threads n s = record s { total_gc_threads = n }

abbrev pub get_total_gc_threads : StateStat → ℤ
get_total_gc_threads s = s.total_gc_threads

unfoldable pub inc_accepted_evals : StateStat → StateStat
unfolding inc
inc_accepted_evals s = record s { evals_count = inc s.evals_count }

unfoldable pub inc_accepted_allocs : StateStat → StateStat
unfolding inc
inc_accepted_allocs s = record s { allocs_count = inc s.allocs_count }

abbrev pub get_accepted_evals : StateStat → ℕ
get_accepted_evals s = s.evals_count

abbrev pub get_accepted_allocs : StateStat → ℕ
get_accepted_allocs s = s.allocs_count

unfoldable pub inc_scaling_timeouts : StateStat → StateStat
unfolding inc
inc_scaling_timeouts s = record s { scaling_timeouts = inc s.scaling_timeouts }

abbrev pub get_scaling_timeouts : StateStat → ℕ
get_scaling_timeouts s = s.scaling_timeouts

unfoldable pub inc_nosuited_events : StateStat → StateStat
unfolding inc
inc_nosuited_events s = record s { nosuited_events = inc s.nosuited_events }

abbrev pub get_nosuited_events : StateStat → ℕ
get_nosuited_events s = s.nosuited_events

-- sendStats.go: the gauges of one tick, under `state`, as they are before they become floating.
unfoldable pub gauges : StateStat → List (String × ℤ)
unfolding get_free_gc_threads get_free_scaling_threads
gauges s =
    ("freeGcThreads", get_free_gc_threads s)
    ∷ ("NumGcThreads", get_total_gc_threads s)
    ∷ ("freeScalingThreads", get_free_scaling_threads s)
    ∷ ("NumScalingThreads", get_total_scaling_threads s)
    ∷ ("AcceptedEvals", pos (get_accepted_evals s))
    ∷ ("AcceptedAllocs", pos (get_accepted_allocs s))
    ∷ ("ScalingTimeouts", pos (get_scaling_timeouts s))
    ∷ ("NoSuitedScalingEvents", pos (get_nosuited_events s))
    ∷ []
