-- ===== src/Tests/ThreadRuns.antt =====
-- A goroutine of scalingAction.go that has been started.
use nomad_ondemand_scaler.Prelude.{◌+◌, ◌≤◌, ◌<◌, ◌≡◌, suc, length, arith}
use nomad_ondemand_scaler.Prelude.Int.{pos}
use nomad_ondemand_scaler.Stat.{
  inc_free_scaling_threads, get_free_scaling_threads, get_total_scaling_threads,
}
use nomad_ondemand_scaler.Evals.System.{start}
use nomad_ondemand_scaler.Evals.System as Evals
use nomad_ondemand_scaler.Scaling.Threads.{Threads, Reach, here, next, starts, launched, system_of}
use nomad_ondemand_scaler.Scaling.Threads.Stages.{fresh}
use nomad_ondemand_scaler.Scaling.Threads.Counted.{free_threads}
use nomad_ondemand_scaler.Scaling.Threads.Refine.{Reach-system_of}

abbrev one_started : Threads
one_started =
    let w = launched 2 in record w { stat = inc_free_scaling_threads w.stat; idle = suc w.idle }

room : (launched 2).idle + length (launched 2).busy + (launched 2).returning < 2
unfolding launched
room = omega arith

steps : Reach 2 (launched 2) one_started
steps = next here (starts room)

free_threads_example :
    (get_free_scaling_threads one_started.stat ≡ pos (one_started.idle + fresh one_started.busy))
    × (one_started.idle + fresh one_started.busy ≤ 2)
    × (get_total_scaling_threads one_started.stat ≡ pos 2)
free_threads_example = free_threads 2 one_started (omega arith) steps

Reach-system_of_example : Evals.Reach start (system_of one_started)
Reach-system_of_example = Reach-system_of 2 one_started steps
