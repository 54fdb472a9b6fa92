-- ===== src/Tests/EvalRuns.antt =====
-- A job whose evaluation is blocked, for processEvals.go: it is received, its event is queued by a
-- tick, and a scaling thread takes it.
use nomad_ondemand_scaler.Prelude.{◌≡◌, refl, String, Bool, true, some, [], ◌∷◌, arith}
use nomad_ondemand_scaler.Prelude.Dict.{lookup, insert, delete, map_values}
use nomad_ondemand_scaler.Nomad.{Job}
use nomad_ondemand_scaler.Queue.{new_queue, enqueue, dequeue}
use nomad_ondemand_scaler.Queue.Valid.{new_queue-IsValid}
use nomad_ondemand_scaler.Evals.{
  Eval, Answers, State, ScalingEvent, Tick, visit, on_eval, on_timer, chain_id, trim, judge,
  keep_evals, fire_event, latest, unallocated, with_pool, enqueue_event,
}
use nomad_ondemand_scaler.Evals.Chains.{IsSound, on_eval-IsSound}
use nomad_ondemand_scaler.Evals.Ticks.{IsLiveIf, on_timer-IsSound}
use nomad_ondemand_scaler.Evals.System as System

abbrev job : Job
job = record { id = "job"; namespace = "ns"; datacenters = []; constraints = []; task_groups = [] }

abbrev blocked : Eval
blocked = record {
  id = "e1";
  status = "blocked";
  namespace = "ns";
  job_id = "job";
  create_index = 5;
}

abbrev answers : Answers
answers = record {
  job = λ e. job;
  feasible = λ e. true;
  optimal_pools = λ e. ("web", "dc1/pool") ∷ [];
  job_evals = λ e. record { create_index = 4; failed_tg_allocs = "web" ∷ [] } ∷ [];
  summary = λ e. ("web", 3) ∷ [];
}

abbrev event : ScalingEvent
event = record {
  id = "ns/job";
  job = job;
  un_allocated_tg = ("web", record { un_alloc_count = 3; pool_name = "dc1/pool" }) ∷ [];
}

abbrev waiting : State
waiting = record {
  evals = ("e1", blocked) ∷ [];
  chains = ("ns/job", "e1" ∷ []) ∷ [];
  fired = [];
  queue = new_queue;
  canceled = [];
  nosuited = 0;
}

abbrev fired : State
fired = record waiting { fired = ("ns/job", event) ∷ []; queue = enqueue event "ns/job" new_queue }

waiting-IsSound : IsSound waiting
unfolding lookup new_queue
waiting-IsSound = record {
  guard = record { valid = new_queue-IsValid; guarded = λ cid h. refl };
  keyed = (refl, tt);
  chained = λ cid c h. ground arith;
}

on_eval-IsSound_example : (r : State × Bool) × (on_eval blocked waiting ≡ some r) × IsSound r.0
on_eval-IsSound_example = on_eval-IsSound blocked waiting waiting-IsSound

on_timer-IsSound_example :
    (s' : State) × (on_timer answers waiting ≡ some s')
    × IsSound s'
    × ((cid : String) → IsLiveIf s'.evals (lookup cid s'.chains))
on_timer-IsSound_example = on_timer-IsSound answers waiting (λ e h. cc) waiting-IsSound

-- The steps: the evaluation is received, its chain is visited, and its event is taken.
abbrev received : System.System
received = record { state = waiting; working = []; done = [] }

abbrev queued : System.System
queued = record { state = fired; working = []; done = [] }

abbrev taken : System.System
taken = record {
  state = record fired { queue = record (new_queue) { wake = true } };
  working = "ns/job" ∷ [];
  done = [];
}

abbrev opened : Tick
opened = record { state = waiting; new_evals = []; removed = [] }

abbrev closed : Tick
closed = record { state = fired; new_evals = ("e1", blocked) ∷ []; removed = [] }

to_received : System.Step System.start received
unfolding System.start new_queue on_eval chain_id lookup insert
to_received = System.receives blocked (waiting, true) refl

to_queued : System.Step received queued
unfolding visit trim judge keep_evals fire_event latest unallocated with_pool enqueue_event lookup
    insert new_queue enqueue
to_queued = System.visits answers "ns/job" opened closed refl refl

to_taken : System.Step queued taken
unfolding dequeue new_queue enqueue insert delete map_values lookup
to_taken = System.takes 0 (record (new_queue) { wake = true }) event refl

Reach-IsOnce_example : System.IsOnce taken
Reach-IsOnce_example =
    System.Reach-IsOnce
      (System.next (System.next (System.next System.here to_received) to_queued) to_taken)
