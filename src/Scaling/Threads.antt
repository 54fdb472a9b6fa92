-- ===== src/Scaling/Threads.antt =====
-- The goroutines of scalingAction.go, from their start in main.go, with the counters of stateStat.go: each
-- takes an event, updates the pools of the plan of Scaling/Action.antt, and reports the event's id.
pub mod Stages
pub mod Counted
pub mod Refine
use nomad_ondemand_scaler.Prelude.{
  ℕ, zero, suc, ◌+◌, ◌<◌, ◌≡◌, String, Bool, true, false, Option, none, some, List, [], ◌∷◌, ◌++◌,
  length, get_elem?, erase_idx,
}
use nomad_ondemand_scaler.Prelude.Int.{ℤ, pos}
use nomad_ondemand_scaler.Queue.{Queue, dequeue}
use nomad_ondemand_scaler.Evals.{State, ScalingEvent}
use nomad_ondemand_scaler.Evals.System.{System, done_capacity, start}
use nomad_ondemand_scaler.Evals.System as Evals
use nomad_ondemand_scaler.Pool.Update.{Ending, interrupted}
use nomad_ondemand_scaler.Stat.{
  StateStat, new_state_stat, set_total_scaling_threads, inc_free_scaling_threads,
  dec_free_scaling_threads, inc_scaling_timeouts,
}

-- The error that `Update` of a pool returns.
pub data UpdateError : Type 0 where
  deadline_exceeded canceled other : UpdateError

-- Whether `Update` went on to wait, the error of the event's context, and how the wait ended.
unfoldable pub update_error : Bool → UpdateError → Ending → Option UpdateError
update_error false ctx ending = some other
update_error true ctx interrupted = some ctx
update_error true ctx _ = none

unfoldable pub on_update : Option UpdateError → StateStat → StateStat
unfolding inc_scaling_timeouts
on_update (some deadline_exceeded) s = inc_scaling_timeouts s
on_update _ s = s

-- Before the counter of free threads is taken down, or with the pools that are still to be updated.
pub data Stage : Type 0 where
  dequeued : Stage
  updating : List String → Stage

pub record Busy : Type 0 where
  pub id : String
  pub stage : Stage

-- `idle` goroutines wait for an event; `returning` ones have reported an id and are not yet counted free.
pub record Threads : Type 0 where
  pub stat : StateStat
  pub state : State
  pub idle : ℕ
  pub busy : List Busy
  pub returning : ℕ
  pub done : List String

abbrev pub ids_of : List Busy → List String
ids_of [] = []
ids_of (b ∷ busy) = b.id ∷ ids_of busy

unfoldable pub set_stage : ℕ → Stage → List Busy → List Busy
set_stage i stage [] = []
set_stage zero stage (b ∷ busy) = record b { stage = stage } ∷ busy
set_stage (suc i) stage (b ∷ busy) = b ∷ set_stage i stage busy

-- What the loop of processEvals.go has to do with.
abbrev pub system_of : Threads → System
system_of w = record { state = w.state; working = ids_of w.busy; done = w.done }

-- `total` goroutines are to be started.
pub data Step (total : ℕ) (w : Threads) : Threads → Type 0 where
  starts :
      w.idle + length w.busy + w.returning < total
      → Step total w (record w { stat = inc_free_scaling_threads w.stat; idle = suc w.idle })
  takes :
      (idle tokens : ℕ) (q : Queue ScalingEvent) (event : ScalingEvent)
      → w.idle ≡ suc idle
      → dequeue (suc tokens) w.state.queue ≡ (q, some event)
      → Step total w (record w {
        state = record (w.state) { queue = q };
        idle = idle;
        busy = record { id = event.id; stage = dequeued } ∷ w.busy;
      })
  -- `pools` are those of the plan, in the order of `range`.
  plans :
      (i : ℕ) (id : String) (pools : List String)
      → get_elem? w.busy i ≡ some (record { id = id; stage = dequeued })
      → Step total w (record w {
        stat = dec_free_scaling_threads w.stat;
        busy = set_stage i (updating pools) w.busy;
      })
  updates :
      (i : ℕ) (id pool : String) (rest : List String) (went_on : Bool) (ctx : UpdateError)
      (ending : Ending)
      → get_elem? w.busy i ≡ some (record { id = id; stage = updating (pool ∷ rest) })
      → Step total w (record w {
        stat = on_update (update_error went_on ctx ending) w.stat;
        busy = set_stage i (updating rest) w.busy;
      })
  reports :
      (i : ℕ) (id : String)
      → get_elem? w.busy i ≡ some (record { id = id; stage = updating [] })
      → length w.done < done_capacity
      → Step total w (record w {
        busy = erase_idx w.busy i;
        returning = suc w.returning;
        done = w.done ++ id ∷ [];
      })
  returns :
      (returning : ℕ)
      → w.returning ≡ suc returning
      → Step total w (record w {
        stat = inc_free_scaling_threads w.stat;
        idle = suc w.idle;
        returning = returning;
      })
  -- A step of the loop of processEvals.go.
  evaluates :
      (s : System)
      → Evals.Step (system_of w) s
      → s.working ≡ ids_of w.busy
      → Step total w (record w { state = s.state; done = s.done })

pub data Reach (total : ℕ) (w : Threads) : Threads → Type 0 where
  here : Reach total w w
  next : {u v : Threads} → Reach total w u → Step total u v → Reach total w v

-- main.go, before the loop that starts the goroutines.
unfoldable pub launched : ℕ → Threads
unfolding set_total_scaling_threads start
launched total = record {
  stat = set_total_scaling_threads (pos total) new_state_stat;
  state = start.state;
  idle = 0;
  busy = [];
  returning = 0;
  done = [];
}
