-- ===== src/Scaling/Action.antt =====
-- scalingAction.go: the estimates for the task groups of one event, gathered by pool. Each group comes
-- with the pools as they are when its turn comes. `none` is a panic, on a pool that does not exist or a
-- job without task groups, or an estimate that the fuel was too small for.
pub mod Planned
use nomad_ondemand_scaler.Prelude.{
  ℕ, String, Option, none, some, List, [], ◌∷◌, ◌++◌, if◌then◌else◌, str_eq, get_or_else,
}
use nomad_ondemand_scaler.Prelude.Dict.{Dict, lookup, insert}
use nomad_ondemand_scaler.Nomad.{Node, Allocation, NomadApi, TaskGroup, Job, Scheduler}
use nomad_ondemand_scaler.Pool.{Pool}
use nomad_ondemand_scaler.Evals.{TgInfo, ◌>>=◌}
use nomad_ondemand_scaler.Scaling.Estimate.{Estimating, estimate_required_nodes}

-- The loop for the task group of that name leaves the last one, if there is none.
unfoldable pub find_group : String → List TaskGroup → Option TaskGroup → Option TaskGroup
find_group name [] found = found
find_group name (tg ∷ tgs) found =
    if str_eq tg.name name then some tg else find_group name tgs (some tg)

pub record PoolToScale : Type 0 where
  pub en : List Node
  pub ea : List Allocation

abbrev pub nothing_yet : PoolToScale
nothing_yet = record { en = []; ea = [] }

-- A task group of the event, with the pools at its turn.
pub record Turn : Type 0 where
  pub tg_name : String
  pub info : TgInfo
  pub pools : Dict Pool

-- `fresh` counts the uuids used so far.
pub record Plan : Type 0 where
  pub to_scale : Dict PoolToScale
  pub fresh : ℕ

module _ {Stack : Type 0} (sched : Scheduler Stack) (api : NomadApi) (uuid : ℕ → String)
    (get_node : String → String → Node) (job : Job) (new_stack : Stack) where
  unfoldable pub add_group : ℕ → String → TaskGroup → Pool → ℕ → Plan → Option Plan
  add_group fuel pool_name tg p count s =
      let held = get_or_else (lookup pool_name s.to_scale) nothing_yet in
      estimate_required_nodes sched api uuid (get_node pool_name) job tg fuel p held.en held.ea
        count s.fresh new_stack
      >>= λ (t : Estimating Stack). some (record {
        to_scale =
            insert pool_name (record { en = held.en ++ t.new_nodes; ea = held.ea ++ t.new_allocs })
              s.to_scale;
        fresh = t.fresh;
      })

  unfoldable pub plan_turn : ℕ → Turn → Plan → Option Plan
  unfolding find_group add_group
  plan_turn fuel turn s = do
    tg ← find_group turn.tg_name job.task_groups none
    p ← lookup turn.info.pool_name turn.pools
    add_group fuel turn.info.pool_name tg p turn.info.un_alloc_count s

  unfoldable pub plan_event : ℕ → List Turn → Plan → Option Plan
  unfolding plan_turn
  plan_event fuel [] s = some s
  plan_event fuel (turn ∷ turns) s = do s' ← plan_turn fuel turn s; plan_event fuel turns s'
