-- ===== src/Feasible.antt =====
-- feasiblePoolByConstraint.go: whether each task group of a job could run on a node that a pool would add.
-- Nomad's checkers are parameters, each with what it was last set to.
pub mod Groups
use nomad_ondemand_scaler.Prelude.{
  String, Bool, true, false, not, ◌&&◌, List, [], ◌∷◌, ◌++◌, if◌then◌else◌, str_eq,
}
use nomad_ondemand_scaler.Prelude.Int.{ℤ}
use nomad_ondemand_scaler.Prelude.Dict.{Dict, insert}
use nomad_ondemand_scaler.Nomad.{Node, Constraint, Task, TaskGroup, Job}
use nomad_ondemand_scaler.Slices.{contains_in_slice}
use nomad_ondemand_scaler.PoolSpec.{PoolNodeSpec}
use nomad_ondemand_scaler.PoolSpec.ToNode.{get_node}

pub record Checkers : Type 0 where
  pub constraints_feasible : List Constraint → Node → Bool
  pub drivers_feasible : Dict {0} Unit → Node → Bool
  pub devices_feasible : TaskGroup → Node → Bool

-- The constraints of the tasks behind those of the group, and the drivers, each once.
unfoldable pub task_constraints : List Task → List Constraint → List Constraint
task_constraints [] constraints = constraints
task_constraints (task ∷ tasks) constraints =
    task_constraints tasks (constraints ++ task.constraints)

unfoldable pub task_drivers : List Task → Dict {0} Unit → Dict {0} Unit
task_drivers [] drivers = drivers
task_drivers (task ∷ tasks) drivers = task_drivers tasks (insert task.driver tt drivers)

module _ (check : Checkers) (itoa : ℤ → String) (canonicalize : Node → Node) where
  -- The nodes in the job's datacenters that its own constraints allow.
  unfoldable pub pool_nodes : Job → List PoolNodeSpec → List Node
  unfolding get_node
  pool_nodes job [] = []
  pool_nodes job (pool ∷ pools) =
      let rest = pool_nodes job pools in
      let node = get_node itoa canonicalize "" pool in
      if not (contains_in_slice job.datacenters node.datacenter)
      then rest
      else if check.constraints_feasible job.constraints node
      then node ∷ rest
      else rest

  unfoldable pub node_feasible : TaskGroup → Node → Bool
  unfolding task_constraints task_drivers
  node_feasible tg node =
      check.constraints_feasible (task_constraints tg.tasks tg.constraints) node
      && check.drivers_feasible (task_drivers tg.tasks []) node
      && check.devices_feasible tg node

  -- The loop over the nodes ends at the first that is feasible.
  unfoldable pub group_feasible : TaskGroup → List Node → Bool
  unfolding node_feasible
  group_feasible tg [] = false
  group_feasible tg (node ∷ nodes) =
      let rest = group_feasible tg nodes in if node_feasible tg node then true else rest

  -- The loop over the groups ends at the first that is not.
  unfoldable pub groups_feasible : List TaskGroup → List Node → Bool → Bool
  unfolding group_feasible
  groups_feasible [] nodes feasible = feasible
  groups_feasible (tg ∷ tgs) nodes feasible =
      let now = group_feasible tg nodes in
      let rest = groups_feasible tgs nodes now in if not now then now else rest

  unfoldable pub all_groups : List TaskGroup → List Node → Bool
  unfolding groups_feasible
  all_groups tgs [] = false
  all_groups tgs (node ∷ nodes) = groups_feasible tgs (node ∷ nodes) false

  unfoldable pub feasible_pool_by_constraint : List PoolNodeSpec → Job → Bool
  unfolding pool_nodes all_groups
  feasible_pool_by_constraint pools job = all_groups job.task_groups (pool_nodes job pools)
