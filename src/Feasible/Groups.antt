-- ===== src/Feasible/Groups.antt =====
-- `feasiblePoolByConstraint` of feasiblePoolByConstraint.go by what it searches for.
use mathlib.Core.List.{append-nil, append_assoc}
use nomad_ondemand_scaler.Prelude.{
  ◌≡◌, sym, ◌∙◌, refl, String, Bool, true, false, not, ◌&&◌, List, [], ◌∷◌, ◌++◌, if◌then◌else◌,
  any, all, arith,
}
use nomad_ondemand_scaler.Prelude.Int.{ℤ}
use nomad_ondemand_scaler.Nomad.{Constraint, Task, Node, TaskGroup, Job}
use nomad_ondemand_scaler.Slices.{contains_in_slice}
use nomad_ondemand_scaler.PoolSpec.{PoolNodeSpec}
use nomad_ondemand_scaler.PoolSpec.ToNode.{get_node}
use nomad_ondemand_scaler.Feasible.{
  Checkers, task_constraints, task_drivers, pool_nodes, node_feasible, group_feasible,
  groups_feasible, all_groups, feasible_pool_by_constraint,
}

abbrev is_empty : List TaskGroup → Bool
is_empty [] = true
is_empty (tg ∷ tgs) = false

abbrev pub constraints_of : List Task → List Constraint
constraints_of [] = []
constraints_of (task ∷ tasks) = task.constraints ++ constraints_of tasks

task_constraints_lem :
    (tasks : List Task) (cs : List Constraint)
    → task_constraints tasks cs ≡ cs ++ constraints_of tasks
unfolding task_constraints
task_constraints_lem [] cs = sym (append-nil cs)
task_constraints_lem (task ∷ tasks) cs =
    task_constraints_lem tasks (cs ++ task.constraints)
    ∙ append_assoc cs task.constraints (constraints_of tasks)

module _ (check : Checkers) (itoa : ℤ → String) (canonicalize : Node → Node) where
  -- The pool's node is allowed for the job and for the group.
  abbrev pub pool_suits : Job → TaskGroup → PoolNodeSpec → Bool
  pool_suits job tg pool =
      let node = get_node itoa canonicalize "" pool in
      contains_in_slice job.datacenters node.datacenter
      && check.constraints_feasible job.constraints node
      && check.constraints_feasible (tg.constraints ++ constraints_of tg.tasks) node
      && check.drivers_feasible (task_drivers tg.tasks []) node
      && check.devices_feasible tg node

  group_feasible-any :
      (job : Job) (tg : TaskGroup) (pools : List PoolNodeSpec)
      → group_feasible check itoa canonicalize tg (pool_nodes check itoa canonicalize job pools)
        ≡ any (pool_suits job tg) pools
  unfolding group_feasible pool_nodes node_feasible
  group_feasible-any job tg [] = refl
  group_feasible-any job tg (pool ∷ pools) =
      ground (arith, group_feasible-any job tg pools, task_constraints_lem tg.tasks tg.constraints)

  groups_feasible-all :
      (nodes : List Node) (tgs : List TaskGroup) (feasible : Bool)
      → groups_feasible check itoa canonicalize tgs nodes feasible ≡ (
          if is_empty tgs
          then feasible
          else all (λ tg. group_feasible check itoa canonicalize tg nodes) tgs)
  unfolding groups_feasible
  groups_feasible-all nodes [] feasible = refl
  groups_feasible-all nodes (tg ∷ []) feasible = ground arith
  groups_feasible-all nodes (tg ∷ tg' ∷ tgs) feasible =
      ground (arith, groups_feasible-all nodes (tg' ∷ tgs) true)

  all_groups-all :
      (tgs : List TaskGroup) (nodes : List Node)
      → all_groups check itoa canonicalize tgs nodes
        ≡ not (is_empty tgs) && all (λ tg. group_feasible check itoa canonicalize tg nodes) tgs
  unfolding all_groups group_feasible
  all_groups-all [] [] = refl
  all_groups-all (tg ∷ tgs) [] = refl
  all_groups-all [] (node ∷ nodes) = groups_feasible-all (node ∷ nodes) [] false
  all_groups-all (tg ∷ tgs) (node ∷ nodes) = groups_feasible-all (node ∷ nodes) (tg ∷ tgs) false

  all-group_feasible :
      (job : Job) (pools : List PoolNodeSpec) (tgs : List TaskGroup)
      → all
          (λ tg.
            group_feasible check itoa canonicalize tg
              (pool_nodes check itoa canonicalize job pools))
          tgs
        ≡ all (λ tg. any (pool_suits job tg) pools) tgs
  all-group_feasible job pools [] = refl
  all-group_feasible job pools (tg ∷ tgs) =
      rw (group_feasible-any job tg pools, all-group_feasible job pools tgs)

  -- A job is feasible exactly if it has task groups, and for each of them some pool adds a node that is in
  -- a datacenter of the job, that the job's constraints allow, and that the group's constraints with those
  -- of its tasks, its drivers and its devices allow, whatever the checkers.
  pub feasible_pool_by_constraint_lem :
      (pools : List PoolNodeSpec) (job : Job)
      → feasible_pool_by_constraint check itoa canonicalize pools job
        ≡ not (is_empty job.task_groups)
          && all (λ tg. any (pool_suits job tg) pools) job.task_groups
  unfolding feasible_pool_by_constraint
  feasible_pool_by_constraint_lem pools job = rw (
    all_groups-all job.task_groups (pool_nodes check itoa canonicalize job pools),
    all-group_feasible job pools job.task_groups,
  )
