-- ===== src/Scaling/Estimate.antt =====
-- estimateRequiredNodes.go: allocations are placed by nomad's scheduler, on a plan, and each time it
-- finds no place one more node of the pool's kind is added. The scheduler, the node of the pool's
-- specification and the supply of uuids are parameters.
pub mod Filling
pub mod Enough
use nomad_ondemand_scaler.Prelude.{
  ℕ, zero, suc, String, Option, none, some, List, [], ◌∷◌, ◌++◌, ltb, if◌then◌else◌,
}
use nomad_ondemand_scaler.Pool.{Pool}
use nomad_ondemand_scaler.Nomad.{Node, Allocation, NomadApi, TaskGroup, Job, Scheduler}

-- The variables of the loop. `fresh` counts the uuids used so far.
pub record Estimating (Stack : Type 0) : Type 0 where
  pub stack : Stack
  pub nodes : List Node
  pub plan : List Allocation
  pub new_nodes : List Node
  pub new_allocs : List Allocation
  pub fresh : ℕ

module _ {Stack : Type 0} (sched : Scheduler Stack) (api : NomadApi) (uuid : ℕ → String)
    (get_node : String → Node) (job : Job) (tg : TaskGroup) where
  open sched use {set_nodes, select}

  -- No node has room: one more is added, and the stack is given all nodes again.
  unfoldable pub grow : Stack → Estimating Stack → Estimating Stack
  grow stack s =
      let n = get_node (uuid s.fresh) in
      record s {
        stack = set_nodes (s.nodes ++ n ∷ []) stack;
        nodes = s.nodes ++ n ∷ [];
        new_nodes = s.new_nodes ++ n ∷ [];
        fresh = suc s.fresh;
      }

  -- The allocation with number `i` on the node that was selected.
  unfoldable pub new_alloc : ℕ → Node → Estimating Stack → Allocation
  new_alloc i n s = record {
    id = uuid s.fresh;
    namespace = job.namespace;
    job_id = job.id;
    task_group = tg.name;
    index = i;
    node_id = n.id;
    desired_status = api.desired_status_run;
    client_status = api.client_status_pending;
  }

  unfoldable pub place : ℕ → Node → Stack → Estimating Stack → Estimating Stack
  unfolding new_alloc
  place i n stack s =
      let a = new_alloc i n s in
      record s {
        stack = stack;
        plan = s.plan ++ a ∷ [];
        new_allocs = s.new_allocs ++ a ∷ [];
        fresh = suc s.fresh;
      }

  -- `for i := 0; i < count; { … }`; `none` means that the fuel ran out.
  unfoldable pub fill : ℕ → ℕ → ℕ → Estimating Stack → Option (Estimating Stack)
  fill zero count i s = none
  fill (suc fuel) count i s =
      let (stack, found) = select tg s.plan s.stack in
      let next : Option (Estimating Stack) = elim found [
        | none ↦ fill fuel count i (grow stack s)
        | some n ↦ fill fuel count (suc i) (place (suc i) n stack s)
      ] in
      if ltb i count then next else some s

  -- The state before the loop: the pool's ephemerals and those of the task groups before this one.
  unfoldable pub prepare :
      List Node → List Allocation → List Node → List Allocation → ℕ → Stack → Estimating Stack
  prepare pool_nodes pool_allocs en ea fresh stack = record {
    stack = set_nodes (pool_nodes ++ en) stack;
    nodes = pool_nodes ++ en;
    plan = pool_allocs ++ ea;
    new_nodes = [];
    new_allocs = [];
    fresh = fresh;
  }

  unfoldable pub estimate_required_nodes :
      ℕ → Pool → List Node → List Allocation → ℕ → ℕ → Stack → Option (Estimating Stack)
  unfolding fill prepare
  estimate_required_nodes fuel p en ea count fresh stack =
      fill fuel count 0 (prepare p.ephemeral_nodes p.ephemeral_allocs en ea fresh stack)
