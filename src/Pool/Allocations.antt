-- ===== src/Pool/Allocations.antt =====
-- `tryNomadAllocation` of pool.go. It has three sections under the lock, each a function of the pool of
-- its time: `owns`, then `keep_alloc` or `forget_alloc`, then `give_place` for a new allocation.
use nomad_ondemand_scaler.Prelude.{
  ℕ, suc, String, Bool, true, false, not, ◌&&◌, ◌||◌, Option, none, some, List, [], ◌∷◌, erase_idx,
  any, if◌then◌else◌, str_eq, is_some,
}
use nomad_ondemand_scaler.Prelude.Dict.{insert, delete, has}
use nomad_ondemand_scaler.Nomad.{Node, Allocation, NomadApi}
use nomad_ondemand_scaler.Pool.{Pool, Outcome, quiet, open_of, send_all}

-- The ephemeral allocation stands for the same task group of the same job.
unfoldable pub stands_for : Allocation → Allocation → Bool
stands_for a e =
    str_eq e.namespace a.namespace && str_eq e.job_id a.job_id && str_eq e.task_group a.task_group

-- The loop over the ephemeral allocations from position `i`: the first that stands for `a`, with its
-- position, and the nodes of all others.
unfoldable pub scan :
    Allocation
    → ℕ
    → Option (ℕ × Allocation)
    → List String
    → List Allocation
    → Option (ℕ × Allocation) × List String
scan a i seen nodes [] = (seen, nodes)
scan a i seen nodes (e ∷ es) =
    let hit = not (is_some seen) && stands_for a e in
    scan a (suc i) (if hit then some (i, e) else seen) (if hit then nodes else e.node_id ∷ nodes) es

abbrev pub is_in : String → List String → Bool
is_in k = any (λ j. str_eq j k)

-- The first ephemeral node that is in none of the ids is dropped.
unfoldable pub drop_idle : List String → List Node → List Node
drop_idle used [] = []
drop_idle used (n ∷ ns) = if is_in n.id used then n ∷ drop_idle used ns else ns

-- What follows for a new allocation: a place held for it is given up.
unfoldable pub give_up : Option (ℕ × Allocation) → List String → (ℕ → Bool) → Pool → Outcome
unfolding drop_idle
give_up none used closed p =
    quiet (record p { ephemeral_nodes = drop_idle used p.ephemeral_nodes }) true
give_up (some (i, e)) used closed p = record {
  pool = record p {
    ephemeral_nodes = drop_idle used p.ephemeral_nodes;
    ephemeral_allocs = erase_idx p.ephemeral_allocs i;
    alloc_consumers = open_of closed p.alloc_consumers;
  };
  mine = true;
  told_nodes = [];
  told_allocs = send_all e.id (open_of closed p.alloc_consumers);
}

abbrev pub is_live : NomadApi → Allocation → Bool
is_live c a =
    str_eq a.desired_status c.desired_status_run
    && (str_eq a.client_status c.client_status_pending
        || str_eq a.client_status c.client_status_running)

-- The section that stores a live allocation, with whether the pool had it.
unfoldable pub keep_alloc : NomadApi → Allocation → Pool → Bool × Pool
keep_alloc c a p =
    (has a.id p.nomad_allocs, record p { nomad_allocs = insert a.id (c.alloc a) p.nomad_allocs })

unfoldable pub forget_alloc : Allocation → Pool → Pool
forget_alloc a p = record p { nomad_allocs = delete a.id p.nomad_allocs }

-- The section that follows for a new allocation.
unfoldable pub give_place : Allocation → (ℕ → Bool) → Pool → Outcome
unfolding give_up scan
give_place a closed p =
    let found = scan a 0 none [] p.ephemeral_allocs in give_up found.0 found.1 closed p

-- The sections that follow on `owns`, with nothing between.
unfoldable pub settle : NomadApi → Allocation → (ℕ → Bool) → Pool → Outcome
unfolding keep_alloc forget_alloc give_place
settle c a closed p =
    if is_live c a
    then (let (known, held) = keep_alloc c a p in
        if known then quiet held true else give_place a closed held)
    else quiet (forget_alloc a p) true

abbrev pub owns : Allocation → Pool → Bool
owns a p = has a.node_id p.nomad_nodes

-- All sections with nothing between.
unfoldable pub try_nomad_allocation : NomadApi → Allocation → (ℕ → Bool) → Pool → Outcome
unfolding settle
try_nomad_allocation c a closed p = if owns a p then settle c a closed p else quiet p false
