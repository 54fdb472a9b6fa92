-- ===== src/Tests/PoolRuns.antt =====
-- Events and rounds on a pool of one node, for pool.go.
use nomad_ondemand_scaler.Prelude.{
  ℕ, ◌≡◌, refl, String, Bool, true, false, Option, none, some, List, [], ◌∷◌, arith, if◌then◌else◌,
  subst, str_eq, ◌&&◌, length,
}
use nomad_ondemand_scaler.Prelude.Dict.{Dict, lookup, has, map_option}
use nomad_ondemand_scaler.Nomad.{Node, Allocation, NomadApi}
use nomad_ondemand_scaler.Tests.Data.{node_named}
use nomad_ondemand_scaler.Pool.{Pool, drop_node, try_nomad_node}
use nomad_ondemand_scaler.Pool.Allocations.{settle, try_nomad_allocation}
use nomad_ondemand_scaler.Pool.Update.{
  Signal, nodes, placed, timer, timed_out, complete, wait, find_alloc, on_signal,
}
use nomad_ondemand_scaler.Pool.Valid.{IsValid, try_nomad_node-IsValid, try_nomad_allocation-IsValid}
use nomad_ondemand_scaler.Pool.Waiting.{Explains, wait-Explains, wait-complete}
use nomad_ondemand_scaler.Pools.{Told, process_node}
use nomad_ondemand_scaler.Pools.Events.{is_taker, IsFirst, process_node_lem}
use nomad_ondemand_scaler.Retry.{Reply, failed, answered, with_retry}
use nomad_ondemand_scaler.Retry.Fresh.{with_retry_lem}
use nomad_ondemand_scaler.Prelude.Int.{pos, ℤ}
use nomad_ondemand_scaler.Variant.{Variant}
use nomad_ondemand_scaler.PoolSpec.{PoolNodeSpec}
use nomad_ondemand_scaler.DumpState.{PoolReport, report_pool}
use nomad_ondemand_scaler.DumpState.Counted.{counted, report_pool-counted}
use nomad_ondemand_scaler.Pool.Placing.{Settled, settle-Settled, settle_after_drop}

abbrev api : NomadApi
api = record {
  node = λ n. n;
  node_keeps = λ n. refl;
  alloc = λ a. a;
  alloc_keeps = λ a. refl;
  alloc_stays = λ a. refl;
  node_status_down = "down";
  desired_status_run = "run";
  client_status_pending = "pending";
  client_status_running = "running";
}

abbrev alloc_on : String → String → Allocation
alloc_on k node_id = record {
  id = k;
  namespace = "default";
  job_id = "job";
  task_group = "web";
  index = 1;
  node_id = node_id;
  desired_status = "run";
  client_status = "pending";
}

abbrev pool : Pool
pool = record {
  nomad_nodes = ("n1", node_named "n1") ∷ [];
  nomad_allocs = ("a1", alloc_on "a1" "n1") ∷ [];
  ephemeral_nodes = node_named "e1" ∷ [];
  ephemeral_allocs = alloc_on "x1" "e1" ∷ [];
  node_consumers = 4 ∷ [];
  alloc_consumers = 4 ∷ [];
}

abbrev all_open : ℕ → Bool
all_open c = false

only : (b : Bool) (x a : Allocation) → (if b then some x else none) ≡ some a → x ≡ a
only true x a h = cc
only false x a h = cc

pool-IsValid : IsValid pool
unfolding lookup
pool-IsValid = record {
  nodes_keyed = (refl, tt);
  allocs_keyed = (refl, tt);
  allocs_named = (refl, tt);
  allocs_placed = λ k a h.
      subst (λ (b : Allocation). has b.node_id pool.nomad_nodes ≡ true)
        (only (str_eq "a1" k) (alloc_on "a1" "n1") a h) refl;
}

try_nomad_node-IsValid_example :
    IsValid (try_nomad_node api (node_named "n2") true all_open pool).pool
try_nomad_node-IsValid_example =
    try_nomad_node-IsValid api (node_named "n2") true all_open pool pool-IsValid

try_nomad_allocation-IsValid_example :
    IsValid (try_nomad_allocation api (alloc_on "a2" "n1") all_open pool).pool
try_nomad_allocation-IsValid_example =
    try_nomad_allocation-IsValid api (alloc_on "a2" "n1") all_open pool pool-IsValid

settle-Settled_example :
    Settled (alloc_on "a2" "n1") all_open pool (settle api (alloc_on "a2" "n1") all_open pool)
unfolding lookup
settle-Settled_example = settle-Settled api (alloc_on "a2" "n1") all_open pool refl refl

settle_after_drop_example :
    let between = drop_node "n1" pool in
    let q = (settle api (alloc_on "a2" "n1") all_open between).pool in
    IsValid between
    × (lookup "a2" q.nomad_allocs ≡ some (alloc_on "a2" "n1"))
    × ((alloc_on "a2" "n1").node_id ≡ "n1")
    × (has "n1" q.nomad_nodes ≡ false)
unfolding lookup
settle_after_drop_example =
    settle_after_drop api (alloc_on "a2" "n1") all_open pool pool-IsValid refl refl

abbrev asked_nodes : List Node
asked_nodes = node_named "e2" ∷ []

abbrev asked : List Allocation
asked = alloc_on "x2" "e2" ∷ alloc_on "x3" "e2" ∷ []

abbrev reports : List Signal
reports = nodes 1 ∷ placed "x2" ∷ placed "x3" ∷ []

wait-Explains_example :
    Explains 2 asked
      (nodes 2 ∷ timer ∷ [])
      (record { armed = false; arrived = [] })
      (wait 2 asked (nodes 2 ∷ timer ∷ []) (record { armed = false; arrived = [] })).0
      timed_out
unfolding wait on_signal
wait-Explains_example =
    wait-Explains 2 asked (nodes 2 ∷ timer ∷ []) (record { armed = false; arrived = [] }) timed_out
      refl

wait-complete_example :
    (wait 2 asked reports (record { armed = false; arrived = [] })).1 ≡ some complete
unfolding find_alloc
wait-complete_example =
    wait-complete 2 asked reports (omega arith) (tt, (tt, (tt, tt))) (omega arith)

-- The provider of the pool knows every node.
abbrev all_exist : String → Node → Bool
all_exist name n = true

abbrev told : List Told
told =
    record {
      name = "dc1/pool";
      created = true;
      nodes = (some (node_named "n1"), some (alloc_on "a1" "n1" ∷ [])) ∷ [];
    }
    ∷ []

abbrev made : Dict Pool
made =
    (
      "dc1/pool",
      record {
        nomad_nodes = ("n1", node_named "n1") ∷ [];
        nomad_allocs = ("a1", alloc_on "a1" "n1") ∷ [];
        ephemeral_nodes = [];
        ephemeral_allocs = [];
        node_consumers = [];
        alloc_consumers = [];
      },
    )
    ∷ []

process_node_lem_example :
    let (pools', taker) = process_node api all_exist all_open (node_named "n2") made in
    IsFirst api all_exist all_open (node_named "n2") made taker
    × ((k : String)
        → lookup k pools'
          ≡ map_option
              (λ p.
                let o = try_nomad_node api (node_named "n2") true all_open p in
                if is_taker k taker && o.mine then o.pool else p)
              (lookup k made))
unfolding lookup
process_node_lem_example = process_node_lem api all_exist all_open (node_named "n2") made (refl, tt)

-- An error, an answer that is too stale, and a fresh one.
abbrev replies : List (Reply ℕ)
replies = failed ∷ answered 4 (pos 90) ∷ answered 5 (pos 0) ∷ []

with_retry_lem_example :
    with_retry (record { allow = true; stale_allowed_duration = pos 30 }) replies
    ≡ some (5, true ∷ true ∷ false ∷ [])
with_retry_lem_example =
    with_retry_lem (record { allow = true; stale_allowed_duration = pos 30 }) replies

-- The same pool, whose node has registered.
abbrev reported : Pool
reported = record pool {
  nomad_nodes =
      ("n1", record (node_named "n1") { events = record { message = "m"; timestamp = 5 } ∷ [] })
      ∷ [];
}

reported-IsValid : IsValid reported
unfolding lookup
reported-IsValid = record {
  nodes_keyed = (refl, tt);
  allocs_keyed = (refl, tt);
  allocs_named = (refl, tt);
  allocs_placed = λ k a h.
      subst (λ (b : Allocation). has b.node_id reported.nomad_nodes ≡ true)
        (only (str_eq "a1" k) (alloc_on "a1" "n1") a h) refl;
}

abbrev text_of : String → Option String
text_of s = some s

abbrev four : ℤ → String
four n = "4"

abbrev seven : String → Dict Variant → String
seven name attributes = "7"

abbrev first_of : Dict Node → Option Node
first_of [] = none
first_of ((k, n) ∷ rest) = some n

abbrev no_spec : PoolNodeSpec
no_spec = record { full_name = "a"; attributes = [] }

report_pool-counted_example :
    (r : PoolReport) × (report_pool text_of four seven first_of "a" no_spec reported ≡ some r)
    × (r.total_nodes ≡ length reported.nomad_nodes)
    × (length r.nodes ≡ r.total_nodes)
    × (length r.allocs ≡ r.total_allocs)
    × (counted r.nodes ≡ r.total_allocs)
report_pool-counted_example =
    report_pool-counted text_of four seven first_of "a" no_spec reported reported-IsValid (refl, tt)
      ((record { message = "m"; timestamp = 5 }, [], refl), tt)
