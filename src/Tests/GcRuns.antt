-- ===== src/Tests/GcRuns.antt =====
-- Three cycles of gcAction.go over one pool, of which one node stays empty.
use nomad_ondemand_scaler.Prelude.{◌≤◌, ◌≡◌, refl, true, none, some, [], ◌∷◌, any, str_eq}
use nomad_ondemand_scaler.Prelude.Int.{pos}
use nomad_ondemand_scaler.Prelude.Dict.{Dict, lookup, insert}
use nomad_ondemand_scaler.Nomad.{Allocation}
use nomad_ondemand_scaler.Tests.Data.{node_named}
use nomad_ondemand_scaler.Pool.{Pool}
use nomad_ondemand_scaler.Gc.{
  GcConfig, removed_of, gc_cycle, gc_visits, cleanup, visit_pools, visit_pool, allow,
  allocs_by_nodes, count_nodes, count_allocs, mark_nodes, mark_node, sweep, sweep_node,
}
use nomad_ondemand_scaler.Gc.Counting.{seen_of}
use nomad_ondemand_scaler.Gc.Streaks.{gc_run, streak, gc_run-streak, gc_cycle-removed}

abbrev two_cycles : GcConfig
two_cycles = record { cicles_to_gc = 2; allowed = none }

-- One free node may stay.
abbrev one_free : GcConfig
one_free = record { cicles_to_gc = 1; allowed = some (λ total busy. pos 1) }

abbrev web : Allocation
web = record {
  id = "a1";
  namespace = "default";
  job_id = "job";
  task_group = "web";
  index = 1;
  node_id = "n1";
  desired_status = "run";
  client_status = "running";
}

abbrev pools : Dict Pool
pools =
    (
      "pool",
      record {
        nomad_nodes = ("n1", node_named "n1") ∷ ("n2", node_named "n2") ∷ [];
        nomad_allocs = ("a1", web) ∷ [];
        ephemeral_nodes = [];
        ephemeral_allocs = [];
        node_consumers = [];
        alloc_consumers = [];
      },
    )
    ∷ []

n2_removed :
    any
      (λ k. str_eq k "n2")
      (removed_of "pool" (gc_cycle two_cycles pools (gc_run two_cycles (pools ∷ []))).removed)
    ≡ true
unfolding gc_run gc_cycle gc_visits cleanup visit_pools visit_pool allow allocs_by_nodes count_nodes
    count_allocs mark_nodes mark_node sweep sweep_node lookup insert
n2_removed = refl

gc_cycle-removed_example : 2 ≤ streak "n2" (pools ∷ pools ∷ [])
gc_cycle-removed_example = gc_cycle-removed two_cycles "n2" "pool" pools (pools ∷ []) n2_removed

gc_run-streak_example : seen_of "n2" (gc_run two_cycles (pools ∷ pools ∷ [])) ≡ 2
gc_run-streak_example = gc_run-streak two_cycles "n2" (pools ∷ pools ∷ [])
