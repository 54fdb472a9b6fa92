-- ===== src/Gc.antt =====
-- gcAction.go: one cycle of the garbage collection of empty nodes. The pools are visited by name; the
-- formula for the free nodes that a pool may keep is a parameter, as the library that evaluates it.
pub mod Counting
pub mod Streaks
pub mod Allowance
use nomad_ondemand_scaler.Prelude.{
  ℕ, suc, ◌+◌, String, Bool, true, false, not, ◌&&◌, Option, none, some, List, [], ◌∷◌, ◌++◌,
  length, any, leb, ◌==◌, if◌then◌else◌, str_eq, get_or_else,
}
use nomad_ondemand_scaler.Prelude.Int.{ℤ, pos, pos_part, sub_ℕ, ◌-ℤ◌, ltb_ℤ}
use nomad_ondemand_scaler.Prelude.Dict.{Dict, lookup, insert, values}
use nomad_ondemand_scaler.Nomad.{Node, Allocation}
use nomad_ondemand_scaler.Pool.{Pool}

pub record GcInfo : Type 0 where
  pub pool_name : String
  pub seen : ℕ
  pub collecting : Bool

-- `allowed` is the number of free nodes that the formula gives for all nodes and the busy ones.
pub record GcConfig : Type 0 where
  pub cicles_to_gc : ℕ
  pub allowed : Option (ℕ → ℕ → ℤ)

-- How many allocations each node has. An allocation on a node that the pool does not have counts too.
unfoldable pub count_nodes : List Node → Dict ℕ → Dict ℕ
count_nodes [] counts = counts
count_nodes (n ∷ ns) counts = count_nodes ns (insert n.id 0 counts)

unfoldable pub count_allocs : List Allocation → Dict ℕ → Dict ℕ
count_allocs [] counts = counts
count_allocs (a ∷ rest) counts =
    count_allocs rest (insert a.node_id (get_or_else (lookup a.node_id counts) 0 + 1) counts)

unfoldable pub allocs_by_nodes : Pool → Dict ℕ
unfolding count_nodes count_allocs
allocs_by_nodes p = count_allocs (values p.nomad_allocs) (count_nodes (values p.nomad_nodes) [])

-- The nodes seen empty so far, those seen in this cycle, and how many of the pool are busy.
pub record Marking : Type 0 where
  pub infos : Dict GcInfo
  pub current : List String
  pub busy : ℕ

abbrev pub new_info : GcInfo
new_info = record { pool_name = ""; seen = 0; collecting = false }

abbrev pub seen_again : String → GcInfo → GcInfo
seen_again pool g = record { pool_name = pool; seen = suc g.seen; collecting = g.collecting }

unfoldable pub mark_node : String → String → ℕ → Marking → Marking
mark_node pool id count t =
    if count == 0
    then record {
      infos = insert id (seen_again pool (get_or_else (lookup id t.infos) new_info)) t.infos;
      current = id ∷ t.current;
      busy = t.busy;
    }
    else record t { busy = suc t.busy }

unfoldable pub mark_nodes : String → Dict ℕ → Marking → Marking
unfolding mark_node
mark_nodes pool [] t = t
mark_nodes pool ((id, count) ∷ rest) t = mark_nodes pool rest (mark_node pool id count t)

-- What the visits to the pools collect. `warm_ups` are the pools that are warmed up, each with how
-- many nodes.
pub record Cycle : Type 0 where
  pub infos : Dict GcInfo
  pub current : List String
  pub allowed : Dict ℤ
  pub warm_ups : List (String × ℕ)

unfoldable pub allow : Option (ℕ → ℕ → ℤ) → String → ℕ → ℕ → Cycle → Cycle
allow none name total busy c = c
allow (some f) name total busy c =
    let free = f total busy in
    let to_launch = free -ℤ sub_ℕ total busy in
    record c {
      allowed = insert name free c.allowed;
      warm_ups =
          if ltb_ℤ (pos 0) to_launch
          then c.warm_ups ++ (name, pos_part to_launch) ∷ []
          else c.warm_ups;
    }

unfoldable pub visit_pool : GcConfig → String → Pool → Cycle → Cycle
unfolding allocs_by_nodes mark_nodes allow
visit_pool cfg name p c =
    let t =
      mark_nodes name (allocs_by_nodes p)
        (record { infos = c.infos; current = c.current; busy = 0 }) in
    allow cfg.allowed name (length p.nomad_nodes) t.busy
      (record c { infos = t.infos; current = t.current })

unfoldable pub visit_pools : GcConfig → Dict Pool → Cycle → Cycle
unfolding visit_pool
visit_pools cfg [] c = c
visit_pools cfg ((name, p) ∷ pools) c = visit_pools cfg pools (visit_pool cfg name p c)

-- The nodes that were not seen in this cycle are forgotten.
unfoldable pub cleanup : List String → Dict GcInfo → Dict GcInfo
cleanup current [] = []
cleanup current ((id, g) ∷ rest) =
    let kept = cleanup current rest in
    if any (λ k. str_eq k id) current then (id, g) ∷ kept else kept

-- How many free nodes the pool may still keep, and the nodes of the pool to be removed.
abbrev pub allowed_of : String → Dict ℤ → ℤ
allowed_of pool allowed = get_or_else (lookup pool allowed) (pos 0)

abbrev pub removed_of : String → Dict (List String) → List String
removed_of pool removed = get_or_else (lookup pool removed) []

-- A node that was empty for enough cycles and is not being collected yet is a candidate.
abbrev pub is_candidate : ℕ → GcInfo → Bool
is_candidate cicles g = leb cicles g.seen && not g.collecting

unfoldable pub sweep_node :
    ℕ → String → GcInfo → Dict ℤ → Dict (List String) → GcInfo × Dict ℤ × Dict (List String)
sweep_node cicles id g allowed removed =
    if is_candidate cicles g
    then (if ltb_ℤ (pos 0) (allowed_of g.pool_name allowed)
        then (g, insert g.pool_name (allowed_of g.pool_name allowed -ℤ pos 1) allowed, removed)
        else (
          record g { collecting = true },
          allowed,
          insert g.pool_name (removed_of g.pool_name removed ++ id ∷ []) removed,
        ))
    else (g, allowed, removed)

unfoldable pub sweep :
    ℕ → Dict GcInfo → Dict ℤ → Dict (List String) → Dict GcInfo × Dict (List String)
unfolding sweep_node
sweep cicles [] allowed removed = ([], removed)
sweep cicles ((id, g) ∷ rest) allowed removed =
    let step = sweep_node cicles id g allowed removed in
    let out = sweep cicles rest step.1 step.2 in ((id, step.0) ∷ out.0, out.1)

-- What a cycle leaves for the next, and what it does: the pools to warm up, and the nodes of each
-- pool that are drained and removed.
pub record GcOutcome : Type 0 where
  pub infos : Dict GcInfo
  pub warm_ups : List (String × ℕ)
  pub removed : Dict (List String)

unfoldable pub gc_visits : GcConfig → Dict Pool → Dict GcInfo → Cycle
unfolding visit_pools
gc_visits cfg pools infos =
    visit_pools cfg pools (record { infos = infos; current = []; allowed = []; warm_ups = [] })

unfoldable pub gc_cycle : GcConfig → Dict Pool → Dict GcInfo → GcOutcome
unfolding gc_visits cleanup sweep
gc_cycle cfg pools infos =
    let c = gc_visits cfg pools infos in
    let out = sweep cfg.cicles_to_gc (cleanup c.current c.infos) c.allowed [] in
    record { infos = out.0; warm_ups = c.warm_ups; removed = out.1 }
