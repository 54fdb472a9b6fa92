-- ===== src/Pools.antt =====
-- All pools together: `processNodes` and `processAllocs` of main.go, and the filling of the pools in
-- `createPools` of pool.go. The two goroutines of main.go run side by side; `process_node` and
-- `process_alloc` are what one of them does to the pools while the other waits. `exists` is what the
-- provider of a pool answers about a node.
pub mod Events
pub mod Made
pub mod Creating
pub mod Listing
use nomad_ondemand_scaler.Prelude.{
  ℕ, String, Bool, true, false, Option, none, some, List, [], ◌∷◌, if◌then◌else◌,
}
use nomad_ondemand_scaler.Prelude.Dict.{Dict, insert}
use nomad_ondemand_scaler.Nomad.{Node, Allocation, NomadApi}
use nomad_ondemand_scaler.Pool.{Pool, try_nomad_node}
use nomad_ondemand_scaler.Pool.Allocations.{try_nomad_allocation}

abbrev pub empty_pool : Pool
empty_pool = record {
  nomad_nodes = [];
  nomad_allocs = [];
  ephemeral_nodes = [];
  ephemeral_allocs = [];
  node_consumers = [];
  alloc_consumers = [];
}

-- What `createPools` is told for a specification: the full name, whether `NewPool` succeeds, and for
-- each node the node and its allocations, where `none` is an error of nomad's API.
pub record Told : Type 0 where
  pub name : String
  pub created : Bool
  pub nodes : List (Option Node × Option (List Allocation))

module _ (c : NomadApi) (exists : String → Node → Bool) (closed : ℕ → Bool) where
  -- The pools are asked one after another until one takes the node; the answer is its name.
  unfoldable pub process_node : Node → Dict Pool → Dict Pool × Option String
  process_node n [] = ([], none)
  process_node n ((name, p) ∷ pools) =
      let o = try_nomad_node c n (exists name n) closed p in
      let later = process_node n pools in
      if o.mine then ((name, o.pool) ∷ pools, some name) else ((name, o.pool) ∷ later.0, later.1)

  unfoldable pub process_alloc : Allocation → Dict Pool → Dict Pool × Option String
  process_alloc a [] = ([], none)
  process_alloc a ((name, p) ∷ pools) =
      let o = try_nomad_allocation c a closed p in
      let later = process_alloc a pools in
      if o.mine then ((name, o.pool) ∷ pools, some name) else ((name, o.pool) ∷ later.0, later.1)

  unfoldable pub add_allocs : List Allocation → Pool → Pool
  add_allocs [] p = p
  add_allocs (a ∷ rest) p = add_allocs rest (try_nomad_allocation c a closed p).pool

  unfoldable pub fill_pool :
      String → List (Option Node × Option (List Allocation)) → Pool → Option Pool
  unfolding add_allocs
  fill_pool name [] p = some p
  fill_pool name ((none, allocs) ∷ rest) p = none
  fill_pool name ((some n, allocs) ∷ rest) p =
      let o = try_nomad_node c n (exists name n) closed p in
      let others = fill_pool name rest o.pool in
      if o.mine
      then elim allocs [ none ↦ none | some found ↦ fill_pool name rest (add_allocs found o.pool) ]
      else others

  unfoldable pub create_pools : List Told → Dict Pool → Option (Dict Pool)
  unfolding fill_pool
  create_pools [] pools = some pools
  create_pools (t ∷ rest) pools =
      elim (if t.created then fill_pool t.name t.nodes empty_pool else none) [
        | none ↦ none
        | some p ↦ create_pools rest (insert t.name p pools)
      ]
