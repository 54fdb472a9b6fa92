-- ===== src/Gc/Counting.antt =====
-- What a cycle of gcAction.go counts: which nodes of a pool are empty, and how often each was seen so.
use nomad_ondemand_scaler.Prelude.{
  ℕ, suc, ◌+◌, ◌≡◌, refl, String, Bool, false, not, ◌&&◌, ◌||◌, Option, none, some, List, [], ◌∷◌,
  any, length, ◌==◌, if◌then◌else◌, str_eq, eq_iff, arith, get_or_else,
}
use nomad_ondemand_scaler.Prelude.Int.{ℤ}
use nomad_ondemand_scaler.Prelude.Dict.{
  Dict, lookup, insert, values, lookup-insert, IsKeyed, insert-IsKeyed, map_option,
}
use nomad_ondemand_scaler.Nomad.{Node, Allocation, has_node, is_used}
use nomad_ondemand_scaler.Pool.{Pool}
use nomad_ondemand_scaler.Gc.{
  GcInfo, GcConfig, count_nodes, count_allocs, allocs_by_nodes, Marking, new_info, seen_again,
  mark_node, mark_nodes, Cycle, allow, visit_pool, visit_pools,
}

abbrev pub is_empty : String → Pool → Bool
is_empty id p = has_node id (values p.nomad_nodes) && not (is_used id (values p.nomad_allocs))

-- How many of the pools have the node, and nothing on it.
abbrev pub empties : String → Dict Pool → ℕ
empties id [] = 0
empties id ((name, p) ∷ pools) = if is_empty id p then suc (empties id pools) else empties id pools

abbrev pub seen_of : String → Dict GcInfo → ℕ
seen_of id infos = get_or_else (map_option (λ (g : GcInfo). g.seen) (lookup id infos)) 0

abbrev is_zero : Option ℕ → Bool
is_zero none = false
is_zero (some n) = n == 0

lookup-count_nodes :
    (id : String) (ns : List Node) (counts : Dict ℕ)
    → lookup id (count_nodes ns counts) ≡ (if has_node id ns then some 0 else lookup id counts)
unfolding count_nodes
lookup-count_nodes id [] counts = refl
lookup-count_nodes id (n ∷ ns) counts =
    ground (arith, lookup-count_nodes id ns (insert n.id 0 counts), lookup-insert n.id id 0 counts)

is_zero-count_allocs :
    (id : String) (allocs : List Allocation) (counts : Dict ℕ)
    → is_zero (lookup id (count_allocs allocs counts))
      ≡ is_zero (lookup id counts) && not (is_used id allocs)
unfolding count_allocs
is_zero-count_allocs id [] counts = ground arith
is_zero-count_allocs id (a ∷ rest) counts = ground (
  arith,
  is_zero-count_allocs id rest
      (insert a.node_id (get_or_else (lookup a.node_id counts) 0 + 1) counts),
  lookup-insert a.node_id id (get_or_else (lookup a.node_id counts) 0 + 1) counts,
  eq_iff a.node_id id,
)

pub is_zero-allocs_by_nodes :
    (id : String) (p : Pool) → is_zero (lookup id (allocs_by_nodes p)) ≡ is_empty id p
unfolding allocs_by_nodes lookup
is_zero-allocs_by_nodes id p = ground (
  arith,
  is_zero-count_allocs id (values p.nomad_allocs) (count_nodes (values p.nomad_nodes) []),
  lookup-count_nodes id (values p.nomad_nodes) [],
)

count_nodes-IsKeyed :
    (ns : List Node) (counts : Dict ℕ) → IsKeyed counts → IsKeyed (count_nodes ns counts)
unfolding count_nodes
count_nodes-IsKeyed [] counts h = h
count_nodes-IsKeyed (n ∷ ns) counts h =
    count_nodes-IsKeyed ns (insert n.id 0 counts) (insert-IsKeyed n.id 0 counts h)

count_allocs-IsKeyed :
    (allocs : List Allocation) (counts : Dict ℕ)
    → IsKeyed counts
    → IsKeyed (count_allocs allocs counts)
unfolding count_allocs
count_allocs-IsKeyed [] counts h = h
count_allocs-IsKeyed (a ∷ rest) counts h =
    count_allocs-IsKeyed rest _ (insert-IsKeyed a.node_id _ counts h)

pub allocs_by_nodes-IsKeyed : (p : Pool) → IsKeyed (allocs_by_nodes p)
unfolding allocs_by_nodes
allocs_by_nodes-IsKeyed p =
    count_allocs-IsKeyed (values p.nomad_allocs) (count_nodes (values p.nomad_nodes) [])
      (count_nodes-IsKeyed (values p.nomad_nodes) [] tt)

-- One more if it is so.
abbrev pub one_if_empty : Bool → ℕ
one_if_empty b = if b then 1 else 0

-- What the marking of a pool's nodes does to a node of whose count it is said whether it is zero.
abbrev pub Marked : String → Bool → Marking → Marking → Type 0
Marked id b t u =
    (seen_of id u.infos ≡ seen_of id t.infos + one_if_empty b)
    × (any (λ k. str_eq k id) u.current ≡ b || any (λ k. str_eq k id) t.current)

mark_node-Marked :
    (pool id : String) (k : String) (count : ℕ) (t : Marking)
    → Marked id (str_eq k id && count == 0) t (mark_node pool k count t)
unfolding mark_node
mark_node-Marked pool id k count t = ground (
  arith,
  lookup-insert k id (seen_again pool (get_or_else (lookup k t.infos) new_info)) t.infos,
  eq_iff k id,
)

pub mark_nodes-Marked :
    (pool id : String) (counts : Dict ℕ) (t : Marking)
    → IsKeyed counts
    → Marked id (is_zero (lookup id counts)) t (mark_nodes pool counts t)
unfolding mark_nodes lookup
mark_nodes-Marked pool id [] t h = (omega arith, refl)
mark_nodes-Marked pool id ((k, count) ∷ counts) t h =
    let (seen, current) = mark_nodes-Marked pool id counts (mark_node pool k count t) h.1 in
    let (seen', current') = mark_node-Marked pool id k count t in
    ground (arith, seen, current, seen', current', eq_iff k id)

mark_node-IsKeyed :
    (pool k : String) (count : ℕ) (t : Marking)
    → IsKeyed t.infos
    → IsKeyed (mark_node pool k count t).infos
unfolding mark_node
mark_node-IsKeyed pool k count t h =
    ground (
      arith,
      insert-IsKeyed k (seen_again pool (get_or_else (lookup k t.infos) new_info)) t.infos h,
    )

pub mark_nodes-IsKeyed :
    (pool : String) (counts : Dict ℕ) (t : Marking)
    → IsKeyed t.infos
    → IsKeyed (mark_nodes pool counts t).infos
unfolding mark_nodes
mark_nodes-IsKeyed pool [] t h = h
mark_nodes-IsKeyed pool ((k, count) ∷ counts) t h =
    mark_nodes-IsKeyed pool counts (mark_node pool k count t) (mark_node-IsKeyed pool k count t h)

allow-fields :
    (f : Option (ℕ → ℕ → ℤ)) (name : String) (total busy : ℕ) (c : Cycle)
    → ((allow f name total busy c).infos ≡ c.infos)
      × ((allow f name total busy c).current ≡ c.current)
unfolding allow
allow-fields none name total busy c = (refl, refl)
allow-fields (some f) name total busy c = (refl, refl)

-- What the visits do to a node that is empty in so many of the pools.
abbrev pub Visited : String → ℕ → Cycle → Cycle → Type 0
Visited id n c d =
    (seen_of id d.infos ≡ seen_of id c.infos + n)
    × (any (λ k. str_eq k id) d.current ≡ not (n == 0) || any (λ k. str_eq k id) c.current)

visit_pool-Visited :
    (cfg : GcConfig) (id name : String) (p : Pool) (c : Cycle)
    → Visited id (one_if_empty (is_empty id p)) c (visit_pool cfg name p c)
      × (IsKeyed c.infos → IsKeyed (visit_pool cfg name p c).infos)
unfolding visit_pool
visit_pool-Visited cfg id name p c =
    let t : Marking = record { infos = c.infos; current = c.current; busy = 0 } in
    let u = mark_nodes name (allocs_by_nodes p) t in
    let (seen, current) =
      mark_nodes-Marked name id (allocs_by_nodes p) t (allocs_by_nodes-IsKeyed p) in
    let (infos, now) =
      allow-fields cfg.allowed name (length p.nomad_nodes) u.busy
        (record c { infos = u.infos; current = u.current }) in
    rw (infos, now)
      (
        ground (arith, seen, current, is_zero-allocs_by_nodes id p),
        mark_nodes-IsKeyed name (allocs_by_nodes p) t,
      )

pub visit_pools-Visited :
    (cfg : GcConfig) (id : String) (pools : Dict Pool) (c : Cycle)
    → Visited id (empties id pools) c (visit_pools cfg pools c)
      × (IsKeyed c.infos → IsKeyed (visit_pools cfg pools c).infos)
unfolding visit_pools
visit_pools-Visited cfg id [] c = ((omega arith, refl), λ h. h)
visit_pools-Visited cfg id ((name, p) ∷ pools) c =
    let (seen, keyed) = visit_pool-Visited cfg id name p c in
    let (seen', keyed') = visit_pools-Visited cfg id pools (visit_pool cfg name p c) in
    (ground (arith, seen, seen'), λ h. keyed' (keyed h))
