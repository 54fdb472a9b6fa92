-- ===== src/Pool/Placing.antt =====
-- A new allocation in pool.go takes the place of the first ephemeral one that stands for its task
-- group, and at most one idle ephemeral node goes with it.
use nomad_ondemand_scaler.Prelude.{
  ℕ, suc, ◌+◌, ◌≤◌, ◌≡◌, refl, String, Bool, true, false, ◌&&◌, ◌||◌, Option, none, some, List, [],
  ◌∷◌, length, erase_idx, if◌then◌else◌, eq_iff, arith, Bool-cases, inl, inr,
}
use nomad_ondemand_scaler.Prelude.Dict.{insert, delete, has, lookup, lookup-insert, lookup-delete}
use nomad_ondemand_scaler.Nomad.{Node, Allocation, NomadApi, has_node, is_used}
use nomad_ondemand_scaler.Pool.{Pool, Outcome, drop_node, open_of, send_all}
use nomad_ondemand_scaler.Pool.Allocations.{
  stands_for, scan, is_in, is_live, drop_idle, give_up, settle, keep_alloc, give_place, owns,
}
use nomad_ondemand_scaler.Pool.Valid.{IsValid, give_up-maps, drop_node-IsValid}

-- The first ephemeral allocation that stands for `a`.
abbrev pub first_for : Allocation → List Allocation → Option Allocation
first_for a [] = none
first_for a (e ∷ es) = if stands_for a e then some e else first_for a es

-- All but that one.
abbrev pub without_first : Allocation → List Allocation → List Allocation
without_first a [] = []
without_first a (e ∷ es) = if stands_for a e then es else e ∷ without_first a es

-- Once one is found the loop only collects nodes.
scan_rest :
    (a : Allocation) (i : ℕ) (found : ℕ × Allocation) (k : String) (nodes : List String)
    (es : List Allocation)
    → ((scan a i (some found) nodes es).0 ≡ some found)
      × (is_in k (scan a i (some found) nodes es).1 ≡ is_used k es || is_in k nodes)
unfolding scan
scan_rest a i found k nodes [] = (refl, refl)
scan_rest a i found k nodes (e ∷ es) =
    let (same, used) = scan_rest a (suc i) found k (e.node_id ∷ nodes) es in
    (same, ground (arith, used))

-- What the loop finds from position `i`, and the nodes that it collects.
abbrev Found : Allocation → ℕ → List Allocation → Option (ℕ × Allocation) → Type 0
Found a i es none = (first_for a es ≡ none) × (without_first a es ≡ es)
Found a i es (some (j, e)) =
    (n : ℕ) × (j ≡ i + n) × (first_for a es ≡ some e) × (without_first a es ≡ erase_idx es n)

Found-later :
    (a e : Allocation) (i : ℕ) (es : List Allocation) (o : Option (ℕ × Allocation))
    → stands_for a e ≡ false
    → Found a (suc i) es o
    → Found a i (e ∷ es) o
Found-later a e i es none miss (none_for, same) = rw miss (none_for, rw same)
Found-later a e i es (some (j, x)) miss (n, at, is_first, left) =
    rw miss (suc n, omega arith, is_first, rw left)

scan_hit :
    (a e : Allocation) (i : ℕ) (nodes : List String) (es : List Allocation)
    → stands_for a e ≡ true
    → scan a i none nodes (e ∷ es) ≡ scan a (suc i) (some (i, e)) nodes es
unfolding scan
scan_hit a e i nodes es hit = rw hit

scan_miss :
    (a e : Allocation) (i : ℕ) (nodes : List String) (es : List Allocation)
    → stands_for a e ≡ false
    → scan a i none nodes (e ∷ es) ≡ scan a (suc i) none (e.node_id ∷ nodes) es
unfolding scan
scan_miss a e i nodes es miss = rw miss

scan-Found :
    (a : Allocation) (i : ℕ) (k : String) (nodes : List String) (es : List Allocation)
    → Found a i es (scan a i none nodes es).0
      × (is_in k (scan a i none nodes es).1 ≡ is_used k (without_first a es) || is_in k nodes)
unfolding scan
scan-Found a i k nodes [] = ((refl, refl), refl)
scan-Found a i k nodes (e ∷ es) = elim (Bool-cases (stands_for a e)) [
  | inl hit ↦
      let (same, used) = scan_rest a (suc i) (i, e) k nodes es in
      rw (scan_hit a e i nodes es hit, same) ((0, omega arith, rw hit, rw hit), rw hit used)
  | inr miss ↦
      let (found, used) = scan-Found a (suc i) k (e.node_id ∷ nodes) es in
      rw (scan_miss a e i nodes es miss) (
        Found-later a e i es (scan a (suc i) none (e.node_id ∷ nodes) es).0 miss found,
        ground (arith, used),
      )
]

has_node-drop_idle :
    (k : String) (used : List String) (ns : List Node)
    → is_in k used ≡ true
    → has_node k (drop_idle used ns) ≡ has_node k ns
unfolding drop_idle
has_node-drop_idle k used [] h = refl
has_node-drop_idle k used (n ∷ ns) h = ground (arith, has_node-drop_idle k used ns h, eq_iff n.id k)

length-drop_idle :
    (used : List String) (ns : List Node) → length ns ≤ suc (length (drop_idle used ns))
unfolding drop_idle
length-drop_idle used [] = omega arith
length-drop_idle used (n ∷ ns) = ground (arith, length-drop_idle used ns)

-- Who is told of the allocation that was given up.
abbrev pub notices : (ℕ → Bool) → List ℕ → Option Allocation → List (ℕ × String)
notices closed cs none = []
notices closed cs (some e) = send_all e.id (open_of closed cs)

abbrev pub Settled : Allocation → (ℕ → Bool) → Pool → Outcome → Type 0
Settled a closed p o =
    (o.pool.ephemeral_allocs ≡ without_first a p.ephemeral_allocs)
    × (o.told_allocs ≡ notices closed p.alloc_consumers (first_for a p.ephemeral_allocs))
    × (length p.ephemeral_nodes ≤ suc (length o.pool.ephemeral_nodes))
    × ((k : String)
        → is_used k o.pool.ephemeral_allocs && has_node k o.pool.ephemeral_nodes
          ≡ is_used k o.pool.ephemeral_allocs && has_node k p.ephemeral_nodes)

give_up-Settled :
    (a : Allocation) (closed : ℕ → Bool) (p : Pool) (found : Option (ℕ × Allocation))
    (used : List String)
    → Found a 0 p.ephemeral_allocs found
    → ((k : String) → is_in k used ≡ is_used k (without_first a p.ephemeral_allocs))
    → Settled a closed p (give_up found used closed p)
unfolding give_up
give_up-Settled a closed p none used (none_for, same) covers = (
  rw same,
  rw none_for,
  length-drop_idle used p.ephemeral_nodes,
  λ k. ground (arith, has_node-drop_idle k used p.ephemeral_nodes, covers k, same),
)
give_up-Settled a closed p (some (j, e)) used (n, at, is_first, left) covers = (
  (let here : j ≡ n = omega arith in rw (left, here)),
  rw is_first,
  length-drop_idle used p.ephemeral_nodes,
  λ k. ground (arith, has_node-drop_idle k used p.ephemeral_nodes, covers k, left, at),
)

-- A live allocation that the pool did not have takes out the first ephemeral allocation that stands
-- for it and no other, every open consumer is told of that one's id, at most one ephemeral node is
-- dropped, and none that a remaining ephemeral allocation is on.
pub settle-Settled :
    (c : NomadApi) (a : Allocation) (closed : ℕ → Bool) (p : Pool)
    → is_live c a ≡ true
    → has a.id p.nomad_allocs ≡ false
    → Settled a closed p (settle c a closed p)
unfolding settle keep_alloc give_place
settle-Settled c a closed p live new =
    let held : Pool = record p { nomad_allocs = insert a.id (c.alloc a) p.nomad_allocs } in
    let found = scan a 0 none [] p.ephemeral_allocs in
    rw (live, new)
      (give_up-Settled a closed held found.0 found.1 (scan-Found a 0 a.id [] p.ephemeral_allocs).0
        (λ k. ground (arith, (scan-Found a 0 k [] p.ephemeral_allocs).1)))

settle-maps :
    (c : NomadApi) (a : Allocation) (closed : ℕ → Bool) (p : Pool)
    → is_live c a ≡ true
    → ((settle c a closed p).pool.nomad_nodes ≡ p.nomad_nodes)
      × ((settle c a closed p).pool.nomad_allocs ≡ insert a.id (c.alloc a) p.nomad_allocs)
unfolding settle keep_alloc give_place
settle-maps c a closed p live = elim (Bool-cases (has a.id p.nomad_allocs)) [
  | inl old ↦ rw (live, old) (refl, refl)
  | inr new ↦
      let held : Pool = record p { nomad_allocs = insert a.id (c.alloc a) p.nomad_allocs } in
      let found = scan a 0 none [] p.ephemeral_allocs in
      rw (live, new) (give_up-maps found.0 found.1 closed held)
]

drop_node-nodes : (id : String) (p : Pool) → (drop_node id p).nomad_nodes ≡ delete id p.nomad_nodes
unfolding drop_node
drop_node-nodes id p = refl

-- The sections of `tryNomadAllocation` are not one: if a valid pool has the node of a live allocation
-- and the node goes down after that was tested, then the pool is valid between, and afterwards it
-- holds the allocation, on a node that it does not have.
pub settle_after_drop :
    (c : NomadApi) (a : Allocation) (closed : ℕ → Bool) (p : Pool)
    → IsValid p
    → owns a p ≡ true
    → is_live c a ≡ true
    → let between = drop_node a.node_id p in
      let q = (settle c a closed between).pool in
      IsValid between
      × (lookup a.id q.nomad_allocs ≡ some (c.alloc a))
      × ((c.alloc a).node_id ≡ a.node_id)
      × (has a.node_id q.nomad_nodes ≡ false)
settle_after_drop c a closed p v owned live =
    let (nodes, allocs) = settle-maps c a closed (drop_node a.node_id p) live in
    (
      drop_node-IsValid a.node_id p v,
      ground (
        arith,
        allocs,
        lookup-insert a.id a.id (c.alloc a) (drop_node a.node_id p).nomad_allocs,
        eq_iff a.id a.id,
      ),
      c.alloc_stays a,
      ground (
        arith,
        nodes,
        drop_node-nodes a.node_id p,
        lookup-delete a.node_id a.node_id p.nomad_nodes,
        eq_iff a.node_id a.node_id,
      ),
    )
