-- ===== src/Pool/Valid.antt =====
-- What holds of a pool between two events: every allocation that it keeps stands on a node that it
-- keeps.
use nomad_ondemand_scaler.Prelude.{
  ℕ, ◌≡◌, refl, String, Bool, true, false, Option, none, some, List, [], ◌∷◌, arith, eq_iff, str_eq,
  if◌then◌else◌, Bool-cases, inl, inr,
}
use nomad_ondemand_scaler.Prelude.Dict.{
  Dict, lookup, insert, delete, has, values, IsKeyed, insert-IsKeyed, delete-IsKeyed, lookup-insert,
  lookup-delete,
}
use nomad_ondemand_scaler.Nomad.{Node, Allocation, NomadApi}
use nomad_ondemand_scaler.Pool.{Pool, allocs_on, delete_all, add_node, drop_node, try_nomad_node}
use nomad_ondemand_scaler.Pool.Allocations.{
  is_in, is_live, scan, give_up, keep_alloc, forget_alloc, give_place, settle, owns,
  try_nomad_allocation,
}

-- Each allocation is kept under its own id.
abbrev pub IsNamed : Dict Allocation → Type 0
IsNamed [] = Unit
IsNamed ((k, a) ∷ m) = (a.id ≡ k) × IsNamed m

pub record IsValid (p : Pool) : Type 0 where
  pub nodes_keyed : IsKeyed p.nomad_nodes
  pub allocs_keyed : IsKeyed p.nomad_allocs
  pub allocs_named : IsNamed p.nomad_allocs
  pub allocs_placed :
      (k : String) (a : Allocation)
      → lookup k p.nomad_allocs ≡ some a
      → has a.node_id p.nomad_nodes ≡ true

insert-IsNamed :
    (k : String) (a : Allocation) (m : Dict Allocation)
    → a.id ≡ k
    → IsNamed m
    → IsNamed (insert k a m)
unfolding insert
insert-IsNamed k a [] e h = (e, tt)
insert-IsNamed k a ((j, b) ∷ m) e h = ground (arith, insert-IsNamed k a m e h.1)

delete-IsNamed : (k : String) (m : Dict Allocation) → IsNamed m → IsNamed (delete k m)
unfolding delete
delete-IsNamed k [] h = tt
delete-IsNamed k ((j, b) ∷ m) h = ground (arith, delete-IsNamed k m h.1)

delete_all-IsNamed :
    (ks : List String) (m : Dict Allocation) → IsNamed m → IsNamed (delete_all ks m)
unfolding delete_all
delete_all-IsNamed [] m h = h
delete_all-IsNamed (k ∷ ks) m h = delete_all-IsNamed ks (delete k m) (delete-IsNamed k m h)

delete_all-IsKeyed :
    (ks : List String) (m : Dict Allocation) → IsKeyed m → IsKeyed (delete_all ks m)
unfolding delete_all
delete_all-IsKeyed [] m h = h
delete_all-IsKeyed (k ∷ ks) m h = delete_all-IsKeyed ks (delete k m) (delete-IsKeyed k m h)

lookup-delete_all :
    (k : String) (ks : List String) (m : Dict Allocation)
    → lookup k (delete_all ks m) ≡ (if is_in k ks then none else lookup k m)
unfolding delete_all
lookup-delete_all k [] m = refl
lookup-delete_all k (j ∷ ks) m =
    ground (arith, lookup-delete_all k ks (delete j m), lookup-delete j k m)

abbrev pub on_node : String → Option Allocation → Bool
on_node id none = false
on_node id (some a) = str_eq a.node_id id

in_allocs_on :
    (k id : String) (m : Dict Allocation)
    → IsKeyed m
    → IsNamed m
    → is_in k (allocs_on id (values m)) ≡ on_node id (lookup k m)
unfolding allocs_on lookup
in_allocs_on k id [] h named = refl
in_allocs_on k id ((j, a) ∷ m) h named = ground (arith, in_allocs_on k id m h.1 named.1, eq_iff j k)

-- In a valid pool, dropping a node forgets its allocations and no others.
pub lookup-drop_node :
    (k id : String) (p : Pool)
    → IsValid p
    → lookup k (drop_node id p).nomad_allocs
      ≡ (if on_node id (lookup k p.nomad_allocs) then none else lookup k p.nomad_allocs)
unfolding drop_node
lookup-drop_node k id p v = ground (
  arith,
  lookup-delete_all k (allocs_on id (values p.nomad_allocs)) p.nomad_allocs,
  in_allocs_on k id p.nomad_allocs v.allocs_keyed v.allocs_named,
)

pub drop_node-IsValid : (id : String) (p : Pool) → IsValid p → IsValid (drop_node id p)
unfolding drop_node
drop_node-IsValid id p v = record {
  nodes_keyed = delete-IsKeyed id p.nomad_nodes v.nodes_keyed;
  allocs_keyed =
      delete_all-IsKeyed (allocs_on id (values p.nomad_allocs)) p.nomad_allocs v.allocs_keyed;
  allocs_named =
      delete_all-IsNamed (allocs_on id (values p.nomad_allocs)) p.nomad_allocs v.allocs_named;
  allocs_placed = λ k a e. ground (
    arith,
    lookup-drop_node k id p v,
    v.allocs_placed k a,
    lookup-delete id a.node_id p.nomad_nodes,
    eq_iff id a.node_id,
    eq_iff a.node_id id,
  );
}

-- Validity looks at the two maps alone.
grown-IsValid :
    (id : String) (n : Node) (p q : Pool)
    → q.nomad_nodes ≡ insert id n p.nomad_nodes
    → q.nomad_allocs ≡ p.nomad_allocs
    → IsValid p
    → IsValid q
grown-IsValid id n p q e f v = record {
  nodes_keyed = rw e (insert-IsKeyed id n p.nomad_nodes v.nodes_keyed);
  allocs_keyed = rw f v.allocs_keyed;
  allocs_named = rw f v.allocs_named;
  allocs_placed = λ k a h.
      ground
        (arith, e, v.allocs_placed k a (rw (← f) h), lookup-insert id a.node_id n p.nomad_nodes);
}

add_node-IsValid :
    (id : String) (n : Node) (closed : ℕ → Bool) (already : Bool) (p : Pool)
    → IsValid p
    → IsValid (add_node id n closed already p).pool
unfolding add_node
add_node-IsValid id n closed true p v = grown-IsValid id n p _ refl refl v
add_node-IsValid id n closed false p v = grown-IsValid id n p _ refl refl v

-- A node event keeps a valid pool valid, whatever the provider answers.
pub try_nomad_node-IsValid :
    (c : NomadApi) (n : Node) (exists : Bool) (closed : ℕ → Bool) (p : Pool)
    → IsValid p
    → IsValid (try_nomad_node c n exists closed p).pool
unfolding try_nomad_node
try_nomad_node-IsValid c n exists closed p v = ground (
  arith,
  add_node-IsValid n.id (c.node n) closed (has n.id p.nomad_nodes) p v,
  drop_node-IsValid n.id p v,
)

kept-IsValid :
    (c : NomadApi) (a : Allocation) (p q : Pool)
    → q.nomad_nodes ≡ p.nomad_nodes
    → q.nomad_allocs ≡ insert a.id (c.alloc a) p.nomad_allocs
    → owns a p ≡ true
    → IsValid p
    → IsValid q
kept-IsValid c a p q e f o v = record {
  nodes_keyed = rw e v.nodes_keyed;
  allocs_keyed = rw f (insert-IsKeyed a.id (c.alloc a) p.nomad_allocs v.allocs_keyed);
  allocs_named =
      rw f (insert-IsNamed a.id (c.alloc a) p.nomad_allocs (c.alloc_keeps a) v.allocs_named);
  allocs_placed = λ k b h. ground (
    arith,
    e,
    f,
    h,
    o,
    c.alloc_stays a,
    lookup-insert a.id k (c.alloc a) p.nomad_allocs,
    v.allocs_placed k b,
  );
}

pub give_up-maps :
    (found : Option (ℕ × Allocation)) (used : List String) (closed : ℕ → Bool) (p : Pool)
    → ((give_up found used closed p).pool.nomad_nodes ≡ p.nomad_nodes)
      × ((give_up found used closed p).pool.nomad_allocs ≡ p.nomad_allocs)
unfolding give_up
give_up-maps none used closed p = (refl, refl)
give_up-maps (some (i, e)) used closed p = (refl, refl)

shrunk-IsValid :
    (id : String) (p : Pool)
    → IsValid p
    → IsValid (record p { nomad_allocs = delete id p.nomad_allocs })
shrunk-IsValid id p v = record {
  nodes_keyed = v.nodes_keyed;
  allocs_keyed = delete-IsKeyed id p.nomad_allocs v.allocs_keyed;
  allocs_named = delete-IsNamed id p.nomad_allocs v.allocs_named;
  allocs_placed = λ k a h. ground (arith, v.allocs_placed k a, lookup-delete id k p.nomad_allocs);
}

settle-IsValid :
    (c : NomadApi) (a : Allocation) (closed : ℕ → Bool) (p : Pool)
    → owns a p ≡ true
    → IsValid p
    → IsValid (settle c a closed p).pool
unfolding settle keep_alloc forget_alloc give_place
settle-IsValid c a closed p o v = elim (Bool-cases (is_live c a)) [
  | inr over ↦ rw over (shrunk-IsValid a.id p v)
  | inl live ↦ rw live (elim (Bool-cases (has a.id p.nomad_allocs)) [
    | inl old ↦ rw old (kept-IsValid c a p _ refl refl o v)
    | inr new ↦ rw new (
        let found = scan a 0 none [] p.ephemeral_allocs in
        let held : Pool = record p { nomad_allocs = insert a.id (c.alloc a) p.nomad_allocs } in
        let (e, f) = give_up-maps found.0 found.1 closed held in
        kept-IsValid c a p (give_up found.0 found.1 closed held).pool e f o v)
  ])
]

-- An allocation event, taken whole, keeps a valid pool valid.
pub try_nomad_allocation-IsValid :
    (c : NomadApi) (a : Allocation) (closed : ℕ → Bool) (p : Pool)
    → IsValid p
    → IsValid (try_nomad_allocation c a closed p).pool
unfolding try_nomad_allocation
try_nomad_allocation-IsValid c a closed p v = elim (Bool-cases (owns a p)) [
  | inl mine ↦ rw mine (settle-IsValid c a closed p mine v)
  | inr other ↦ rw other v
]
