-- ===== src/DumpState/Counted.antt =====
-- The allocations that dumpState_linux.go counts node by node, against those of the pool.
use nomad_ondemand_scaler.Prelude.{
  ℕ, suc, ◌+◌, ◌≡◌, refl, ap, ◌∙◌, String, true, Option, none, some, List, [], ◌∷◌, length, str_eq,
  if◌then◌else◌, eq_iff, eq_refl, arith,
}
use nomad_ondemand_scaler.Prelude.Int.{ℤ}
use nomad_ondemand_scaler.Prelude.Dict.{Dict, lookup, has, IsKeyed}
use nomad_ondemand_scaler.Nomad.{Node, NodeEvent, Allocation}
use nomad_ondemand_scaler.Variant.{Variant}
use nomad_ondemand_scaler.Pool.{Pool}
use nomad_ondemand_scaler.Pool.Valid.{IsValid}
use nomad_ondemand_scaler.PoolSpec.{PoolNodeSpec}
use nomad_ondemand_scaler.DumpState.{
  NodeLine, PoolReport, alloc_count_of, node_lines, alloc_lines, report_of, report_pool,
}

-- Each node is kept under its own id, and has an event.
abbrev pub AreNamed : Dict Node → Type 0
AreNamed [] = Unit
AreNamed ((k, n) ∷ nodes) = (n.id ≡ k) × AreNamed nodes

abbrev pub HaveEvents : Dict Node → Type 0
HaveEvents [] = Unit
HaveEvents ((k, n) ∷ nodes) =
    ((e : NodeEvent) × (events : List NodeEvent) × (n.events ≡ e ∷ events)) × HaveEvents nodes

abbrev pub counted : List NodeLine → ℕ
counted [] = 0
counted (line ∷ lines) = line.alloc_count + counted lines

abbrev total_on : Dict Node → Dict Allocation → ℕ
total_on [] allocs = 0
total_on ((k, n) ∷ nodes) allocs = alloc_count_of n.id allocs + total_on nodes allocs

abbrev times : String → Dict Node → ℕ
times id [] = 0
times id ((k, n) ∷ nodes) = (if str_eq n.id id then 1 else 0) + times id nodes

node_lines-total_on :
    (allocs : Dict Allocation) (nodes : Dict Node)
    → HaveEvents nodes
    → (lines : List NodeLine) × (node_lines allocs nodes ≡ some lines)
      × (length lines ≡ length nodes)
      × (counted lines ≡ total_on nodes allocs)
unfolding node_lines
node_lines-total_on allocs [] h = ([], refl, refl, refl)
node_lines-total_on allocs ((k, n) ∷ nodes) ((e, events, h), later) =
    let (lines, gives, many, sum) = node_lines-total_on allocs nodes later in
    (
      record {
        id = n.id;
        status = n.status;
        first_event = e.timestamp;
        alloc_count = alloc_count_of n.id allocs;
      }
          ∷ lines,
      simp (h, gives),
      ap suc many,
      ap (λ s. alloc_count_of n.id allocs + s) sum,
    )

absent-times :
    (id : String) (nodes : Dict Node) → AreNamed nodes → lookup id nodes ≡ none → times id nodes ≡ 0
unfolding lookup
absent-times id [] h g = refl
absent-times id ((k, n) ∷ nodes) h g = ground (arith, h.0, absent-times id nodes h.1)

has-times :
    (id : String) (nodes : Dict Node)
    → AreNamed nodes
    → IsKeyed nodes
    → has id nodes ≡ true
    → times id nodes ≡ 1
unfolding lookup
has-times id [] h k g = cc
has-times id ((j, n) ∷ nodes) h k g =
    ground (
      arith,
      h.0,
      k.0,
      eq_iff j id,
      eq_refl j,
      absent-times j nodes h.1,
      has-times id nodes h.1 k.1,
    )

total_on-cons :
    (nodes : Dict Node) (k : String) (a : Allocation) (allocs : Dict Allocation)
    → total_on nodes ((k, a) ∷ allocs) ≡ times a.node_id nodes + total_on nodes allocs
unfolding alloc_count_of
total_on-cons [] k a allocs = refl
total_on-cons ((j, n) ∷ nodes) k a allocs = ground (arith, total_on-cons nodes k a allocs)

total_on-nil : (nodes : Dict Node) → total_on nodes [] ≡ 0
unfolding alloc_count_of
total_on-nil [] = refl
total_on-nil ((j, n) ∷ nodes) = omega (arith, total_on-nil nodes)

total_on-placed :
    (nodes : Dict Node) (allocs : Dict Allocation)
    → AreNamed nodes
    → IsKeyed nodes
    → IsKeyed allocs
    → ((k : String) (a : Allocation) → lookup k allocs ≡ some a → has a.node_id nodes ≡ true)
    → total_on nodes allocs ≡ length allocs
unfolding lookup
total_on-placed nodes [] named keyed once placed = total_on-nil nodes
total_on-placed nodes ((k, a) ∷ allocs) named keyed once placed =
    let first : has a.node_id nodes ≡ true = placed k a (ground (arith, eq_refl k)) in
    let rest =
      total_on-placed nodes allocs named keyed once.1
        (λ j b h. placed j b (ground (arith, h, once.0, eq_iff k j))) in
    omega (arith, total_on-cons nodes k a allocs, has-times a.node_id nodes named keyed first, rest)

length-alloc_lines : (allocs : Dict Allocation) → length (alloc_lines allocs) ≡ length allocs
unfolding alloc_lines
length-alloc_lines [] = refl
length-alloc_lines ((k, a) ∷ allocs) = ap suc (length-alloc_lines allocs)

module _ (as_text : String → Option String) (itoa : ℤ → String)
    (hash_text : String → Dict Variant → String) (pick : Dict Node → Option Node) where
  -- Of a pool that is well formed, and whose nodes are each kept under their own id and have an event: there
  -- is a report, with a line for each node and each allocation, as many as it says there are, and the
  -- allocations counted on the nodes are in sum all of them.
  pub report_pool-counted :
      (name : String) (spec : PoolNodeSpec) (p : Pool)
      → IsValid p
      → AreNamed p.nomad_nodes
      → HaveEvents p.nomad_nodes
      → (r : PoolReport) × (report_pool as_text itoa hash_text pick name spec p ≡ some r)
        × (r.total_nodes ≡ length p.nomad_nodes)
        × (length r.nodes ≡ r.total_nodes)
        × (length r.allocs ≡ r.total_allocs)
        × (counted r.nodes ≡ r.total_allocs)
  unfolding report_pool report_of
  report_pool-counted name spec p valid named events =
      let (lines, gives, many, sum) = node_lines-total_on p.nomad_allocs p.nomad_nodes events in
      (
        report_of as_text itoa hash_text pick name spec p lines,
        simp gives,
        refl,
        many,
        length-alloc_lines p.nomad_allocs,
        sum
            ∙ total_on-placed p.nomad_nodes p.nomad_allocs named valid.nodes_keyed
                valid.allocs_keyed valid.allocs_placed,
      )
