-- ===== src/Scaling/Estimate/Enough.antt =====
-- When estimateRequiredNodes.go ends, and with what.
use nomad_ondemand_scaler.Prelude.{
  ℕ, Bool-cases, ltb, inl, inr, Option-cases, zero, suc, ◌*◌, ◌≤◌, ◌<◌, ◌≡◌, refl, String, true,
  Option, none, some, ◌++◌, length, All, any-append, false, List, [], ◌∷◌, str_eq, eq_iff, arith,
  lt→ltb, subst, sym,
}
use mathlib.Core.List.{append-nil}
use nomad_ondemand_scaler.Nomad.{
  Node, Allocation, NomadApi, TaskGroup, Job, Scheduler, has_node, is_used,
}
use nomad_ondemand_scaler.Pool.{Pool}
use nomad_ondemand_scaler.Scaling.Estimate.{
  estimate_required_nodes, Estimating, fill, grow, place, prepare,
}
use nomad_ondemand_scaler.Scaling.Estimate.Filling.{Fits, IsSupply, Inv, fill-Filled}

new_unseen :
    (u : String) (old nodes new : List Node)
    → nodes ≡ old ++ new
    → has_node u nodes ≡ false
    → has_node u new ≡ false
new_unseen u old nodes new e h = ground (arith, e, h, any-append (λ n. str_eq n.id u) old new)

-- Allocations that stand on the nodes stand on none of another id.
unused_of_placed :
    (u : String) (nodes : List Node) (allocs : List Allocation)
    → All (λ a. has_node a.node_id nodes ≡ true) allocs
    → has_node u nodes ≡ false
    → is_used u allocs ≡ false
unused_of_placed u nodes [] placed h = refl
unused_of_placed u nodes (a ∷ rest) placed h =
    ground (arith, unused_of_placed u nodes rest placed.1 h, placed.0, h, eq_iff a.node_id u)

module _ {Stack : Type 0} (sched : Scheduler Stack) (api : NomadApi) (uuid : ℕ → String)
    (get_node : String → Node) (job : Job) (tg : TaskGroup) where
  open sched use {set_nodes, select, nodes_of, set_nodes_lem, select_keeps, select_sound}

  module _ (p : Pool) (en : List Node) (ea : List Allocation) (count fresh : ℕ)
      (stack : Stack) where
    abbrev estimate : ℕ → Option (Estimating Stack)
    estimate fuel =
        estimate_required_nodes sched api uuid get_node job tg fuel p en ea count fresh stack

    prepared :
        ((k : ℕ)
          → fresh ≤ k
          → (has_node (uuid k) (p.ephemeral_nodes ++ en) ≡ false)
            × (is_used (uuid k) (p.ephemeral_allocs ++ ea) ≡ false))
        → Inv sched api uuid get_node job tg (p.ephemeral_nodes ++ en) (
            prepare sched api uuid get_node job tg p.ephemeral_nodes p.ephemeral_allocs en ea fresh
              stack)
    unfolding prepare
    prepared unseen = record {
      known = set_nodes_lem (p.ephemeral_nodes ++ en) stack;
      unused = λ k h. (unseen k h).1;
      unmade = λ k h. (unseen k h).0;
      split = sym (append-nil (p.ephemeral_nodes ++ en));
      placed = tt;
    }

    -- If the uuids to come do not repeat and are not in use, `GetNode` names the node by its
    -- argument, and the scheduler finds a node for one allocation of the task group whenever the
    -- nodes end with a new node of the pool that nothing is on, then with more fuel than two rounds
    -- for each allocation the estimate ends, and it gives exactly the allocations asked for, at most
    -- as many new nodes, and each allocation stands on an ephemeral node of the pool, on one given
    -- before, or on a new one.
    pub estimate-enough :
        (fuel : ℕ)
        → IsSupply sched api uuid get_node job tg
        → Fits sched get_node tg uuid
        → ((k : ℕ)
            → fresh ≤ k
            → (has_node (uuid k) (p.ephemeral_nodes ++ en) ≡ false)
              × (is_used (uuid k) (p.ephemeral_allocs ++ ea) ≡ false))
        → 2 * count < fuel
        → (t : Estimating Stack) × (estimate fuel ≡ some t)
          × (length t.new_allocs ≡ count)
          × (length t.new_nodes ≤ count)
          × All
              (λ a. has_node a.node_id ((p.ephemeral_nodes ++ en) ++ t.new_nodes) ≡ true)
              t.new_allocs
    unfolding estimate_required_nodes prepare
    estimate-enough fuel supply fits unseen enough =
        let (t, e, la, ln, v) =
          fill-Filled sched api uuid get_node job tg (p.ephemeral_nodes ++ en) supply fits count
            count fuel 0
            (prepare sched api uuid get_node job tg p.ephemeral_nodes p.ephemeral_allocs en ea fresh
              stack)
            (omega arith) enough (prepared unseen) in
        (
          t,
          e,
          omega (arith, la),
          omega (arith, ln),
          subst (λ ns. All (λ a. has_node a.node_id ns ≡ true) t.new_allocs) v.split v.placed,
        )

    fill_fresh :
        (fuel i : ℕ) (s t : Estimating Stack)
        → fill sched api uuid get_node job tg fuel count i s ≡ some t
        → s.fresh ≤ t.fresh
    unfolding fill grow place
    fill_fresh zero i s t h = absurd (cc)
    fill_fresh (suc fuel) i s t h = elim (Bool-cases (ltb i count)) [
      | inr over ↦
          let same : s ≡ t = cc (rw over at h) in
          subst (λ (r : Estimating Stack). s.fresh ≤ r.fresh) same (omega arith)
      | inl more ↦ elim (Option-cases (select tg s.plan s.stack).1) [
        | inl e ↦ omega (
          arith,
          fill_fresh fuel i (grow sched api uuid get_node job tg (select tg s.plan s.stack).0 s) t
              (rw (more, e) at h),
        )
        | inr (n, e) ↦ omega (
          arith,
          fill_fresh fuel (suc i)
              (place sched api uuid get_node job tg (suc i) n (select tg s.plan s.stack).0 s) t
              (rw (more, e) at h),
        )
      ]
    ]

    -- The estimate with what the next one needs to know: its new ids are not those to come.
    pub estimate-later :
        (fuel : ℕ)
        → IsSupply sched api uuid get_node job tg
        → Fits sched get_node tg uuid
        → ((k : ℕ)
            → fresh ≤ k
            → (has_node (uuid k) (p.ephemeral_nodes ++ en) ≡ false)
              × (is_used (uuid k) (p.ephemeral_allocs ++ ea) ≡ false))
        → 2 * count < fuel
        → (t : Estimating Stack) × (estimate fuel ≡ some t)
          × (length t.new_allocs ≡ count)
          × (fresh ≤ t.fresh)
          × ((k : ℕ)
              → t.fresh ≤ k
              → (has_node (uuid k) t.new_nodes ≡ false) × (is_used (uuid k) t.new_allocs ≡ false))
    unfolding estimate_required_nodes prepare
    estimate-later fuel supply fits unseen enough =
        let first =
          prepare sched api uuid get_node job tg p.ephemeral_nodes p.ephemeral_allocs en ea fresh
            stack in
        let (t, e, la, ln, v) =
          fill-Filled sched api uuid get_node job tg (p.ephemeral_nodes ++ en) supply fits count
            count fuel 0 first (omega arith) enough (prepared unseen) in
        (
          t,
          e,
          omega (arith, la),
          fill_fresh fuel 0 first t e,
          λ k h. (
            new_unseen (uuid k) (p.ephemeral_nodes ++ en) t.nodes t.new_nodes v.split
                (v.unmade k h),
            unused_of_placed (uuid k) t.nodes t.new_allocs v.placed (v.unmade k h),
          ),
        )

    module _ (never : (plan : List Allocation) (s : Stack) → (select tg plan s).1 ≡ none) where
      fill_never :
          (fuel : ℕ) (s : Estimating Stack)
          → 0 < count
          → fill sched api uuid get_node job tg fuel count 0 s ≡ none
      unfolding fill
      fill_never zero s h = refl
      fill_never (suc fuel) s h = rw (lt→ltb 0 count h, never s.plan s.stack) (fill_never fuel _ h)

      -- If the scheduler never has room and an allocation is asked for, no fuel is enough: the loop
      -- adds nodes for ever.
      pub estimate_never : (fuel : ℕ) → 0 < count → estimate fuel ≡ none
      unfolding estimate_required_nodes
      estimate_never fuel h = fill_never fuel _ h
