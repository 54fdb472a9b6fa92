-- ===== src/Scaling/Estimate/Filling.antt =====
-- The loop of estimateRequiredNodes.go, from one placed allocation to the next.
use nomad_ondemand_scaler.Prelude.{
  ℕ, zero, suc, ◌+◌, ◌*◌, ◌≤◌, ◌<◌, ◌≡◌, ◌≢◌, ◌∙◌, String, true, false, Option, none, some, List,
  [], ◌∷◌, ◌++◌, length, length-append, any-append, All, All-append, All-mono, arith, str_eq,
  eq_iff, lt→ltb, Option-cases, inl, inr,
}
use mathlib.Core.List.{append_assoc}
use nomad_ondemand_scaler.Nomad.{
  Node, Allocation, NomadApi, TaskGroup, Job, Scheduler, has_node, is_used,
}
use nomad_ondemand_scaler.Scaling.Estimate.{Estimating, grow, new_alloc, place, fill}

-- With one more node of the pool, that is new and that nothing is on, the scheduler finds a node for one
-- allocation of the task group.
abbrev pub Fits :
    {Stack : Type 0} → Scheduler Stack → (String → Node) → TaskGroup → (ℕ → String) → Type 0
Fits {Stack} sched get_node tg uuid =
    (k : ℕ) (ns : List Node) (plan : List Allocation) (s : Stack)
    → sched.nodes_of s ≡ ns ++ get_node (uuid k) ∷ []
    → has_node (uuid k) ns ≡ false
    → is_used (uuid k) plan ≡ false
    → (sched.select tg plan s).1 ≢ none

module _ {Stack : Type 0} (sched : Scheduler Stack) (api : NomadApi) (uuid : ℕ → String)
    (get_node : String → Node) (job : Job) (tg : TaskGroup) where
  open sched use {set_nodes, select, nodes_of, set_nodes_lem, select_keeps, select_sound}

  -- The supply of uuids does not repeat, and `GetNode` names the node by its argument.
  pub record IsSupply : Type 0 where
    pub distinct : (j k : ℕ) → uuid j ≡ uuid k → j ≡ k
    pub named : (u : String) → (get_node u).id ≡ u

  pub record Inv (old : List Node) (s : Estimating Stack) : Type 0 where
    pub known : nodes_of s.stack ≡ s.nodes
    pub unused : (k : ℕ) → s.fresh ≤ k → is_used (uuid k) s.plan ≡ false
    pub unmade : (k : ℕ) → s.fresh ≤ k → has_node (uuid k) s.nodes ≡ false
    pub split : s.nodes ≡ old ++ s.new_nodes
    pub placed : All (λ a. has_node a.node_id s.nodes ≡ true) s.new_allocs

  module _ (old : List Node) (supply : IsSupply) where
    grow-Inv :
        (s : Estimating Stack) (stack : Stack)
        → Inv old s
        → Inv old (grow sched api uuid get_node job tg stack s)
    unfolding grow
    grow-Inv s stack v = record {
      known = set_nodes_lem (s.nodes ++ get_node (uuid s.fresh) ∷ []) stack;
      unused = λ k h. v.unused k (omega arith);
      unmade = λ k h. ground (
        arith,
        any-append (λ n. str_eq n.id (uuid k)) s.nodes (get_node (uuid s.fresh) ∷ []),
        v.unmade k,
        supply.named (uuid s.fresh),
        eq_iff (uuid s.fresh) (uuid k),
        supply.distinct s.fresh k,
      );
      split = rw v.split (append_assoc old s.new_nodes (get_node (uuid s.fresh) ∷ []));
      placed =
          All-mono
            (λ a h. ground (
              arith,
              any-append (λ n. str_eq n.id a.node_id) s.nodes (get_node (uuid s.fresh) ∷ []),
            ))
            s.new_allocs v.placed;
    }

    place-Inv :
        (i : ℕ) (n : Node) (stack : Stack) (s : Estimating Stack)
        → nodes_of stack ≡ s.nodes
        → has_node n.id s.nodes ≡ true
        → Inv old s
        → Inv old (place sched api uuid get_node job tg i n stack s)
    unfolding place
    place-Inv i n stack s e h v = record {
      known = e;
      unused = λ k l. ground (
        arith,
        any-append (λ a. str_eq a.node_id (uuid k)) s.plan (a ∷ []),
        v.unused k,
        v.unmade k,
        eq_iff n.id (uuid k),
        h,
      );
      unmade = λ k l. v.unmade k (omega arith);
      split = v.split;
      placed =
          All-append (λ a. has_node a.node_id s.nodes ≡ true) s.new_allocs (a ∷ []) v.placed
            (h, tt);
    }
      where
        a : Allocation
        a = new_alloc sched api uuid get_node job tg i n s

    abbrev pub fill_with : ℕ → ℕ → ℕ → Estimating Stack → Option (Estimating Stack)
    fill_with = fill sched api uuid get_node job tg

    fill_done :
        (fuel count i : ℕ) (s : Estimating Stack)
        → i ≡ count
        → fill_with (suc fuel) count i s ≡ some s
    unfolding fill
    fill_done fuel count i s e = ground arith

    fill_place :
        (fuel count i : ℕ) (s : Estimating Stack) (n : Node)
        → i < count
        → (select tg s.plan s.stack).1 ≡ some n
        → fill_with (suc fuel) count i s
          ≡ fill_with fuel count
              (suc i)
              (place sched api uuid get_node job tg (suc i) n (select tg s.plan s.stack).0 s)
    unfolding fill
    fill_place fuel count i s n l e = rw (lt→ltb i count l, e)

    fill_grow :
        (fuel count i : ℕ) (s : Estimating Stack)
        → i < count
        → (select tg s.plan s.stack).1 ≡ none
        → fill_with (suc fuel) count i s
          ≡ fill_with fuel count i
              (grow sched api uuid get_node job tg (select tg s.plan s.stack).0 s)
    unfolding fill
    fill_grow fuel count i s l e = rw (lt→ltb i count l, e)

    -- The loop ended with `asked` more allocations and at most as many more nodes.
    abbrev pub Filled : Estimating Stack → ℕ → Option (Estimating Stack) → Type 0
    Filled s asked r =
        (t : Estimating Stack) × (r ≡ some t)
        × (length t.new_allocs ≡ length s.new_allocs + asked)
        × (length t.new_nodes ≤ length s.new_nodes + asked)
        × Inv old t

    module _ (fits : Fits sched get_node tg uuid) (count : ℕ) where
      -- The select that follows the adding of a node succeeds.
      grow_fits :
          (s : Estimating Stack)
          → Inv old s
          → let t = grow sched api uuid get_node job tg (select tg s.plan s.stack).0 s in
            (select tg t.plan t.stack).1 ≢ none
      unfolding grow
      grow_fits s v =
          fits s.fresh s.nodes s.plan _
            (set_nodes_lem (s.nodes ++ get_node (uuid s.fresh) ∷ []) (select tg s.plan s.stack).0)
            (v.unmade s.fresh (omega arith)) (v.unused s.fresh (omega arith))

      place_selected :
          (i : ℕ) (s : Estimating Stack) (n : Node)
          → (select tg s.plan s.stack).1 ≡ some n
          → Inv old s
          → Inv old (place sched api uuid get_node job tg (suc i) n (select tg s.plan s.stack).0 s)
      place_selected i s n e v =
          place-Inv (suc i) n (select tg s.plan s.stack).0 s
            (select_keeps tg s.plan s.stack ∙ v.known)
            (rw (← v.known) (select_sound tg s.plan s.stack n e)) v

      abbrev placed_one : ℕ → Estimating Stack → Node → Estimating Stack
      placed_one i s n =
          place sched api uuid get_node job tg (suc i) n (select tg s.plan s.stack).0 s

      abbrev grown_one : Estimating Stack → Estimating Stack
      grown_one s = grow sched api uuid get_node job tg (select tg s.plan s.stack).0 s

      count_place :
          (i asked : ℕ) (s : Estimating Stack) (n : Node) (r : Option (Estimating Stack))
          → Filled (placed_one i s n) asked r
          → Filled s (suc asked) r
      unfolding place
      count_place i asked s n r (t, e, la, ln, v) =
          (t, e, omega (arith, la, length-append {0} s.new_allocs), omega (arith, ln), v)

      count_grow :
          (i asked : ℕ) (s : Estimating Stack) (n : Node) (r : Option (Estimating Stack))
          → Filled (placed_one i (grown_one s) n) asked r
          → Filled s (suc asked) r
      unfolding place grow
      count_grow i asked s n r (t, e, la, ln, v) = (
        t,
        e,
        omega (arith, la, length-append {0} s.new_allocs),
        omega (arith, ln, length-append {0} s.new_nodes),
        v,
      )

      -- After a node is added the next select places, and the rest goes by the given run.
      grown_then :
          (asked fuel i : ℕ) (s : Estimating Stack)
          → i < count
          → Inv old s
          → ((n : Node)
              → (select tg (grown_one s).plan (grown_one s).stack).1 ≡ some n
              → Filled
                  (placed_one i (grown_one s) n)
                  asked
                  (fill_with fuel count (suc i) (placed_one i (grown_one s) n)))
          → Filled s (suc asked) (fill_with (suc fuel) count i (grown_one s))
      grown_then asked fuel i s l v rest =
          elim (Option-cases (select tg (grown_one s).plan (grown_one s).stack).1) [
            | inl e ↦ absurd (grow_fits s v e)
            | inr (n, e) ↦
                rw (fill_place fuel count i (grown_one s) n l e)
                  (count_grow i asked s n _ (rest n e))
          ]

      pub fill-Filled :
          (asked fuel i : ℕ) (s : Estimating Stack)
          → i + asked ≡ count
          → 2 * asked < fuel
          → Inv old s
          → Filled s asked (fill_with fuel count i s)
      fill-Filled asked zero i s c l v = absurd (omega arith)
      fill-Filled zero (suc fuel) i s c l v =
          (s, fill_done fuel count i s (omega arith), omega arith, omega arith, v)
      fill-Filled (suc asked) (suc zero) i s c l v = absurd (omega arith)
      fill-Filled (suc asked) (suc (suc fuel)) i s c l v =
          elim (Option-cases (select tg s.plan s.stack).1) [
            | inr (n, e) ↦ rw (fill_place (suc fuel) count i s n (omega arith) e) (
                count_place i asked s n _ (
                  fill-Filled asked (suc fuel) (suc i) (placed_one i s n) (omega arith)
                    (omega arith) (place_selected i s n e v)))
            | inl e ↦ rw (fill_grow (suc fuel) count i s (omega arith) e) (
                grown_then asked fuel i s (omega arith) v (λ n e'.
                  fill-Filled asked fuel (suc i) (placed_one i (grown_one s) n) (omega arith)
                    (omega arith)
                    (place_selected i (grown_one s) n e'
                      (grow-Inv s (select tg s.plan s.stack).0 v))))
          ]
