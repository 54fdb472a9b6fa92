-- ===== src/Gc/Streaks.antt =====
-- Cycles of gcAction.go one after another: a node is removed only after it was counted as empty as
-- many times in a row as the configuration says. It is counted once for each pool that has it, and cycles
-- in a row are the same where no two pools share a node.
use nomad_ondemand_scaler.Prelude.{
  ℕ, ◌+◌, ◌≤◌, ◌≡◌, refl, String, Bool, true, ◌&&◌, ◌||◌, none, List, [], ◌∷◌, ◌++◌, any,
  any-append, ◌==◌, leb, leb→le, if◌then◌else◌, str_eq, eq_iff, arith,
}
use nomad_ondemand_scaler.Prelude.Int.{ℤ}
use nomad_ondemand_scaler.Prelude.Dict.{Dict, lookup, lookup-insert, IsKeyed}
use nomad_ondemand_scaler.Pool.{Pool}
use nomad_ondemand_scaler.Gc.{
  GcInfo, GcConfig, cleanup, removed_of, sweep_node, sweep, gc_visits, gc_cycle,
}
use nomad_ondemand_scaler.Gc.Counting.{empties, seen_of, visit_pools-Visited}

-- The cycles so far, the latest first, each with what the pools held.
unfoldable pub gc_run : GcConfig → List (Dict Pool) → Dict GcInfo
gc_run cfg [] = []
gc_run cfg (pools ∷ past) = (gc_cycle cfg pools (gc_run cfg past)).infos

-- In how many pools a node was empty, over the latest cycles in which it was in any.
abbrev pub streak : String → List (Dict Pool) → ℕ
streak id [] = 0
streak id (pools ∷ past) = if empties id pools == 0 then 0 else empties id pools + streak id past

lookup-cleanup :
    (id : String) (current : List String) (infos : Dict GcInfo)
    → lookup id (cleanup current infos)
      ≡ (if any (λ k. str_eq k id) current then lookup id infos else none)
unfolding cleanup lookup
lookup-cleanup id current [] = ground arith
lookup-cleanup id current ((k, g) ∷ rest) =
    ground (arith, lookup-cleanup id current rest, eq_iff k id)

cleanup-IsKeyed :
    (current : List String) (infos : Dict GcInfo) → IsKeyed infos → IsKeyed (cleanup current infos)
unfolding cleanup
cleanup-IsKeyed current [] h = h
cleanup-IsKeyed current ((k, g) ∷ rest) h =
    ground (arith, cleanup-IsKeyed current rest h.1, lookup-cleanup k current rest)

sweep_node-seen :
    (cicles : ℕ) (id : String) (g : GcInfo) (allowed : Dict ℤ) (removed : Dict (List String))
    → (sweep_node cicles id g allowed removed).0.seen ≡ g.seen
unfolding sweep_node
sweep_node-seen cicles id g allowed removed = ground arith

sweep-seen_of :
    (cicles : ℕ) (id : String) (infos : Dict GcInfo) (allowed : Dict ℤ)
    (removed : Dict (List String))
    → seen_of id (sweep cicles infos allowed removed).0 ≡ seen_of id infos
unfolding sweep lookup
sweep-seen_of cicles id [] allowed removed = refl
sweep-seen_of cicles id ((k, g) ∷ rest) allowed removed =
    let step = sweep_node cicles k g allowed removed in
    ground (
      arith,
      sweep-seen_of cicles id rest step.1 step.2,
      sweep_node-seen cicles k g allowed removed,
    )

-- The ids are those of the list before.
sweep-absent :
    (cicles : ℕ) (id : String) (infos : Dict GcInfo) (allowed : Dict ℤ)
    (removed : Dict (List String))
    → lookup id infos ≡ none
    → lookup id (sweep cicles infos allowed removed).0 ≡ none
unfolding sweep lookup
sweep-absent cicles id [] allowed removed h = refl
sweep-absent cicles id ((k, g) ∷ rest) allowed removed h =
    let step = sweep_node cicles k g allowed removed in
    ground (arith, sweep-absent cicles id rest step.1 step.2)

sweep-IsKeyed :
    (cicles : ℕ) (infos : Dict GcInfo) (allowed : Dict ℤ) (removed : Dict (List String))
    → IsKeyed infos
    → IsKeyed (sweep cicles infos allowed removed).0
unfolding sweep
sweep-IsKeyed cicles [] allowed removed h = h
sweep-IsKeyed cicles ((k, g) ∷ rest) allowed removed h =
    let step = sweep_node cicles k g allowed removed in
    (sweep-absent cicles k rest step.1 step.2 h.0, sweep-IsKeyed cicles rest step.1 step.2 h.1)

abbrev is_removed : String → String → Dict (List String) → Bool
is_removed id pool removed = any (λ k. str_eq k id) (removed_of pool removed)

-- A node is put on the list of removed ones only as a candidate.
sweep_node-removed :
    (cicles : ℕ) (id pool k : String) (g : GcInfo) (allowed : Dict ℤ) (removed : Dict (List String))
    → is_removed id pool (sweep_node cicles k g allowed removed).2 ≡ true
    → is_removed id pool removed || (str_eq k id && leb cicles g.seen) ≡ true
unfolding sweep_node
sweep_node-removed cicles id pool k g allowed removed h = ground (
  arith,
  lookup-insert g.pool_name pool (removed_of g.pool_name removed ++ k ∷ []) removed,
  any-append (λ j. str_eq j id) (removed_of g.pool_name removed) (k ∷ []),
  eq_iff g.pool_name pool,
)

sweep-removed :
    (cicles : ℕ) (id pool : String) (infos : Dict GcInfo) (allowed : Dict ℤ)
    (removed : Dict (List String))
    → IsKeyed infos
    → is_removed id pool (sweep cicles infos allowed removed).1 ≡ true
    → is_removed id pool removed || leb cicles (seen_of id infos) ≡ true
unfolding sweep lookup
sweep-removed cicles id pool [] allowed removed h r = ground arith
sweep-removed cicles id pool ((k, g) ∷ rest) allowed removed h r =
    let step = sweep_node cicles k g allowed removed in
    ground (
      arith,
      sweep-removed cicles id pool rest step.1 step.2 h.1,
      sweep_node-removed cicles id pool k g allowed removed,
      eq_iff k id,
      h.0,
    )

module _ (cfg : GcConfig) where
  gc_cycle-seen :
      (id : String) (pools : Dict Pool) (infos : Dict GcInfo)
      → seen_of id (gc_cycle cfg pools infos).infos
        ≡ (if empties id pools == 0 then 0 else seen_of id infos + empties id pools)
  unfolding gc_cycle gc_visits
  gc_cycle-seen id pools infos =
      let c = gc_visits cfg pools infos in
      let ((seen, current), keyed) =
        visit_pools-Visited cfg id pools
          (record { infos = infos; current = []; allowed = []; warm_ups = [] }) in
      ground (
        arith,
        seen,
        current,
        sweep-seen_of cfg.cicles_to_gc id (cleanup c.current c.infos) c.allowed [],
        lookup-cleanup id c.current c.infos,
      )

  gc_visits-IsKeyed :
      (pools : Dict Pool) (infos : Dict GcInfo)
      → IsKeyed infos
      → IsKeyed (cleanup (gc_visits cfg pools infos).current (gc_visits cfg pools infos).infos)
  unfolding gc_visits
  gc_visits-IsKeyed pools infos h = cleanup-IsKeyed _ _ (
      (visit_pools-Visited cfg "" pools
          (record { infos = infos; current = []; allowed = []; warm_ups = [] })).1
        h)

  gc_run-IsKeyed : (past : List (Dict Pool)) → IsKeyed (gc_run cfg past)
  unfolding gc_run gc_cycle
  gc_run-IsKeyed [] = tt
  gc_run-IsKeyed (pools ∷ past) =
      sweep-IsKeyed cfg.cicles_to_gc _ _ _
        (gc_visits-IsKeyed pools (gc_run cfg past) (gc_run-IsKeyed past))

  -- After any cycles the count that is kept for a node, if it is kept, is its streak: over the latest
  -- cycles without a break, the number of pools in which it was empty.
  pub gc_run-streak :
      (id : String) (past : List (Dict Pool)) → seen_of id (gc_run cfg past) ≡ streak id past
  unfolding gc_run lookup
  gc_run-streak id [] = refl
  gc_run-streak id (pools ∷ past) =
      ground (arith, gc_cycle-seen id pools (gc_run cfg past), gc_run-streak id past)

  -- A node is handed over for removal, from whatever pool, only if its streak with this cycle has
  -- reached the configured number of cycles.
  pub gc_cycle-removed :
      (id pool : String) (pools : Dict Pool) (past : List (Dict Pool))
      → any (λ k. str_eq k id) (removed_of pool (gc_cycle cfg pools (gc_run cfg past)).removed)
        ≡ true
      → cfg.cicles_to_gc ≤ streak id (pools ∷ past)
  unfolding gc_cycle lookup
  gc_cycle-removed id pool pools past h =
      let c = gc_visits cfg pools (gc_run cfg past) in
      let old = cleanup c.current c.infos in
      ground (
        arith,
        sweep-removed cfg.cicles_to_gc id pool old c.allowed []
            (gc_visits-IsKeyed pools (gc_run cfg past) (gc_run-IsKeyed past)) h,
        sweep-seen_of cfg.cicles_to_gc id old c.allowed [],
        gc_cycle-seen id pools (gc_run cfg past),
        gc_run-streak id past,
        leb→le cfg.cicles_to_gc (seen_of id old),
      )
