-- ===== src/Evals/Placed.antt =====
-- processEvals.go with the answers of feasiblePoolByConstraint.go and poolnodespec.go: which pools the
-- events name. A nil pool has the empty name.
use nomad_ondemand_scaler.Prelude.{
  ℕ, ◌+◌, ◌≡◌, ◌≢◌, refl, subst, String, Bool, true, false, Option, none, some, List, [], ◌∷◌, ◌++◌,
  ◌⊎◌, inl, inr, ltb, all, All, str_eq, get_or_else, Bool-cases, eq_refl,
}
use nomad_ondemand_scaler.Prelude.Int.{ℤ}
use nomad_ondemand_scaler.Prelude.Dict.{Dict, lookup, map_values, lookup-insert}
use nomad_ondemand_scaler.Nomad.{Node, Job, Scheduler}
use nomad_ondemand_scaler.Variant.{Variant}
use nomad_ondemand_scaler.PoolSpec.{PoolNodeSpec}
use nomad_ondemand_scaler.PoolSpec.Suitable.{after_bar, get_optimal_pool_spec}
use nomad_ondemand_scaler.PoolSpec.Known.{All-insert}
use nomad_ondemand_scaler.PoolSpec.Sound.{IsPoolOf, IsSuited, get_optimal_pool_spec-IsSuited}
use nomad_ondemand_scaler.Queue.{enqueue}
use nomad_ondemand_scaler.Feasible.{Checkers, feasible_pool_by_constraint}
use nomad_ondemand_scaler.Evals.Guarded.{latest-total}
use nomad_ondemand_scaler.Evals.{
  Answers, Eval, JobEval, ScalingEvent, State, TgInfo, unallocated, with_pool, is_in, enqueue_event,
  fire_event,
}

abbrev pub full_name_of : Option PoolNodeSpec → String
full_name_of none = ""
full_name_of (some p) = p.full_name

-- No pool, or the full name of one of the job's datacenters.
abbrev pub IsNamed : Job → List PoolNodeSpec → String → Type 0
IsNamed job pools name =
    (name ≡ "") ⊎ ((p : PoolNodeSpec) × IsPoolOf job pools p × (p.full_name ≡ name))

full_name_of-IsNamed :
    (job : Job) (pools : List PoolNodeSpec) (o : Option PoolNodeSpec)
    → IsSuited job pools o
    → IsNamed job pools (full_name_of o)
full_name_of-IsNamed job pools none h = inl refl
full_name_of-IsNamed job pools (some p) h = inr (p, h, refl)

full_names-IsNamed :
    (job : Job) (pools : List PoolNodeSpec) (m : Dict (Option PoolNodeSpec))
    → All (λ e. IsSuited job pools e.1) m
    → All (λ e. IsNamed job pools e.1) (map_values (λ tg. full_name_of) m)
unfolding map_values
full_names-IsNamed job pools [] h = tt
full_names-IsNamed job pools ((tg, o) ∷ m) h =
    (full_name_of-IsNamed job pools o h.0, full_names-IsNamed job pools m h.1)

-- What holds of each pool that is found holds of each that the event names.
module _ (P : String → Type 0) where
  abbrev Holds : Dict TgInfo → Type 0
  Holds = All (λ e. P e.1.pool_name)

  lookup-All :
      (k : String) (m : Dict String) (x : String) → All (λ e. P e.1) m → lookup k m ≡ some x → P x
  unfolding lookup
  lookup-All k [] x h g = absurd (cc g)
  lookup-All k ((j, y) ∷ m) x h g = elim (Bool-cases (str_eq j k)) as (λ b. P x) [
    | inl e ↦ let same : y ≡ x = cc (rw e at g) in subst P same h.0
    | inr e ↦ lookup-All k m x h.1 (rw e at g)
  ]

  with_pool-Holds :
      (tg : String) (queued : ℕ) (o : Option String) (found : Dict TgInfo × ℕ)
      → ((x : String) → o ≡ some x → P x)
      → Holds found.0
      → Holds (with_pool tg queued o found).0
  unfolding with_pool
  with_pool-Holds tg queued none (infos, n) h g = g
  with_pool-Holds tg queued (some pool) (infos, n) h g = elim (Bool-cases (ltb 0 queued)) [
    | inl e ↦ rw e (
        All-insert (λ e. P e.1.pool_name) tg (record { un_alloc_count = queued; pool_name = pool })
          infos (h pool refl) g)
    | inr e ↦ rw e g
  ]

  unallocated-Holds :
      (f : JobEval) (pools : Dict String) (summary : Dict ℕ)
      → All (λ e. P e.1) pools
      → (found : Dict TgInfo × ℕ) × (unallocated (some f) pools summary ≡ some found)
        × Holds found.0
  unfolding unallocated
  unallocated-Holds f pools [] h = (([], 0), refl, tt)
  unallocated-Holds f pools ((tg, queued) ∷ rest) h =
      let (found, e, held) = unallocated-Holds f pools rest h in
      elim (Bool-cases (is_in tg f.failed_tg_allocs)) [
        | inl failed ↦ (
          with_pool tg queued (lookup tg pools) found,
          rw (e, failed) refl,
          with_pool-Holds tg queued (lookup tg pools) found (λ x at. lookup-All tg pools x h at)
              held,
        )
        | inr other ↦ (found, rw (e, other) refl, held)
      ]

  -- From the first state to the second, with an event for the chain or without one: the event is put at
  -- the back of the queue and is remembered for the chain.
  abbrev pub IsFired : String → Job → State → State × Bool → Type 0
  IsFired cid job s (s', false) = (s'.queue ≡ s.queue) × (s'.fired ≡ s.fired)
  IsFired cid job s (s', true) =
      (event : ScalingEvent) × (event.id ≡ cid)
      × (event.job ≡ job)
      × (event.un_allocated_tg ≢ [])
      × Holds event.un_allocated_tg
      × (s'.queue.items ≡ s.queue.items ++ record { item = event; id = cid } ∷ [])
      × (lookup cid s'.fired ≡ some event)

  enqueue_event-IsFired :
      (cid : String) (job : Job) (infos : Dict TgInfo) (s : State)
      → Holds infos
      → IsFired cid job s (enqueue_event cid job infos s)
  unfolding enqueue_event enqueue
  enqueue_event-IsFired cid job [] s g = (refl, refl)
  enqueue_event-IsFired cid job (info ∷ infos) s g =
      let event : ScalingEvent = record { id = cid; job = job; un_allocated_tg = info ∷ infos } in
      (event, refl, refl, λ e. cc e, g, refl, rw (lookup-insert cid cid event s.fired, eq_refl cid))

module _ {Stack : Type 0} (sched : Scheduler Stack) (new_stack : Job → Stack) (check : Checkers)
    (itoa : ℤ → String) (plain : (n : ℤ) → after_bar (itoa n) ≡ none)
    (hash_text : String → Dict Variant → String) (canonicalize : Node → Node)
    (canonicalize_keeps : (n : Node) → canonicalize n ≡ n) (sort : List Node → List Node)
    (sort_keeps : (p : Node → Bool) (ns : List Node) → all p ns ≡ true → all p (sort ns) ≡ true)
    (pools : List PoolNodeSpec) where
  abbrev pub optimal_pools_of : Job → Dict (Option PoolNodeSpec)
  optimal_pools_of job =
      get_or_else (get_optimal_pool_spec sched new_stack job itoa hash_text canonicalize sort pools)
        []

  pub optimal_pools_of-IsSuited :
      (job : Job) → All (λ e. IsSuited job pools e.1) (optimal_pools_of job)
  optimal_pools_of-IsSuited job =
      let (r, e, suited) =
        get_optimal_pool_spec-IsSuited sched new_stack job itoa plain hash_text canonicalize
          canonicalize_keeps sort sort_keeps pools in
      rw e suited

  -- `processEvals` asks for the pools of nomad's job, with the functions of the two other files.
  module _ (job_of : Eval → Job) (job_evals : Eval → List JobEval) (summary : Eval → Dict ℕ) where
    abbrev pub answers : Answers
    answers = record {
      job = job_of;
      feasible = λ e. feasible_pool_by_constraint check itoa canonicalize pools (job_of e);
      optimal_pools = λ e. map_values (λ tg. full_name_of) (optimal_pools_of (job_of e));
      job_evals = job_evals;
      summary = summary;
    }

    -- Where the job has an evaluation, the firing of an event with the pools that
    -- feasiblePoolByConstraint and GetOptimalPoolSpec find does not panic. Either the queue and the fired
    -- events are as before, or exactly one event is put at the back of the queue and is remembered for the
    -- chain: that event is the chain's and the job's, it has a task group, and it names for each of them
    -- the full name of one of the pools, in a datacenter of the job, or none.
    pub fire_event-IsFired :
        (cid : String) (head : Eval) (s : State)
        → job_evals head ≢ []
        → (r : State × Bool) × (fire_event answers cid head s ≡ some r)
          × IsFired (IsNamed (job_of head) pools) cid (job_of head) s r
    unfolding fire_event
    fire_event-IsFired cid head s some_evals =
        let job = job_of head in
        let (f, e) = latest-total (job_evals head) some_evals in
        let (found, e', held) =
          unallocated-Holds (IsNamed job pools) f (answers.optimal_pools head) (summary head)
            (full_names-IsNamed job pools (optimal_pools_of job) (optimal_pools_of-IsSuited job)) in
        let counted : State = record s { nosuited = s.nosuited + found.1 } in
        elim (Bool-cases (feasible_pool_by_constraint check itoa canonicalize pools job)) [
          | inr infeasible ↦ ((s, false), rw infeasible refl, (refl, refl))
          | inl feasible ↦ (
            enqueue_event cid job found.0 counted,
            rw (feasible, e, e') refl,
            enqueue_event-IsFired (IsNamed job pools) cid job found.0 counted held,
          )
        ]
