-- ===== src/Scaling/Action/Planned.antt =====
-- What scalingAction.go plans for an event: for each pool as many allocations as its task groups want.
use nomad_ondemand_scaler.Prelude.{
  ℕ, ◌+◌, ◌*◌, ◌≤◌, ◌<◌, ◌≡◌, refl, ◌≢◌, String, Bool, true, false, Option, none, some, List, [],
  ◌∷◌, ◌++◌, length, length-append, any-append, All, All-mono, if◌then◌else◌, str_eq, eq_iff, arith,
  get_or_else,
}
use nomad_ondemand_scaler.Prelude.Dict.{lookup, insert, lookup-insert}
use nomad_ondemand_scaler.Nomad.{
  Node, Allocation, NomadApi, TaskGroup, Job, Scheduler, has_node, is_used,
}
use nomad_ondemand_scaler.Pool.{Pool}
use nomad_ondemand_scaler.Evals.{◌>>=◌}
use nomad_ondemand_scaler.Scaling.Estimate.Filling.{Fits, IsSupply}
use nomad_ondemand_scaler.Scaling.Estimate.Enough.{estimate-later}
use nomad_ondemand_scaler.Scaling.Action.{
  find_group, PoolToScale, nothing_yet, Turn, Plan, add_group, plan_turn, plan_event,
}

abbrev pub held_by : String → Plan → PoolToScale
held_by name s = get_or_else (lookup name s.to_scale) nothing_yet

abbrev pub want : String → Turn → ℕ
want name turn = if str_eq turn.info.pool_name name then turn.info.un_alloc_count else 0

-- What the task groups of the pool want in all.
abbrev pub wanted : String → List Turn → ℕ
wanted name [] = 0
wanted name (turn ∷ turns) = want name turn + wanted name turns

-- None of the ids to come is among the nodes, or under the allocations.
abbrev pub IsUnseen : (ℕ → String) → ℕ → List Node → List Allocation → Type 0
IsUnseen uuid fresh nodes allocs =
    (k : ℕ) → fresh ≤ k → (has_node (uuid k) nodes ≡ false) × (is_used (uuid k) allocs ≡ false)

-- The pool of the turn exists, the fuel is enough for its task group, no id to come is in use, and a new
-- node of that pool has room for an allocation of that task group.
module _ {Stack : Type 0} (sched : Scheduler Stack) (uuid : ℕ → String)
    (get_node : String → String → Node) (job : Job) where
  abbrev pub IsReady : ℕ → ℕ → Turn → Type 0
  IsReady fuel fresh turn =
      (p : Pool) × (lookup turn.info.pool_name turn.pools ≡ some p)
      × IsUnseen uuid fresh p.ephemeral_nodes p.ephemeral_allocs
      × (2 * turn.info.un_alloc_count < fuel)
      × ((tg : TaskGroup)
          → find_group turn.tg_name job.task_groups none ≡ some tg
          → Fits sched (get_node turn.info.pool_name) tg uuid)

find_group-found :
    (name : String) (tgs : List TaskGroup) (tg : TaskGroup)
    → (g : TaskGroup) × (find_group name tgs (some tg) ≡ some g)
unfolding find_group
find_group-found name [] tg = (tg, refl)
find_group-found name (g ∷ gs) tg =
    let (h, e) = find_group-found name gs g in
    (if str_eq g.name name then g else h, ground (arith, e))

find_group-total :
    (name : String) (tgs : List TaskGroup)
    → tgs ≢ []
    → (g : TaskGroup) × (find_group name tgs none ≡ some g)
unfolding find_group
find_group-total name [] h = absurd (h refl)
find_group-total name (g ∷ gs) h =
    let (k, e) = find_group-found name gs g in
    (if str_eq g.name name then g else k, ground (arith, e))

unseen-append :
    (u : String) (ns ms : List Node) (xs ys : List Allocation)
    → (has_node u ns ≡ false) × (is_used u xs ≡ false)
    → (has_node u ms ≡ false) × (is_used u ys ≡ false)
    → (has_node u (ns ++ ms) ≡ false) × (is_used u (xs ++ ys) ≡ false)
unseen-append u ns ms xs ys h g = (
  ground (arith, h, g, any-append (λ n. str_eq n.id u) ns ms),
  ground (arith, h, g, any-append (λ e. str_eq e.node_id u) xs ys),
)

module _ {Stack : Type 0} (sched : Scheduler Stack) (api : NomadApi) (uuid : ℕ → String)
    (get_node : String → String → Node) (job : Job) (new_stack : Stack)
    (supply : (name : String) (tg : TaskGroup)
      → IsSupply sched api uuid (get_node name) job tg) where
  abbrev Held : Plan → Type 0
  Held s = (name : String) → IsUnseen uuid s.fresh (held_by name s).en (held_by name s).ea

  -- The plan has grown by what one pool wants.
  abbrev Grown : String → ℕ → Plan → Option Plan → Type 0
  Grown pool_name count s r =
      (s' : Plan) × (r ≡ some s')
      × (s.fresh ≤ s'.fresh)
      × Held s'
      × ((name : String)
          → length (held_by name s').ea
            ≡ length (held_by name s).ea + (if str_eq pool_name name then count else 0))

  add_group-Grown :
      (fuel : ℕ) (pool_name : String) (tg : TaskGroup) (p : Pool) (count : ℕ) (s : Plan)
      → Held s
      → IsUnseen uuid s.fresh p.ephemeral_nodes p.ephemeral_allocs
      → 2 * count < fuel
      → Fits sched (get_node pool_name) tg uuid
      → Grown pool_name count s
          (add_group sched api uuid get_node job new_stack fuel pool_name tg p count s)
  unfolding add_group
  add_group-Grown fuel pool_name tg p count s held unseen enough fits =
      let old = held_by pool_name s in
      let (t, e, la, later, new) =
        estimate-later sched api uuid (get_node pool_name) job tg p old.en old.ea count s.fresh
          new_stack fuel (supply pool_name tg) fits
          (λ k h.
            unseen-append (uuid k) p.ephemeral_nodes old.en p.ephemeral_allocs old.ea (unseen k h)
              (held pool_name k h))
          enough in
      let now : PoolToScale = record { en = old.en ++ t.new_nodes; ea = old.ea ++ t.new_allocs } in
      (
        record { to_scale = insert pool_name now s.to_scale; fresh = t.fresh },
        rw (e, ◌>>=◌),
        later,
        λ name k h. rw (lookup-insert pool_name name now s.to_scale) (
            put (str_eq pool_name name) (lookup name s.to_scale) now k
              (unseen-append (uuid k) old.en t.new_nodes old.ea t.new_allocs
                (held pool_name k (omega arith)) (new k h))
              (held name k (omega arith))),
        λ name. ground (
          arith,
          lookup-insert pool_name name now s.to_scale,
          la,
          length-append old.ea t.new_allocs,
          eq_iff pool_name name,
        ),
      )
    where
      put :
          (b : Bool) (o : Option PoolToScale) (now : PoolToScale) (k : ℕ)
          → (has_node (uuid k) now.en ≡ false) × (is_used (uuid k) now.ea ≡ false)
          → (has_node (uuid k) (get_or_else o nothing_yet).en ≡ false)
            × (is_used (uuid k) (get_or_else o nothing_yet).ea ≡ false)
          → (has_node (uuid k) (get_or_else (if b then some now else o) nothing_yet).en ≡ false)
            × (is_used (uuid k) (get_or_else (if b then some now else o) nothing_yet).ea ≡ false)
      put true o now k h g = h
      put false o now k h g = g

  plan_turn-Grown :
      (fuel : ℕ) (turn : Turn) (s : Plan)
      → job.task_groups ≢ []
      → Held s
      → IsReady sched uuid get_node job fuel s.fresh turn
      → Grown turn.info.pool_name turn.info.un_alloc_count s
          (plan_turn sched api uuid get_node job new_stack fuel turn s)
  unfolding plan_turn
  plan_turn-Grown fuel turn s groups held (p, at, unseen, enough, fits) =
      let (tg, found) = find_group-total turn.tg_name job.task_groups groups in
      rw (found, ◌>>=◌)
        (rw (at, ◌>>=◌)
          (add_group-Grown fuel turn.info.pool_name tg p turn.info.un_alloc_count s held unseen
            enough (fits tg found)))

  later-IsReady :
      (fuel fresh fresh' : ℕ) (turn : Turn)
      → fresh ≤ fresh'
      → IsReady sched uuid get_node job fuel fresh turn
      → IsReady sched uuid get_node job fuel fresh' turn
  later-IsReady fuel fresh fresh' turn h (p, at, unseen, enough, fits) =
      (p, at, λ k l. unseen k (omega arith), enough, fits)

  plan_from :
      (fuel : ℕ) (turns : List Turn) (s : Plan)
      → job.task_groups ≢ []
      → Held s
      → All (IsReady sched uuid get_node job fuel s.fresh) turns
      → (s' : Plan) × (plan_event sched api uuid get_node job new_stack fuel turns s ≡ some s')
        × ((name : String)
            → length (held_by name s').ea ≡ length (held_by name s).ea + wanted name turns)
  unfolding plan_event
  plan_from fuel [] s groups held ready = (s, refl, λ name. omega arith)
  plan_from fuel (turn ∷ turns) s groups held ready =
      let (s1, e, later, held1, grown) = plan_turn-Grown fuel turn s groups held ready.0 in
      let (s2, f, all) = plan_from fuel turns s1 groups held1 (
        All-mono
          (λ (t : Turn) (r : IsReady sched uuid get_node job fuel s.fresh t).
            later-IsReady fuel s.fresh s1.fresh t later r)
          turns ready.1) in
      (s2, rw (e, ◌>>=◌) f, λ name. omega (arith, all name, grown name))

  -- If the uuids do not repeat, the job has task groups, and at each turn the pool exists, a new node of
  -- that pool has room for an allocation of the task group of the turn, no uuid to come is in use in the
  -- pool, and the fuel is above twice what is wanted, then the plan is made, and it holds for each pool as
  -- many allocations as the event wants of it in all.
  pub plan_event-wanted :
      (fuel : ℕ) (turns : List Turn) (fresh : ℕ)
      → job.task_groups ≢ []
      → All (IsReady sched uuid get_node job fuel fresh) turns
      → (s' : Plan) × (plan_event sched api uuid get_node job new_stack fuel turns
            (record { to_scale = []; fresh = fresh })
          ≡ some s')
        × ((name : String) → length (held_by name s').ea ≡ wanted name turns)
  unfolding lookup
  plan_event-wanted fuel turns fresh groups ready =
      let (s', e, grown) =
        plan_from fuel turns (record { to_scale = []; fresh = fresh }) groups
          (λ name k h. (refl, refl)) ready in
      (s', e, λ name. omega (arith, grown name))
