-- ===== src/Evals/Guarded.antt =====
-- processEvals.go keeps the queue free of the ids of events that are not fired, so that no chain is
-- queued twice and the queue's index stays right.
use nomad_ondemand_scaler.Prelude.{
  ℕ, ltb, ◌+◌, ◌≡◌, refl, ◌≢◌, String, Bool, true, false, not, ◌&&◌, none, some, List, [], ◌∷◌,
  ◌++◌, any, any-append, arith, eq_iff, str_eq, if◌then◌else◌, Bool-cases, inl, inr,
}
use nomad_ondemand_scaler.Prelude.Dict.{Dict, lookup, has, lookup-insert, lookup-delete}
use nomad_ondemand_scaler.Nomad.{Job}
use nomad_ondemand_scaler.Queue.{Queue, QueueItem}
use nomad_ondemand_scaler.Queue.Valid.{IsValid}
use nomad_ondemand_scaler.Queue.Fifo.{named, others, remove_lem, enqueue_lem}
use nomad_ondemand_scaler.Evals.{
  State, ScalingEvent, TgInfo, JobEval, Answers, Eval, unfire, is_in, ◌>>=◌, cancel_event,
  enqueue_event, fire_event, latest, unallocated, with_pool,
}

pub record IsGuarded (s : State) : Type 0 where
  pub valid : IsValid s.queue
  pub guarded : (cid : String) → has cid s.fired ≡ false → any (named cid) s.queue.items ≡ false

any-others :
    (j cid : String) (xs : List (QueueItem ScalingEvent))
    → any (named j) (others cid xs) ≡ any (named j) xs && not (str_eq cid j)
any-others j cid [] = refl
any-others j cid (x ∷ xs) =
    ground (arith, any-others j cid xs, eq_iff x.id cid, eq_iff x.id j, eq_iff cid j)

-- The state that an operation leaves: the chains and evaluations as before, and the guard intact.
abbrev pub Keeps : State → State → Type 0
Keeps s t = (t.chains ≡ s.chains) × (t.evals ≡ s.evals) × IsGuarded t

unfire-Keeps :
    (cid : String) (q : Queue ScalingEvent) (s : State)
    → q.items ≡ others cid s.queue.items
    → IsValid q
    → IsGuarded s
    → (b : Bool) → any (named cid) s.queue.items ≡ b
    → Keeps s (unfire cid q b s)
unfolding unfire
unfire-Keeps cid q s e v g true h = (
  refl,
  refl,
  record {
    valid = v;
    guarded = λ j f.
        rw (e, any-others j cid s.queue.items)
          (ground (arith, g.guarded j, lookup-delete cid j s.fired, f));
  },
)
unfire-Keeps cid q s e v g false h = elim (Bool-cases (has cid s.fired)) [
  | inl running ↦
      rw running
        (refl, refl, still (record s { queue = q; canceled = s.canceled ++ cid ∷ [] }) refl refl)
  | inr none_fired ↦ rw none_fired (refl, refl, still (record s { queue = q }) refl refl)
]
  where
    still : (t : State) → t.queue ≡ q → t.fired ≡ s.fired → IsGuarded t
    still t eq ef = record {
      valid = rw eq v;
      guarded = λ j f. rw (eq, e, any-others j cid s.queue.items) (ground (arith, g.guarded j, ef));
    }

pub cancel_event-Keeps :
    (cid : String) (s : State)
    → IsGuarded s
    → (t : State) × (cancel_event cid s ≡ some t) × Keeps s t
unfolding cancel_event
cancel_event-Keeps cid s g =
    let (q, e, items, v) = remove_lem cid s.queue g.valid in
    let b = any (named cid) s.queue.items in
    (unfire cid q b s, rw (e, ◌>>=◌), unfire-Keeps cid q s items v g b refl)

enqueue_event-Keeps :
    (cid : String) (job : Job) (infos : Dict TgInfo) (s : State)
    → has cid s.fired ≡ false
    → IsGuarded s
    → Keeps s (enqueue_event cid job infos s).0
unfolding enqueue_event
enqueue_event-Keeps cid job [] s f g = (refl, refl, g)
enqueue_event-Keeps cid job (info ∷ infos) s f g =
    let event : ScalingEvent = record { id = cid; job = job; un_allocated_tg = info ∷ infos } in
    let (items, v) = enqueue_lem event cid s.queue (g.guarded cid f) g.valid in
    (
      refl,
      refl,
      record {
        valid = v;
        guarded = λ j h.
            rw (items, any-append (named j) s.queue.items (record { item = event; id = cid } ∷ []))
              (ground (arith, g.guarded j, lookup-insert cid j event s.fired, h));
      },
    )

unallocated-total :
    (f : JobEval) (pools : Dict String) (summary : Dict ℕ)
    → (r : Dict TgInfo × ℕ) × (unallocated (some f) pools summary ≡ some r)
unfolding unallocated
unallocated-total f pools [] = (([], 0), refl)
unallocated-total f pools ((tg, queued) ∷ rest) =
    let (r, e) = unallocated-total f pools rest in
    (
      if is_in tg f.failed_tg_allocs then with_pool tg queued (lookup tg pools) r else r,
      rw (e, ◌>>=◌) (ground arith),
    )

latest-some : (b : JobEval) (es : List JobEval) → (f : JobEval) × (latest (some b) es ≡ some f)
unfolding latest
latest-some b [] = (b, refl)
latest-some b (e ∷ es) = latest-some (if ltb b.create_index e.create_index then e else b) es

pub latest-total : (es : List JobEval) → es ≢ [] → (f : JobEval) × (latest none es ≡ some f)
unfolding latest
latest-total [] h = absurd (h refl)
latest-total (e ∷ es) h = latest-some e es

pub fire_event-Keeps :
    (ans : Answers) (cid : String) (head : Eval) (s : State)
    → ans.job_evals head ≢ []
    → has cid s.fired ≡ false
    → IsGuarded s
    → (r : State × Bool) × (fire_event ans cid head s ≡ some r) × Keeps s r.0
unfolding fire_event
fire_event-Keeps ans cid head s some_evals f g = elim (Bool-cases (ans.feasible head)) [
  | inr no_pool ↦ ((s, false), rw no_pool, (refl, refl, g))
  | inl pool ↦
      let (job_eval, e) = latest-total (ans.job_evals head) some_evals in
      let (found, e') = unallocated-total job_eval (ans.optimal_pools head) (ans.summary head) in
      let counted : State = record s { nosuited = s.nosuited + found.1 } in
      let quiet : IsGuarded counted = record { valid = g.valid; guarded = g.guarded } in
      (
        enqueue_event cid (ans.job head) found.0 counted,
        ground (arith, pool, e, e'),
        enqueue_event-Keeps cid (ans.job head) found.0 counted f quiet,
      )
]
