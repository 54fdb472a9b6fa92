-- ===== src/Evals/Single.antt =====
-- How processEvals.go keeps the events that are fired in step with those that are queued.
use nomad_ondemand_scaler.Prelude.{
  ℕ, suc, ◌+◌, ◌≡◌, refl, inl, inr, String, Bool, true, false, Option, none, some, List, [], ◌∷◌,
  ◌++◌, any, All, arith, eq_iff, str_eq, if◌then◌else◌, Bool-cases, Option-cases, subst, ◌==◌,
  All-append,
}
use nomad_ondemand_scaler.Prelude.Dict.{Dict, lookup, delete, has, lookup-insert, lookup-delete}
use nomad_ondemand_scaler.Nomad.{Job}
use nomad_ondemand_scaler.Queue.{Queue, QueueItem}
use nomad_ondemand_scaler.Queue.Valid.{IsValid}
use nomad_ondemand_scaler.Queue.Fifo.{named, others, remove_lem, enqueue_lem}
use nomad_ondemand_scaler.Evals.{
  State, ScalingEvent, TgInfo, Answers, Eval, Tick, unfire, cancel_event, enqueue_event, fire_event,
  latest, unallocated, keep_evals, trim, judge, visit, ◌>>=◌,
}

-- How often an id stands in a list, and how many queued items have it.
abbrev pub times : String → List String → ℕ
times cid [] = 0
times cid (k ∷ ks) = if str_eq k cid then suc (times cid ks) else times cid ks

abbrev pub queued : String → List (QueueItem ScalingEvent) → ℕ
queued cid [] = 0
queued cid (x ∷ xs) = if str_eq x.id cid then suc (queued cid xs) else queued cid xs

-- An event carries the id that it is queued under.
abbrev pub IsLabelled : List (QueueItem ScalingEvent) → Type 0
IsLabelled = All (λ x. x.item.id ≡ x.id)

abbrev pub one_if : Bool → ℕ
one_if b = if b then 1 else 0

-- `elsewhere` counts the events that are out of the queue.
pub record IsSingle (elsewhere : String → ℕ) (s : State) : Type 0 where
  pub valid : IsValid s.queue
  pub labelled : IsLabelled s.queue.items
  pub single : (cid : String) → queued cid s.queue.items + elsewhere cid ≡ one_if (has cid s.fired)

queued-others :
    (j cid : String) (xs : List (QueueItem ScalingEvent))
    → queued j (others cid xs) ≡ (if str_eq cid j then 0 else queued j xs)
queued-others j cid [] = ground arith
queued-others j cid (x ∷ xs) =
    ground (arith, queued-others j cid xs, eq_iff x.id cid, eq_iff x.id j, eq_iff cid j)

others-IsLabelled :
    (cid : String) (xs : List (QueueItem ScalingEvent)) → IsLabelled xs → IsLabelled (others cid xs)
others-IsLabelled cid [] h = tt
others-IsLabelled cid (x ∷ xs) h = ground (arith, others-IsLabelled cid xs h.1)

any-queued :
    (cid : String) (xs : List (QueueItem ScalingEvent))
    → any (named cid) xs ≡ (if queued cid xs == 0 then false else true)
any-queued cid [] = ground arith
any-queued cid (x ∷ xs) = ground (arith, any-queued cid xs)

queued-append_one :
    (cid : String) (xs : List (QueueItem ScalingEvent)) (x : QueueItem ScalingEvent)
    → queued cid (xs ++ x ∷ []) ≡ queued cid xs + one_if (str_eq x.id cid)
queued-append_one cid [] x = ground arith
queued-append_one cid (y ∷ ys) x = ground (arith, queued-append_one cid ys x)

unfire-fields :
    (cid : String) (q : Queue ScalingEvent) (b : Bool) (s : State)
    → ((unfire cid q b s).queue ≡ q)
      × ((unfire cid q b s).fired ≡ (if b then delete cid s.fired else s.fired))
unfolding unfire
unfire-fields cid q b s = ground arith

>>=-eq-some {ℓ κ} :
    {A : Type ℓ} {B : Type κ} (m : Option A) (f : A → Option B) {b : B}
    → (m >>= f) ≡ some b
    → (a : A) × (m ≡ some a) × (f a ≡ some b)
>>=-eq-some none f h = cc
>>=-eq-some (some a) f h = (a, refl, h)

module _ (elsewhere : String → ℕ) where
  unfire-IsSingle :
      (cid : String) (q : Queue ScalingEvent) (s : State)
      → q.items ≡ others cid s.queue.items
      → IsValid q
      → IsSingle elsewhere s
      → IsSingle elsewhere (unfire cid q (any (named cid) s.queue.items) s)
  unfire-IsSingle cid q s e v g =
      let (eq, ef) = unfire-fields cid q (any (named cid) s.queue.items) s in
      record {
        valid = rw eq v;
        labelled = rw (eq, e) (others-IsLabelled cid s.queue.items g.labelled);
        single = λ j.
            rw (eq, ef, e, queued-others j cid s.queue.items)
              (ground (
                arith,
                g.single j,
                g.single cid,
                any-queued cid s.queue.items,
                lookup-delete cid j s.fired,
                eq_iff cid j,
              ));
      }

  cancel_event-IsSingle :
      (cid : String) (s t : State)
      → cancel_event cid s ≡ some t
      → IsSingle elsewhere s
      → IsSingle elsewhere t
  unfolding cancel_event
  cancel_event-IsSingle cid s t h g =
      let (q, e, items, v) = remove_lem cid s.queue g.valid in
      let done : unfire cid q (any (named cid) s.queue.items) s ≡ t = ground (arith, e, h) in
      subst (IsSingle elsewhere) done (unfire-IsSingle cid q s items v g)

  enqueue_event-IsSingle :
      (cid : String) (job : Job) (infos : Dict TgInfo) (s : State)
      → has cid s.fired ≡ false
      → IsSingle elsewhere s
      → IsSingle elsewhere (enqueue_event cid job infos s).0
  unfolding enqueue_event
  enqueue_event-IsSingle cid job [] s f g = g
  enqueue_event-IsSingle cid job (info ∷ infos) s f g =
      let event : ScalingEvent = record { id = cid; job = job; un_allocated_tg = info ∷ infos } in
      let x : QueueItem ScalingEvent = record { item = event; id = cid } in
      let fresh : any (named cid) s.queue.items ≡ false =
        ground (arith, g.single cid, any-queued cid s.queue.items) in
      let (items, v) = enqueue_lem event cid s.queue fresh g.valid in
      record {
        valid = v;
        labelled =
            rw items
              (All-append (λ y. y.item.id ≡ y.id) s.queue.items (x ∷ []) g.labelled (refl, tt));
        single = λ j.
            rw (items, queued-append_one j s.queue.items x)
              (ground (arith, g.single j, lookup-insert cid j event s.fired, eq_iff cid j, f));
      }

  fire_event-IsSingle :
      (ans : Answers) (cid : String) (head : Eval) (s : State) (r : State × Bool)
      → fire_event ans cid head s ≡ some r
      → has cid s.fired ≡ false
      → IsSingle elsewhere s
      → IsSingle elsewhere r.0
  unfolding fire_event
  fire_event-IsSingle ans cid head s r h f g = elim (Bool-cases (ans.feasible head)) [
    | inr no_pool ↦
        let same : s ≡ r.0 = ground (arith, no_pool, h) in subst (IsSingle elsewhere) same g
    | inl pool ↦
        elim (Option-cases (
          unallocated (latest none (ans.job_evals head)) (ans.optimal_pools head)
            (ans.summary head))) [
              | inl none_found ↦ absurd (ground (arith, pool, none_found, h))
              | inr (found, e) ↦
                  let counted : State = record s { nosuited = s.nosuited + found.1 } in
                  let out : enqueue_event cid (ans.job head) found.0 counted ≡ r =
                    ground (arith, pool, e, h) in
                  subst (λ x. IsSingle elsewhere x.0) out
                    (enqueue_event-IsSingle cid (ans.job head) found.0 counted f
                      (record { valid = g.valid; labelled = g.labelled; single = g.single }))
            ]
  ]

  -- Whatever else a visit changes, it fires and cancels through the two functions above.
  judge-IsSingle :
      (ans : Answers) (cid : String) (chain : List String) (t u : Tick)
      → judge ans cid chain t ≡ some u
      → IsSingle elsewhere t.state
      → IsSingle elsewhere u.state
  unfolding judge
  judge-IsSingle ans cid [] t u h g =
      let (s, e, out) = >>=-eq-some (cancel_event cid t.state) _ h in
      let same : s ≡ u.state = ground (arith, out) in
      subst (IsSingle elsewhere) same (cancel_event-IsSingle cid t.state s e g)
  judge-IsSingle ans cid (k ∷ ks) t u h g =
      let (kept, e, h') = >>=-eq-some (keep_evals t.state.evals (k ∷ ks) t.new_evals) _ h in
      let (head, e', h'') = >>=-eq-some (lookup k t.state.evals) _ h' in
      elim (Bool-cases (has cid t.state.fired)) [
        | inl fired ↦
            let same : t.state ≡ u.state = ground (arith, fired, h'') in
            subst (IsSingle elsewhere) same g
        | inr idle ↦
            let h3 = rw idle at h'' in
            let (r, e'', out) = >>=-eq-some (fire_event ans cid head t.state) _ h3 in
            let same : r.0 ≡ u.state = ground (arith, out) in
            subst (IsSingle elsewhere) same (fire_event-IsSingle ans cid head t.state r e'' idle g)
      ]

  pub visit-IsSingle :
      (ans : Answers) (cid : String) (t u : Tick)
      → visit ans cid t ≡ some u
      → IsSingle elsewhere t.state
      → IsSingle elsewhere u.state
  unfolding visit
  visit-IsSingle ans cid t u h g =
      let (before, e, h') = >>=-eq-some (lookup cid t.state.chains) _ h in
      let (chain, e', h'') = >>=-eq-some (trim t.state.evals before) _ h' in
      judge-IsSingle ans cid chain _ u h''
        (record { valid = g.valid; labelled = g.labelled; single = g.single })
