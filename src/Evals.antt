-- ===== src/Evals.antt =====
-- processEvals.go: chains of blocked evaluations, and the events that ask for scaling. `none` is a
-- panic: an evaluation that is not kept, an empty chain, or no evaluation of a job at all. What
-- nomad's API and the pools answer about an evaluation is the record `Answers`.
pub mod Guarded
pub mod Chains
pub mod Judging
pub mod Ticks
pub mod Placed
pub mod Single
pub mod System
use Prim.Native.String.{◌++◌ as str_append}
use nomad_ondemand_scaler.Prelude.{
  ℕ, suc, ◌+◌, String, Bool, true, false, not, ◌&&◌, ◌||◌, Option, none, some, List, [], ◌∷◌, ◌++◌,
  any, ltb, if◌then◌else◌, str_eq,
}
pub use nomad_ondemand_scaler.Prelude.{◌>>=◌}
use nomad_ondemand_scaler.Prelude.Dict.{Dict, lookup, insert, delete, has, keys}
use nomad_ondemand_scaler.Nomad.{Job}
use nomad_ondemand_scaler.Queue.{Queue, enqueue, remove}

pub record Eval : Type 0 where
  pub id : String
  pub status : String
  pub namespace : String
  pub job_id : String
  pub create_index : ℕ

-- `ScalingEventTgInfo`, with the pool by its full name.
pub record TgInfo : Type 0 where
  pub un_alloc_count : ℕ
  pub pool_name : String

pub record ScalingEvent : Type 0 where
  pub id : String
  pub job : Job
  pub un_allocated_tg : Dict TgInfo

-- An evaluation of the job, with the task groups that it failed to place.
pub record JobEval : Type 0 where
  pub create_index : ℕ
  pub failed_tg_allocs : List String

pub record Answers : Type 0 where
  pub job : Eval → Job
  pub feasible : Eval → Bool
  pub optimal_pools : Eval → Dict String
  pub job_evals : Eval → List JobEval
  pub summary : Eval → Dict ℕ

pub record State : Type 0 where
  pub evals : Dict Eval
  pub chains : Dict (List String)
  pub fired : Dict ScalingEvent
  pub queue : Queue ScalingEvent
  pub canceled : List String
  pub nosuited : ℕ

unfoldable pub chain_id : Eval → String
chain_id e = str_append e.namespace (str_append "/" e.job_id)

abbrev pub is_blocked : Eval → Bool
is_blocked e = str_eq e.status "blocked"

-- `chain[len(chain)-1]`
unfoldable pub last : List String → Option String
last [] = none
last (k ∷ []) = some k
last (k ∷ j ∷ ks) = last (j ∷ ks)

abbrev pub is_in : String → List String → Bool
is_in k = any (λ j. str_eq j k)

-- The evaluation joins its chain if it is not there and newer than the last one.
unfoldable pub join_chain : Dict Eval → Eval → List String → Option (List String)
unfolding last
join_chain evals e chain = if is_in e.id chain then some chain else do
  k ← last chain
  newest ← lookup k evals
  some (if ltb newest.create_index e.create_index then chain ++ e.id ∷ [] else chain)

-- An evaluation from nomad. The answer tells whether the timer is reset.
unfoldable pub on_eval : Eval → State → Option (State × Bool)
unfolding join_chain
on_eval e s =
    let evals = insert e.id e s.evals in
    elim (lookup (chain_id e) s.chains) [
      | some chain ↦ do
        chain' ← join_chain evals e chain
        some (record s { evals = evals; chains = insert (chain_id e) chain' s.chains }, true)
      | none ↦
          if is_blocked e
          then some
              (record s { evals = evals; chains = insert (chain_id e) (e.id ∷ []) s.chains }, true)
          else some (record s { evals = evals }, false)
    ]

-- A scaling thread is done with the chain.
unfoldable pub on_done : String → State → State
on_done cid s = record s { fired = delete cid s.fired }

-- The chain from its first blocked evaluation on.
unfoldable pub trim : Dict Eval → List String → Option (List String)
trim evals [] = some []
trim evals (k ∷ ks) =
    let rest = trim evals ks in
    elim (lookup k evals) [ none ↦ none | some e ↦ if is_blocked e then some (k ∷ ks) else rest ]

-- The latest of the job's evaluations; the first of those with one index.
unfoldable pub latest : Option JobEval → List JobEval → Option JobEval
latest best [] = best
latest none (e ∷ es) = latest (some e) es
latest (some b) (e ∷ es) = latest (some (if ltb b.create_index e.create_index then e else b)) es

unfoldable pub with_pool : String → ℕ → Option String → Dict TgInfo × ℕ → Dict TgInfo × ℕ
with_pool tg queued none (infos, nosuited) = (infos, suc nosuited)
with_pool tg queued (some pool) (infos, nosuited) =
    if ltb 0 queued
    then (insert tg (record { un_alloc_count = queued; pool_name = pool }) infos, nosuited)
    else (infos, nosuited)

-- The task groups with queued allocations that failed to be placed, with their pools; and how many
-- had no pool. `failed` is nil where the job has no evaluation: reading it is a panic.
unfoldable pub unallocated : Option JobEval → Dict String → Dict ℕ → Option (Dict TgInfo × ℕ)
unfolding with_pool
unallocated failed pools [] = some ([], 0)
unallocated none pools ((tg, queued) ∷ rest) = none
unallocated (some f) pools ((tg, queued) ∷ rest) = unallocated (some f) pools rest >>= λ found.
    if is_in tg f.failed_tg_allocs
    then some (with_pool tg queued (lookup tg pools) found)
    else some found

-- What the tick collects: the evaluations to keep, and the chains to drop.
pub record Tick : Type 0 where
  pub state : State
  pub new_evals : Dict Eval
  pub removed : List String

-- `newevals[id] = evals[id]` for a whole chain. A missing one would store nil.
unfoldable pub keep_evals : Dict Eval → List String → Dict Eval → Option (Dict Eval)
keep_evals evals [] acc = some acc
keep_evals evals (k ∷ ks) acc = do e ← lookup k evals; keep_evals evals ks (insert k e acc)

-- A chain without blocked evaluations: its event is taken off the queue, or canceled if it runs.
unfoldable pub unfire : String → Queue ScalingEvent → Bool → State → State
unfire cid q was_queued s =
    if was_queued
    then record s { queue = q; fired = delete cid s.fired }
    else if has cid s.fired
    then record s { queue = q; canceled = s.canceled ++ cid ∷ [] }
    else record s { queue = q }

unfoldable pub cancel_event : String → State → Option State
unfolding unfire
cancel_event cid s = do r ← remove cid s.queue; some (unfire cid r.0 r.1 s)

-- The event is queued and noted, unless there is nothing to place.
unfoldable pub enqueue_event : String → Job → Dict TgInfo → State → State × Bool
enqueue_event cid job [] s = (s, false)
enqueue_event cid job (info ∷ infos) s =
    let event : ScalingEvent = record { id = cid; job = job; un_allocated_tg = info ∷ infos } in
    (record s { queue = enqueue event cid s.queue; fired = insert cid event s.fired }, true)

-- The event for a chain with a blocked evaluation at its head. The answer tells whether one was
-- queued.
unfoldable pub fire_event : Answers → String → Eval → State → Option (State × Bool)
unfolding latest unallocated enqueue_event
fire_event ans cid head s =
    if not (ans.feasible head)
    then some (s, false)
    else unallocated (latest none (ans.job_evals head)) (ans.optimal_pools head) (ans.summary head)
      >>= λ found.
          some (
            enqueue_event cid (ans.job head) found.0 (record s { nosuited = s.nosuited + found.1 }))

-- What is done about the trimmed chain, which the state holds already.
unfoldable pub judge : Answers → String → List String → Tick → Option Tick
unfolding keep_evals cancel_event fire_event
judge ans cid [] t = do
  s ← cancel_event cid t.state
  some (record t { state = s; removed = t.removed ++ cid ∷ [] })
judge ans cid (k ∷ ks) t = do
  kept ← keep_evals t.state.evals (k ∷ ks) t.new_evals
  head ← lookup k t.state.evals
  if has cid t.state.fired
      then some (record t { new_evals = kept })
      else (fire_event ans cid head t.state >>= λ r. some (record {
        state = r.0;
        new_evals = kept;
        removed = if r.1 then t.removed else t.removed ++ cid ∷ [];
      }))

-- One chain of the tick.
unfoldable pub visit : Answers → String → Tick → Option Tick
unfolding trim judge
visit ans cid t = do
  before ← lookup cid t.state.chains
  chain ← trim t.state.evals before
  let s = record (t.state) { chains = insert cid chain t.state.chains }
  judge ans cid chain (record t { state = s })

unfoldable pub visit_all : Answers → List String → Tick → Option Tick
visit_all ans [] t = some t
visit_all ans (cid ∷ cids) t = do t' ← visit ans cid t; visit_all ans cids t'

unfoldable pub delete_chains : List String → Dict (List String) → Dict (List String)
delete_chains [] m = m
delete_chains (k ∷ ks) m = delete_chains ks (delete k m)

-- The timer: every chain is visited, then the tick's collections take effect.
unfoldable pub on_timer : Answers → State → Option State
unfolding visit_all delete_chains
on_timer ans s = do
  t ← visit_all ans (keys s.chains) (record { state = s; new_evals = []; removed = [] })
  some (record (t.state) { evals = t.new_evals; chains = delete_chains t.removed t.state.chains })
