-- ===== src/Queue/Refine.antt =====
-- Sequences of calls of queue.go against a plain list of items.
use nomad_ondemand_scaler.Prelude.{
  ℕ, zero, suc, ◌≡◌, refl, String, Bool, false, Option, none, some, List, [], ◌∷◌, ◌++◌, any,
}
use nomad_ondemand_scaler.Queue.{QueueItem, Queue, enqueue, dequeue_from, dequeue, remove}
use nomad_ondemand_scaler.Queue.Valid.{IsValid, enqueue-IsValid}
use nomad_ondemand_scaler.Queue.Fifo.{
  named, others, remove_lem, dequeue_lem, dequeue_empty, any-IsFresh,
}

pub data Call {ℓ} (A : Type ℓ) : Type ℓ where
  enqueues : A → String → Call A
  dequeues : ℕ → Call A
  removes : String → Call A

pub data Answer {ℓ} (A : Type ℓ) : Type ℓ where
  done : Answer A
  taken : Option A → Answer A
  removed : Bool → Answer A

module _ {ℓ} {A : Type ℓ} where
  pub step : Call A → Queue A → Option (Queue A × Answer A)
  step (enqueues a id) q = some (enqueue a id q, done)
  step (dequeues tokens) q = let (q', a) = dequeue tokens q in some (q', taken a)
  step (removes id) q = elim (remove id q) [ none ↦ none | some (q', b) ↦ some (q', removed b) ]

  -- What a list of items would do.
  unfoldable pub take_head : ℕ → List (QueueItem A) → List (QueueItem A) × Answer A
  take_head zero xs = (xs, taken none)
  take_head (suc tokens) [] = ([], taken none)
  take_head (suc tokens) (x ∷ xs) = (xs, taken (some x.item))

  unfoldable pub fifo_step : Call A → List (QueueItem A) → List (QueueItem A) × Answer A
  unfolding take_head
  fifo_step (enqueues a id) xs = (xs ++ record { item = a; id = id } ∷ [], done)
  fifo_step (dequeues tokens) xs = take_head tokens xs
  fifo_step (removes id) xs = (others id xs, removed (any (named id) xs))

  -- No call enqueues an id that is queued.
  abbrev pub Admits : Call A → List (QueueItem A) → Type 0
  Admits (enqueues a id) xs = any (named id) xs ≡ false
  Admits _ xs = Unit

  pub run : List (Call A) → Queue A → Option (Queue A × List (Answer A))
  run [] q = some (q, [])
  run (c ∷ cs) q = elim (step c q) [
    | none ↦ none
    | some (q', a) ↦ elim (run cs q') [
      | none ↦ none
      | some (q'', answers) ↦ some (q'', a ∷ answers)
    ]
  ]

  pub fifo_run : List (Call A) → List (QueueItem A) → List (QueueItem A) × List (Answer A)
  fifo_run [] xs = (xs, [])
  fifo_run (c ∷ cs) xs =
      let (xs', a) = fifo_step c xs in let (xs'', answers) = fifo_run cs xs' in (xs'', a ∷ answers)

  abbrev pub AdmitsAll : List (Call A) → List (QueueItem A) → Type 0
  AdmitsAll [] xs = Unit
  AdmitsAll (c ∷ cs) xs = Admits c xs × AdmitsAll cs (fifo_step c xs).0

  abbrev Simulates : Queue A → List (QueueItem A) → Answer A → Option (Queue A × Answer A) → Type ℓ
  Simulates q xs a r = (q' : Queue A) × (r ≡ some (q', a)) × (q'.items ≡ xs) × IsValid q'

  take_head-Simulates :
      (tokens : ℕ) (q : Queue A) (xs : List (QueueItem A))
      → IsValid q
      → q.items ≡ xs
      → Simulates q (take_head tokens xs).0 (take_head tokens xs).1 (step (dequeues tokens) q)
  unfolding take_head step
  take_head-Simulates zero q xs v e = (q, unfold dequeue dequeue_from in refl, e, v)
  take_head-Simulates (suc n) q [] v e = (q, rw (dequeue_empty (suc n) q e), e, v)
  take_head-Simulates (suc n) q (x ∷ xs) v e =
      let (q', out, left, v') = dequeue_lem n q x xs v e in (q', rw out, left, v')

  step-Simulates :
      (c : Call A) (q : Queue A)
      → IsValid q
      → Admits c q.items
      → Simulates q (fifo_step c q.items).0 (fifo_step c q.items).1 (step c q)
  unfolding step fifo_step
  step-Simulates (enqueues a id) q v h =
      (enqueue a id q, refl, unfold enqueue in refl, enqueue-IsValid a id q (any-IsFresh id q h) v)
  step-Simulates (dequeues tokens) q v h = take_head-Simulates tokens q q.items v refl
  step-Simulates (removes id) q v h =
      let (q', out, left, v') = remove_lem id q v in (q', rw (out, step), left, v')

  -- Any sequence of calls that enqueues no id which is still queued runs without a panic on a valid
  -- queue, gives the answers of a plain list of items, and ends in a valid queue with the items of
  -- that list.
  pub run_refines :
      (cs : List (Call A)) (q : Queue A)
      → IsValid q
      → AdmitsAll cs q.items
      → (q' : Queue A) × (run cs q ≡ some (q', (fifo_run cs q.items).1))
        × (q'.items ≡ (fifo_run cs q.items).0)
        × IsValid q'
  unfolding run fifo_run
  run_refines [] q v h = (q, refl, refl, v)
  run_refines (c ∷ cs) q v h =
      let (q', out, left, v') = step-Simulates c q v h.0 in
      let (q'', outs, lefts, v'') = run_refines cs q' v' (rw left h.1) in
      (q'', simp (out, run, outs, left), rw (lefts, left), v'')
