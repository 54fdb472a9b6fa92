-- ===== src/Queue/Producer.antt =====
-- The goroutine of `NewQueue` beside any number of callers. It offers the head of the queue through
-- `intemsCh`, and sleeps on `waiyitemsCh` when it has seen the queue empty. Each step is one section
-- under the lock or one channel operation.
use nomad_ondemand_scaler.Prelude.{
  ℕ, suc, ◌≡◌, refl, inl, inr, String, Bool, true, false, Option, some, List, [], ◌∷◌, erase_idx,
  arith, Bool-cases,
}
use nomad_ondemand_scaler.Queue.{
  QueueItem, Queue, new_queue, enqueue, dequeue_head, dequeue_round, remove, remove_at,
}

-- Where the goroutine stands: about to lock, offering an item, or asleep.
pub data Phase {ℓ} (A : Type ℓ) : Type ℓ where
  scanning : Phase A
  offering : QueueItem A → Phase A
  asleep : Phase A

-- `rounds` counts the callers of `Dequeue` that have a token and have not locked yet.
pub record System {ℓ} (A : Type ℓ) : Type ℓ where
  pub queue : Queue A
  pub phase : Phase A
  pub rounds : ℕ

abbrev pub first {ℓ} : {A : Type ℓ} → List (QueueItem A) → Phase A
first [] = asleep
first (x ∷ xs) = offering x

module _ {ℓ} {A : Type ℓ} where
  unfoldable pub start : System A
  unfolding new_queue
  start = record { queue = new_queue; phase = scanning; rounds = 0 }

-- The steps of the goroutine itself.
pub data Produces {ℓ} {A : Type ℓ} (s : System A) : System A → Type ℓ where
  scan : s.phase ≡ scanning → Produces s (record s { phase = first s.queue.items })
  rouse :
      s.phase ≡ asleep
      → s.queue.wake ≡ true
      → Produces s (record s { phase = scanning; queue = record (s.queue) { wake = false } })

pub data Step {ℓ} {A : Type ℓ} (s : System A) : System A → Type ℓ where
  produces : {t : System A} → Produces s t → Step s t
  hands :
      (x : QueueItem A)
      → s.phase ≡ offering x
      → Step s (record s { phase = scanning; rounds = suc s.rounds })
  takes :
      (n : ℕ) (held : Option (QueueItem A))
      → s.rounds ≡ suc n
      → Step s (record s { queue = (dequeue_round s.queue s.queue.items held).0; rounds = n })
  enqueues : (a : A) (id : String) → Step s (record s { queue = enqueue a id s.queue })
  removes :
      (id : String) (q : Queue A) (b : Bool)
      → remove id s.queue ≡ some (q, b)
      → Step s (record s { queue = q })

pub data Reach {ℓ} {A : Type ℓ} (s : System A) : System A → Type ℓ where
  here : Reach s s
  next : {t u : System A} → Reach s t → Step t u → Reach s u

-- Nothing is queued while the goroutine sleeps with no signal pending.
abbrev pub IsAwake {ℓ} : {A : Type ℓ} → System A → Type ℓ
IsAwake s = s.phase ≡ asleep → s.queue.wake ≡ false → s.queue.items ≡ []

module _ {ℓ} {A : Type ℓ} where
  first-asleep : (xs : List (QueueItem A)) → first xs ≡ asleep → xs ≡ []
  first-asleep [] h = refl
  first-asleep (x ∷ xs) h = cc

  round-empty :
      (q : Queue A) (xs : List (QueueItem A)) (held : Option (QueueItem A))
      → q.items ≡ xs
      → (xs ≡ [] → (dequeue_round q xs held).0.items ≡ [])
        × ((dequeue_round q xs held).0.wake ≡ q.wake)
  unfolding dequeue_round dequeue_head
  round-empty q [] held e = (λ _. e, refl)
  round-empty q (x ∷ xs) held e = (λ p. cc, refl)

  erase_idx-nil : (xs : List (QueueItem A)) (n : ℕ) → xs ≡ [] → erase_idx xs n ≡ []
  erase_idx-nil [] n e = refl
  erase_idx-nil (x ∷ xs) n e = cc

  remove-empty :
      (id : String) (q q' : Queue A) (b : Bool)
      → remove id q ≡ some (q', b)
      → (q'.wake ≡ q.wake) × (q.items ≡ [] → q'.items ≡ [])
  unfolding remove remove_at
  remove-empty id q q' b h = ground (arith, λ (n : ℕ). erase_idx-nil q.items n)

  Step-IsAwake : {s t : System A} → Step s t → IsAwake s → IsAwake t
  Step-IsAwake {s} (produces (scan p)) w h e = first-asleep s.queue.items h
  Step-IsAwake (produces (rouse p k)) w h e = cc
  Step-IsAwake (hands x p) w h e = cc
  Step-IsAwake {s} (takes n held p) w h e =
      let (empty, same) = round-empty s.queue s.queue.items held refl in empty (w h (ground arith))
  Step-IsAwake (enqueues a id) w h e = unfold enqueue in cc
  Step-IsAwake {s} (removes id q b p) w h e =
      let (same, empty) = remove-empty id s.queue q b p in empty (w h (ground arith))

  pub Reach-IsAwake : {s : System A} → Reach start s → IsAwake s
  unfolding start
  Reach-IsAwake here h e = cc
  Reach-IsAwake (next r st) h e = Step-IsAwake st (Reach-IsAwake r) h e

pub data Produces* {ℓ} {A : Type ℓ} (s : System A) : System A → Type ℓ where
  still : Produces* s s
  onward : {t u : System A} → Produces* s t → Produces t u → Produces* s u

module _ {ℓ} {A : Type ℓ} where
  abbrev pub Offers : System A → Type ℓ
  Offers s =
      (t : System A) × Produces* s t
      × (x : QueueItem A) × (t.phase ≡ offering x)
      × (t.queue.items ≡ s.queue.items)

  Offers-from :
      (s : System A) (p : Phase A) (x : QueueItem A) (xs : List (QueueItem A))
      → IsAwake s
      → s.phase ≡ p
      → s.queue.items ≡ x ∷ xs
      → Offers s
  Offers-from s scanning x xs w p e =
      (record s { phase = first s.queue.items }, onward still (scan p), x, rw e, refl)
  Offers-from s (offering y) x xs w p e = (s, still, y, p, refl)
  Offers-from s asleep x xs w p e = elim (Bool-cases s.queue.wake) [
    | inl roused ↦
        let s' : System A = record s {
          phase = scanning;
          queue = record (s.queue) { wake = false };
        } in
        (
          record s' { phase = first s.queue.items },
          onward (onward still (rouse p roused)) (scan refl),
          x,
          rw e,
          refl,
        )
    | inr quiet ↦ absurd (cc (w p quiet))
  ]

  -- However calls and the goroutine have interleaved, while something is queued the goroutine gets
  -- to offering an item by steps of its own alone, and the queue is as it was: no signal is lost.
  pub Reach-Offers :
      (s : System A) (x : QueueItem A) (xs : List (QueueItem A))
      → Reach start s
      → s.queue.items ≡ x ∷ xs
      → Offers s
  Reach-Offers s x xs r e = Offers-from s s.phase x xs (Reach-IsAwake r) refl e
