-- ===== src/Queue.antt =====
-- queue.go: the queue of scaling events. `itemsIds` gives each queued id its position, and -1 to an
-- id that was removed. A send into `waiyitemsCh`, of capacity 1, sets `wake`; a second is dropped.
-- `none` is the panic of a slice index out of range.
pub mod Valid
pub mod Fifo
pub mod Refine
pub mod Producer
use nomad_ondemand_scaler.Prelude.{
  ℕ, zero, suc, ◌-◌, String, Bool, true, false, Option, none, some, List, [], ◌∷◌, ◌++◌, length,
  erase_idx, ltb, ◌==◌, if◌then◌else◌, get_or_else,
}
use nomad_ondemand_scaler.Prelude.Int.{ℤ, pos, negsuc}
use nomad_ondemand_scaler.Prelude.Dict.{Dict, lookup, insert, delete, map_values}

pub record QueueItem {ℓ} (A : Type ℓ) : Type ℓ where
  pub item : A
  pub id : String

pub record Queue {ℓ} (A : Type ℓ) : Type ℓ where
  pub items_ids : Dict ℤ
  pub items : List (QueueItem A)
  pub wake : Bool

-- The minus one of a removed id.
abbrev pub gone : ℤ
gone = negsuc 0

abbrev pub is_gone : ℤ → Bool
is_gone (negsuc zero) = true
is_gone _ = false

-- `if lindex > n { q.itemsIds[id] -= 1 }`
abbrev pub shift_above : ℕ → ℤ → ℤ
shift_above n (pos i) = if ltb n i then pos (i - 1) else pos i
shift_above n (negsuc i) = negsuc i

module _ {ℓ} {A : Type ℓ} where
  unfoldable pub new_queue : Queue A
  new_queue = record { items_ids = []; items = []; wake = false }

  unfoldable pub enqueue : A → String → Queue A → Queue A
  enqueue item item_id q =
      let index = length q.items in
      record {
        items_ids = insert item_id (pos index) q.items_ids;
        items = q.items ++ record { item = item; id = item_id } ∷ [];
        wake = true;
      }

  -- What `Dequeue` holds in `lquieueitem` on leaving the lock, and whether it goes on at once.
  unfoldable pub dequeue_head : Queue A → QueueItem A → List (QueueItem A) → Queue A × Bool
  dequeue_head q head rest =
      let ids = map_values (λ id. shift_above 0) q.items_ids in
      (
        record q { items = rest; items_ids = delete head.id ids },
        is_gone (get_or_else (lookup head.id ids) (pos 0)),
      )

  -- One round of the loop of `Dequeue`, under the lock: the new queue, `lquieueitem`, and whether
  -- the round ended by `continue`.
  unfoldable pub dequeue_round :
      Queue A → List (QueueItem A) → Option (QueueItem A) → Queue A × Option (QueueItem A) × Bool
  unfolding dequeue_head
  dequeue_round q [] held = (q, held, false)
  dequeue_round q (head ∷ rest) held =
      let (q', skip) = dequeue_head q head rest in (q', some head, skip)

  -- A token from `intemsCh` starts each round; `none` means that the call still waits when the
  -- tokens are used up. `held` is `lquieueitem`, nil at the start.
  unfoldable pub dequeue_from : ℕ → Option (QueueItem A) → Queue A → Queue A × Option A
  unfolding dequeue_round
  dequeue_from zero held q = (q, none)
  dequeue_from (suc tokens) held q =
      let round = dequeue_round q q.items held in
      let again = dequeue_from tokens round.1 round.0 in
      if round.2 then again else elim round.1 [ none ↦ again | some it ↦ (round.0, some it.item) ]

  unfoldable pub dequeue : ℕ → Queue A → Queue A × Option A
  unfolding dequeue_from
  dequeue tokens q = dequeue_from tokens none q

  unfoldable pub remove_at : String → ℤ → Queue A → Option (Queue A × Bool)
  remove_at id (pos index) q =
      if ltb index (length q.items)
      then some (
        record q {
          items = erase_idx q.items index;
          items_ids = map_values (λ j. shift_above index) (insert id gone q.items_ids);
        },
        true,
      )
      else none
  remove_at id (negsuc zero) q = some (record q { items_ids = insert id gone q.items_ids }, false)
  remove_at id (negsuc (suc n)) q = none

  unfoldable pub remove : String → Queue A → Option (Queue A × Bool)
  unfolding remove_at
  remove id q = elim (lookup id q.items_ids) [
    | none ↦ some (q, false)
    | some index ↦ remove_at id index q
  ]
