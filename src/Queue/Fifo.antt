-- ===== src/Queue/Fifo.antt =====
-- queue.go refines a plain list of items: `Enqueue` adds at the end, `Dequeue` takes the head, and
-- `Remove` takes out the item with the id.
use nomad_ondemand_scaler.Prelude.{
  ℕ, zero, suc, ◌≡◌, refl, ◌≢◌, String, Bool, true, false, not, Option, none, some, List, [], ◌∷◌,
  ◌++◌, erase_idx, get_elem?, any, filterb, arith, eq_iff, str_eq, subst,
}
use nomad_ondemand_scaler.Prelude.Int.{ℤ, pos, negsuc}
use nomad_ondemand_scaler.Prelude.Dict.{lookup, insert}
use nomad_ondemand_scaler.Queue.{
  QueueItem, Queue, gone, enqueue, dequeue_head, dequeue_round, dequeue_from, dequeue, remove_at,
  remove,
}
use nomad_ondemand_scaler.Queue.Valid.{
  IsValid, IsFresh, enqueue-IsValid, dequeue_head-IsValid, head_live, remove_at_lem,
  mark_again-IsValid,
}

module _ {ℓ} {A : Type ℓ} where
  abbrev pub named : String → QueueItem A → Bool
  named id x = str_eq x.id id

  abbrev pub others : String → List (QueueItem A) → List (QueueItem A)
  others id = filterb (λ x. not (named id x))

  others_all :
      (id : String) (xs : List (QueueItem A))
      → ((i : ℕ) (x : QueueItem A) → get_elem? xs i ≡ some x → x.id ≢ id)
      → (others id xs ≡ xs) × (any (named id) xs ≡ false)
  others_all id [] h = (refl, refl)
  others_all id (x ∷ xs) h =
      let (same, none_named) = others_all id xs (λ i. h (suc i)) in
      (
        ground (arith, h 0 x refl, eq_iff x.id id, same),
        ground (arith, h 0 x refl, eq_iff x.id id, none_named),
      )

  others_one :
      (id : String) (xs : List (QueueItem A)) (n : ℕ) (x : QueueItem A)
      → get_elem? xs n ≡ some x
      → x.id ≡ id
      → ((i : ℕ) (y : QueueItem A) → get_elem? xs i ≡ some y → y.id ≡ id → i ≡ n)
      → (others id xs ≡ erase_idx xs n) × (any (named id) xs ≡ true)
  others_one id [] n x h e one = absurd (cc)
  others_one id (y ∷ xs) zero x h e one =
      let (same, none_named) = others_all id xs (λ i z p q. cc (one (suc i) z p q)) in
      (ground (arith, eq_iff y.id id, same), ground (arith, eq_iff y.id id))
  others_one id (y ∷ xs) (suc n) x h e one =
      let (same, some_named) =
        others_one id xs n x h e (λ i z p q. omega (arith, one (suc i) z p q)) in
      (
        ground (arith, eq_iff y.id id, same, one 0 y refl),
        ground (arith, eq_iff y.id id, some_named),
      )

  module _ (id : String) (q : Queue A) (v : IsValid q) where
    others_missing :
        ((n : ℕ) → lookup id q.items_ids ≢ some (pos n))
        → (others id q.items ≡ q.items) × (any (named id) q.items ≡ false)
    others_missing missing =
        others_all id q.items λ i x h e.
          missing i (subst (λ s. lookup s q.items_ids ≡ some (pos i)) e (v.indexed i x h))

    others_at :
        (n : ℕ)
        → lookup id q.items_ids ≡ some (pos n)
        → (others id q.items ≡ erase_idx q.items n) × (any (named id) q.items ≡ true)
    others_at n at =
        let (x, there, e) = v.found id n at in
        others_one id q.items n x there e (λ i y h p. ground (arith, v.indexed i y h, at))

    abbrev Removed : Option (Queue A × Bool) → Type ℓ
    Removed r =
        (q' : Queue A) × (r ≡ some (q', any (named id) q.items))
        × (q'.items ≡ others id q.items)
        × IsValid q'

    remove_by : (o : Option ℤ) → lookup id q.items_ids ≡ o → Removed (remove id q)
    unfolding remove remove_at
    remove_by none e =
        let (same, no_id) = others_missing (λ n p. cc) in (q, rw (e, remove, no_id), rw same, v)
    remove_by (some (pos n)) e =
        let (q', done, left, v') = remove_at_lem q id n v e in
        let (erased, has_id) = others_at n e in
        (q', rw (e, remove, has_id) done, rw erased left, v')
    remove_by (some (negsuc zero)) e =
        let (same, no_id) = others_missing (λ n p. cc) in
        (
          record q { items_ids = insert id gone q.items_ids },
          rw (e, remove, no_id, remove_at),
          rw same,
          mark_again-IsValid q id v e,
        )
    remove_by (some (negsuc (suc n))) e = absurd (omega (arith, v.marked id (suc n) e))

    -- `Remove` never cuts out of range. It answers whether the id was queued, and takes out the item
    -- with that id alone.
    pub remove_lem : Removed (remove id q)
    remove_lem = remove_by (lookup id q.items_ids) refl

  round_head :
      (q : Queue A) (xs : List (QueueItem A)) (held : Option (QueueItem A)) {head : QueueItem A}
      {rest : List (QueueItem A)}
      → xs ≡ head ∷ rest
      → dequeue_round q xs held
        ≡ ((dequeue_head q head rest).0, some head, (dequeue_head q head rest).1)
  unfolding dequeue_round
  round_head q xs held e = rw e

  round_empty :
      (q : Queue A) (xs : List (QueueItem A)) (held : Option (QueueItem A))
      → xs ≡ []
      → dequeue_round q xs held ≡ (q, held, false)
  unfolding dequeue_round
  round_empty q xs held e = rw e

  -- `Dequeue` on a valid queue takes the head, with one token.
  pub dequeue_lem :
      (tokens : ℕ) (q : Queue A) (head : QueueItem A) (rest : List (QueueItem A))
      → IsValid q
      → q.items ≡ head ∷ rest
      → (q' : Queue A) × (dequeue (suc tokens) q ≡ (q', some head.item))
        × (q'.items ≡ rest)
        × IsValid q'
  unfolding dequeue dequeue_from
  dequeue_lem tokens q head rest v e = (
    (dequeue_head q head rest).0,
    simp (round_head q q.items none e, head_live q head rest v e),
    unfold dequeue_head in refl,
    dequeue_head-IsValid q head rest v e,
  )

  dequeue_from_empty :
      (tokens : ℕ) (q : Queue A) → q.items ≡ [] → dequeue_from tokens none q ≡ (q, none)
  unfolding dequeue_from
  dequeue_from_empty zero q e = refl
  dequeue_from_empty (suc n) q e = simp (round_empty q q.items none e) (dequeue_from_empty n q e)

  -- On an empty queue `Dequeue` waits, however many tokens it is given.
  pub dequeue_empty : (tokens : ℕ) (q : Queue A) → q.items ≡ [] → dequeue tokens q ≡ (q, none)
  unfolding dequeue
  dequeue_empty tokens q e = dequeue_from_empty tokens q e

  pub any-IsFresh : (id : String) (q : Queue A) → any (named id) q.items ≡ false → IsFresh id q
  any-IsFresh id q h = from q.items h
    where
      from :
          (xs : List (QueueItem A))
          → any (named id) xs ≡ false
          → (i : ℕ) (x : QueueItem A) → get_elem? xs i ≡ some x
          → x.id ≢ id
      from [] h i x e = cc
      from (y ∷ xs) h zero x e = ground (arith, eq_iff y.id id)
      from (y ∷ xs) h (suc i) x e = from xs (ground arith) i x e

  -- `Enqueue` adds at the end.
  pub enqueue_lem :
      (a : A) (id : String) (q : Queue A)
      → any (named id) q.items ≡ false
      → IsValid q
      → ((enqueue a id q).items ≡ q.items ++ record { item = a; id = id } ∷ [])
        × IsValid (enqueue a id q)
  unfolding enqueue
  enqueue_lem a id q h v = (refl, enqueue-IsValid a id q (any-IsFresh id q h) v)
