-- ===== src/Queue/Valid.antt =====
-- The index of queue.go and its items agree, and every call keeps that.
use nomad_ondemand_scaler.Prelude.{
  ℕ, suc, ◌<◌, ◌≡◌, refl, ◌≢◌, String, true, false, Option, none, some, List, ◌∷◌, length,
  erase_idx, get_elem?, ltb, if◌then◌else◌, arith, eq_iff, get_elem?-erase_idx,
  get_elem?-append_one, get_elem?-lt, Bool-cases, inl, inr, str_eq, subst,
}
use nomad_ondemand_scaler.Prelude.Int.{ℤ, pos, negsuc}
use nomad_ondemand_scaler.Prelude.Dict.{
  Dict, lookup, insert, map_values, lookup-insert, lookup-delete, lookup-map_values, map_option,
}
use nomad_ondemand_scaler.Queue.{
  QueueItem, Queue, gone, shift_above, new_queue, enqueue, dequeue_head, remove_at,
}

pub record IsValid {ℓ} {A : Type ℓ} (q : Queue A) : Type ℓ where
  pub indexed :
      (i : ℕ) (x : QueueItem A)
      → get_elem? q.items i ≡ some x
      → lookup x.id q.items_ids ≡ some (pos i)
  pub found :
      (id : String) (n : ℕ)
      → lookup id q.items_ids ≡ some (pos n)
      → (x : QueueItem A) × (get_elem? q.items n ≡ some x) × (x.id ≡ id)
  pub marked : (id : String) (n : ℕ) → lookup id q.items_ids ≡ some (negsuc n) → n ≡ 0

-- No queued item has the id.
abbrev pub IsFresh {ℓ} : {A : Type ℓ} → String → Queue A → Type ℓ
IsFresh {A = A} id q = (i : ℕ) (x : QueueItem A) → get_elem? q.items i ≡ some x → x.id ≢ id

module _ {ℓ} {A : Type ℓ} where
  pub new_queue-IsValid : IsValid (new_queue {A = A})
  unfolding new_queue lookup
  new_queue-IsValid = record { indexed = λ i x h. cc; found = λ id n h. cc; marked = λ id n h. cc }

  enqueue-indexed :
      (a : A) (id : String) (q : Queue A)
      → IsFresh id q
      → IsValid q
      → (i : ℕ) (x : QueueItem A) → get_elem? (enqueue a id q).items i ≡ some x
      → lookup x.id (enqueue a id q).items_ids ≡ some (pos i)
  unfolding enqueue
  enqueue-indexed a id q fresh v i x h = ground (
    arith,
    lookup-insert id x.id (pos (length q.items)) q.items_ids,
    get_elem?-append_one q.items (record { item = a; id = id }) i,
    v.indexed i x,
    fresh i x,
    eq_iff id x.id,
  )

  enqueue-found :
      (a : A) (id : String) (q : Queue A)
      → IsValid q
      → (j : String) (n : ℕ) → lookup j (enqueue a id q).items_ids ≡ some (pos n)
      → (x : QueueItem A) × (get_elem? (enqueue a id q).items n ≡ some x) × (x.id ≡ j)
  unfolding enqueue
  enqueue-found a id q v j n h = elim (Bool-cases (str_eq id j)) [
    | inl same ↦ (
      record { item = a; id = id },
      ground (
        arith,
        lookup-insert id j (pos (length q.items)) q.items_ids,
        get_elem?-append_one q.items (record { item = a; id = id }) n,
      ),
      (eq_iff id j).0 same,
    )
    | inr other ↦
        let old : lookup j q.items_ids ≡ some (pos n) =
          ground (arith, lookup-insert id j (pos (length q.items)) q.items_ids) in
        let (x, at, named) = v.found j n old in
        (
          x,
          ground (
            arith,
            get_elem?-append_one q.items (record { item = a; id = id }) n,
            get_elem?-lt q.items n at,
          ),
          named,
        )
  ]

  pub enqueue-IsValid :
      (a : A) (id : String) (q : Queue A) → IsFresh id q → IsValid q → IsValid (enqueue a id q)
  unfolding enqueue
  enqueue-IsValid a id q fresh v = record {
    indexed = enqueue-indexed a id q fresh v;
    found = enqueue-found a id q v;
    marked = λ j n h.
        ground (arith, lookup-insert id j (pos (length q.items)) q.items_ids, v.marked j n);
  }

  -- Taking the head of a valid queue: its id is live, and the rest is valid.
  module _ (q : Queue A) (head : QueueItem A) (rest : List (QueueItem A)) (v : IsValid q)
      (e : q.items ≡ head ∷ rest) where
    abbrev shifted : Dict ℤ
    shifted = map_values (λ id. shift_above 0) q.items_ids

    head_at : lookup head.id q.items_ids ≡ some (pos 0)
    head_at = v.indexed 0 head (rw e)

    pub head_live : (dequeue_head q head rest).1 ≡ false
    unfolding dequeue_head
    head_live = ground (arith, head_at, lookup-map_values (λ id. shift_above 0) head.id q.items_ids)

    left_at :
        (j : String)
        → lookup j (dequeue_head q head rest).0.items_ids
          ≡ (if str_eq head.id j then none else map_option (shift_above 0) (lookup j q.items_ids))
    unfolding dequeue_head
    left_at j =
        rw (lookup-delete head.id j shifted)
          (ground (arith, lookup-map_values (λ id. shift_above 0) j q.items_ids))

    left_indexed :
        (i : ℕ) (x : QueueItem A)
        → get_elem? rest i ≡ some x
        → lookup x.id (dequeue_head q head rest).0.items_ids ≡ some (pos i)
    left_indexed i x h = ground (arith, left_at x.id, at, head_at, eq_iff head.id x.id)
      where
        at : lookup x.id q.items_ids ≡ some (pos (suc i))
        at = v.indexed (suc i) x (rw e h)

    left_found :
        (j : String) (n : ℕ)
        → lookup j (dequeue_head q head rest).0.items_ids ≡ some (pos n)
        → (x : QueueItem A) × (get_elem? rest n ≡ some x) × (x.id ≡ j)
    left_found j n h =
        let (at, ne) = origin (lookup j q.items_ids) refl in
        let (x, there, named) = v.found j (suc n) at in
        (x, subst (λ xs. get_elem? xs (suc n) ≡ some x) e there, named)
      where
        origin :
            (o : Option ℤ)
            → lookup j q.items_ids ≡ o
            → (lookup j q.items_ids ≡ some (pos (suc n))) × (str_eq head.id j ≡ false)
        origin o p = ground (arith, left_at j, v.found j 0, head_at, eq_iff head.id j)

    left_marked :
        (j : String) (n : ℕ)
        → lookup j (dequeue_head q head rest).0.items_ids ≡ some (negsuc n)
        → n ≡ 0
    left_marked j n h = ground (arith, left_at j, v.marked j n)

    pub dequeue_head-IsValid : IsValid (dequeue_head q head rest).0
    unfolding dequeue_head
    dequeue_head-IsValid = record {
      indexed = left_indexed;
      found = left_found;
      marked = left_marked;
    }

  -- Removing the item at `index` from a valid queue.
  module _ (q : Queue A) (id : String) (index : ℕ) (v : IsValid q)
      (at : lookup id q.items_ids ≡ some (pos index)) where
    pub within : index < length q.items
    within = let (x, there, _) = v.found id index at in get_elem?-lt q.items index there

    abbrev kept : Dict ℤ
    kept = map_values (λ j. shift_above index) (insert id gone q.items_ids)

    kept_at :
        (j : String)
        → lookup j kept ≡ (
            if str_eq id j
            then some gone
            else map_option (shift_above index) (lookup j q.items_ids))
    kept_at j =
        rw (lookup-map_values (λ j. shift_above index) j (insert id gone q.items_ids))
          (ground (arith, lookup-insert id j gone q.items_ids))

    kept_indexed :
        (i : ℕ) (x : QueueItem A)
        → get_elem? (erase_idx q.items index) i ≡ some x
        → lookup x.id kept ≡ some (pos i)
    kept_indexed i x h = ground (
      arith,
      kept_at x.id,
      get_elem?-erase_idx q.items index i,
      v.indexed i x,
      v.indexed (suc i) x,
      at,
      eq_iff id x.id,
    )

    -- Where the item now at `n` stood.
    abbrev before : ℕ → ℕ
    before n = if ltb n index then n else suc n

    kept_found :
        (j : String) (n : ℕ)
        → lookup j kept ≡ some (pos n)
        → (x : QueueItem A) × (get_elem? (erase_idx q.items index) n ≡ some x) × (x.id ≡ j)
    kept_found j n h =
        let (x, there, named) = v.found j (before n) origin in
        (x, ground (arith, get_elem?-erase_idx q.items index n, there), named)
      where
        same_place : lookup j q.items_ids ≡ some (pos index) → str_eq id j ≡ false → ⊥
        same_place p ne =
            let (x, ax, ex) = v.found id index at in
            let (y, ay, ey) = v.found j index p in ground (arith, ax, ay, eq_iff id j)

        origin : lookup j q.items_ids ≡ some (pos (before n))
        origin = ground (arith, kept_at j, same_place)

    kept_marked : (j : String) (n : ℕ) → lookup j kept ≡ some (negsuc n) → n ≡ 0
    kept_marked j n h = ground (arith, kept_at j, v.marked j n)

    -- No panic: the slice is cut at a position that it has.
    pub remove_at_lem :
        (q' : Queue A) × (remove_at id (pos index) q ≡ some (q', true))
        × (q'.items ≡ erase_idx q.items index)
        × IsValid q'
    unfolding remove_at
    remove_at_lem = (
      record q { items = erase_idx q.items index; items_ids = kept },
      ground (arith, within),
      refl,
      record { indexed = kept_indexed; found = kept_found; marked = kept_marked },
    )

  -- Marking an id that is marked already changes no position.
  pub mark_again-IsValid :
      (q : Queue A) (id : String)
      → IsValid q
      → lookup id q.items_ids ≡ some gone
      → IsValid (record q { items_ids = insert id gone q.items_ids })
  mark_again-IsValid q id v e = record {
    indexed = λ i x h. rw (same x.id) (v.indexed i x h);
    found = λ j n h. v.found j n (rw (← same j) h);
    marked = λ j n h. v.marked j n (rw (← same j) h);
  }
    where
      same : (j : String) → lookup j (insert id gone q.items_ids) ≡ lookup j q.items_ids
      same j = ground (arith, lookup-insert id j gone q.items_ids, eq_iff id j, e)
