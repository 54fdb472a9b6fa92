-- ===== src/Pool/Round.antt =====
-- A round of `Update` in pool.go, from its reservation to its reset.
use nomad_ondemand_scaler.Prelude.{
  ℕ, ◌≡◌, refl, String, Bool, true, false, not, ◌&&◌, List, [], ◌∷◌, ◌++◌, any, All, str_eq, eq_iff,
  eq_refl, arith,
}
use mathlib.Core.List.{append-nil}
use nomad_ondemand_scaler.Nomad.{Node, Allocation}
use nomad_ondemand_scaler.Pool.{Pool}
use nomad_ondemand_scaler.Pool.Update.{reserve, remove_first, remove_each, forget, begin}

module _ {A : Type 0} (id_of : A → String) where
  abbrev pub has_id : String → List A → Bool
  has_id id = any (λ x. str_eq (id_of x) id)

  -- No two elements share an id.
  abbrev pub IsDistinct : List A → Type 0
  IsDistinct [] = Unit
  IsDistinct (x ∷ xs) = (has_id (id_of x) xs ≡ false) × IsDistinct xs

  -- None of the first list's ids is in the second.
  abbrev pub IsNewTo : List A → List A → Type 0
  IsNewTo ys xs = All (λ y. has_id (id_of y) xs ≡ false) ys

  remove_first-append :
      (y : A) (xs ys : List A)
      → has_id (id_of y) xs ≡ false
      → remove_first id_of (id_of y) (xs ++ y ∷ ys) ≡ xs ++ ys
  unfolding remove_first
  remove_first-append y [] ys h = rw (eq_refl (id_of y))
  remove_first-append y (x ∷ xs) ys h =
      ground (arith, remove_first-append y xs ys, eq_iff (id_of x) (id_of y))

  remove_each-append : (ys xs : List A) → IsNewTo ys xs → remove_each id_of ys (xs ++ ys) ≡ xs
  unfolding remove_each
  remove_each-append [] xs h = append-nil xs
  remove_each-append (y ∷ ys) xs h =
      rw (remove_first-append y xs ys h.0) (remove_each-append ys xs h.1)

  has_id-remove_first :
      (k id : String) (xs : List A)
      → IsDistinct xs
      → has_id k (remove_first id_of id xs) ≡ has_id k xs && not (str_eq id k)
  unfolding remove_first
  has_id-remove_first k id [] d = refl
  has_id-remove_first k id (x ∷ xs) d =
      ground (
        arith,
        has_id-remove_first k id xs d.1,
        eq_iff (id_of x) id,
        eq_iff (id_of x) k,
        eq_iff id k,
      )

  remove_first-IsDistinct :
      (id : String) (xs : List A) → IsDistinct xs → IsDistinct (remove_first id_of id xs)
  unfolding remove_first
  remove_first-IsDistinct id [] d = tt
  remove_first-IsDistinct id (x ∷ xs) d =
      ground (arith, remove_first-IsDistinct id xs d.1, has_id-remove_first (id_of x) id xs d.1)

  -- The loops take out the ids of the first list and leave all others.
  pub has_id-remove_each :
      (k : String) (ys xs : List A)
      → IsDistinct xs
      → has_id k (remove_each id_of ys xs) ≡ has_id k xs && not (has_id k ys)
  unfolding remove_each
  has_id-remove_each k [] xs d = ground arith
  has_id-remove_each k (y ∷ ys) xs d = ground (
    arith,
    has_id-remove_each k ys (remove_first id_of (id_of y) xs)
        (remove_first-IsDistinct (id_of y) xs d),
    has_id-remove_first k (id_of y) xs d,
  )

abbrev pub node_id_of : Node → String
node_id_of n = n.id

abbrev pub alloc_id_of : Allocation → String
alloc_id_of a = a.id

module _ (en : List Node) (ea : List Allocation) (p : Pool) where
  -- A round whose ids are new leaves no trace when it is reset at once.
  pub forget-reserve :
      IsNewTo node_id_of en p.ephemeral_nodes
      → IsNewTo alloc_id_of ea p.ephemeral_allocs
      → forget en ea (reserve en ea p) ≡ p
  unfolding forget reserve
  forget-reserve hn ha = rw (
    remove_each-append node_id_of en p.ephemeral_nodes hn,
    remove_each-append alloc_id_of ea p.ephemeral_allocs ha,
  )

  -- When the provider refuses the new size to a round whose ids are new to the pool, `Update` does
  -- not wait, and the pool is as before.
  pub begin_failed :
      (ch : ℕ)
      → IsNewTo node_id_of en p.ephemeral_nodes
      → IsNewTo alloc_id_of ea p.ephemeral_allocs
      → begin ch true en ea p ≡ (p, false)
  unfolding begin
  begin_failed ch hn ha = rw (forget-reserve hn ha)

  -- If no two ephemerals of the pool share an id, the reset at the end of a round takes out those
  -- with an id of the round and leaves all others.
  pub forget_lem :
      (k : String)
      → IsDistinct node_id_of p.ephemeral_nodes
      → IsDistinct alloc_id_of p.ephemeral_allocs
      → (has_id node_id_of k (forget en ea p).ephemeral_nodes
          ≡ has_id node_id_of k p.ephemeral_nodes && not (has_id node_id_of k en))
        × (has_id alloc_id_of k (forget en ea p).ephemeral_allocs
            ≡ has_id alloc_id_of k p.ephemeral_allocs && not (has_id alloc_id_of k ea))
  unfolding forget
  forget_lem k dn da = (
    has_id-remove_each node_id_of k en p.ephemeral_nodes dn,
    has_id-remove_each alloc_id_of k ea p.ephemeral_allocs da,
  )
