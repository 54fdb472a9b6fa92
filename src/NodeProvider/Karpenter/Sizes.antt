-- ===== src/NodeProvider/Karpenter/Sizes.antt =====
-- `UpdateNode` of nodeprovider/karpenter.go: how many instances there are, or will be.
use nomad_ondemand_scaler.Prelude.{
  ℕ, zero, suc, ◌+◌, ◌≤◌, ◌<◌, ◌≡◌, refl, String, Bool, true, none, some, List, [], ◌∷◌, all,
  length, eq_iff, eq_refl, arith,
}
use nomad_ondemand_scaler.Prelude.Int.{ℤ, pos, negsuc, pos_part, neg_part, ◌-ℤ◌, -ℤ_parts}
use nomad_ondemand_scaler.Prelude.Dict.{Dict, lookup, insert, delete, delete_absent, IsKeyed}
use nomad_ondemand_scaler.Nomad.{Node}
use nomad_ondemand_scaler.NodeProvider.Aws.{instances_to_remove, batches, batches_from}
use nomad_ondemand_scaler.NodeProvider.Karpenter.{
  Karpenter, Sized, too_many, awaited, ask_for, update_node, forget_ids, is_done, remove_ids,
  remove_batches, finish_adding,
}
use nomad_ondemand_scaler.NodeProvider.Karpenter.Removing.{remove_ids_lem, length-forget_ids}

-- What is known and what is awaited, against what is wanted.
abbrev pub IsBalanced : ℕ → Karpenter → Sized → Type 0
IsBalanced total k too_many = total < length k.known.state + awaited k.incephemeral
IsBalanced total k _ = length k.known.state + awaited k.incephemeral ≡ total

awaited-insert :
    (key : String) (n : ℕ) (m : Dict ℕ)
    → lookup key m ≡ none
    → awaited (insert key n m) ≡ awaited m + n
unfolding lookup insert
awaited-insert key n [] h = omega arith
awaited-insert key n ((j, x) ∷ m) h = ground (arith, eq_iff j key, awaited-insert key n m)

delete-insert :
    (key : String) (n : ℕ) (m : Dict ℕ) → lookup key m ≡ none → delete key (insert key n m) ≡ m
unfolding lookup insert delete
delete-insert key n [] h = ground (arith, eq_refl key)
delete-insert key n ((j, x) ∷ m) h = ground (arith, eq_iff j key, delete-insert key n m)

ask_for-IsBalanced :
    (key : String) (z : ℤ) (state : Dict Bool) (total : ℕ) (k : Karpenter)
    → lookup key k.incephemeral ≡ none
    → pos_part z + length state + awaited k.incephemeral ≡ total + neg_part z
    → IsBalanced total (ask_for key z state k).0 (ask_for key z state k).1
unfolding ask_for
ask_for-IsBalanced key (pos zero) state total k h g = omega (arith, g)
ask_for-IsBalanced key (pos (suc n)) state total k h g =
    omega (arith, g, awaited-insert key (suc n) k.incephemeral h)
ask_for-IsBalanced key (negsuc n) state total k h g = omega (arith, g)

ask_for-state :
    (key : String) (z : ℤ) (state : Dict Bool) (k : Karpenter)
    → (ask_for key z state k).0.known.state ≡ state
unfolding ask_for
ask_for-state key (pos zero) state k = refl
ask_for-state key (pos (suc n)) state k = refl
ask_for-state key (negsuc n) state k = refl

wanting :
    (total there gone waited left : ℕ)
    → left + gone ≡ there
    → let z = pos total -ℤ (pos there -ℤ pos gone) -ℤ pos waited in
      pos_part z + left + waited ≡ total + neg_part z
wanting total there gone waited left h = omega (
  arith,
  -ℤ_parts (pos there) (pos gone),
  -ℤ_parts (pos total) (pos there -ℤ pos gone),
  -ℤ_parts (pos total -ℤ (pos there -ℤ pos gone)) (pos waited),
)

-- Where each instance is known once, the random text is new, and each batch of the instances to remove
-- has an answer that ends in success: UpdateNode returns, it forgets exactly the instances to remove, and
-- those then known with those awaited are as many as are wanted; or they are more, and it returns an error.
pub update_node-IsBalanced :
    (key : String) (answers : List (List Bool)) (nodes : List Node) (total : ℕ) (k : Karpenter)
    → IsKeyed k.known.state
    → lookup key k.incephemeral ≡ none
    → all is_done answers ≡ true
    → length (batches (instances_to_remove nodes k.known.state)) ≤ length answers
    → (k' : Karpenter) × (o : Sized) × (update_node key answers nodes total k ≡ some (k', o))
      × (k'.known.state ≡ forget_ids (instances_to_remove nodes k.known.state) k.known.state)
      × IsBalanced total k' o
unfolding update_node
update_node-IsBalanced key answers nodes total k keyed fresh done many =
    let ids = instances_to_remove nodes k.known.state in
    let state = forget_ids ids k.known.state in
    let z =
      pos total
      -ℤ (pos (length k.known.state) -ℤ pos (length ids))
      -ℤ pos (awaited k.incephemeral) in
    (
      (ask_for key z state k).0,
      (ask_for key z state k).1,
      rw (remove_ids_lem ids answers k.known.state done many, update_node) refl,
      ask_for-state key z state k,
      ask_for-IsBalanced key z state total k fresh (
          wanting total (length k.known.state) (length ids) (awaited k.incephemeral) (length state)
            (length-forget_ids nodes k.known.state keyed)),
    )

finish_adding-ask_for :
    (key : String) (z : ℤ) (k : Karpenter)
    → lookup key k.incephemeral ≡ none
    → finish_adding key (ask_for key z k.known.state k).0 ≡ k
unfolding ask_for finish_adding
finish_adding-ask_for key (pos zero) k h = rw (delete_absent key k.incephemeral h) refl
finish_adding-ask_for key (pos (suc n)) k h = rw (delete-insert key (suc n) k.incephemeral h) refl
finish_adding-ask_for key (negsuc n) k h = rw (delete_absent key k.incephemeral h) refl

nothing_gone : (ids : List String) (m : Dict Bool) → ids ≡ [] → remove_ids ids [] m ≡ some m
unfolding remove_ids batches batches_from remove_batches
nothing_gone [] m h = refl
nothing_gone (id ∷ ids) m h = absurd (cc h)

-- Where the pool names every instance that it has seen, and the random text is new: UpdateNode returns,
-- and when the instances that it asked for, if any, have been added, the provider is as it was before the
-- call, and so would ask for them again.
pub finish_adding-update_node :
    (key : String) (nodes : List Node) (total : ℕ) (k : Karpenter)
    → instances_to_remove nodes k.known.state ≡ []
    → lookup key k.incephemeral ≡ none
    → (k' : Karpenter) × (o : Sized) × (update_node key [] nodes total k ≡ some (k', o))
      × (finish_adding key k' ≡ k)
unfolding update_node
finish_adding-update_node key nodes total k none_gone fresh =
    let gone = length (instances_to_remove nodes k.known.state) in
    let z = pos total -ℤ (pos (length k.known.state) -ℤ pos gone) -ℤ pos (awaited k.incephemeral) in
    (
      (ask_for key z k.known.state k).0,
      (ask_for key z k.known.state k).1,
      rw
          (
            nothing_gone (instances_to_remove nodes k.known.state) k.known.state none_gone,
            update_node,
          )
          refl,
      finish_adding-ask_for key z k fresh,
    )
