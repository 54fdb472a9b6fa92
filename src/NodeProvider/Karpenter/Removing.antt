-- ===== src/NodeProvider/Karpenter/Removing.antt =====
-- `_removeNode` of nodeprovider/karpenter.go: which instances are left.
use nomad_ondemand_scaler.Prelude.{
  ◌+◌, ◌≤◌, ◌≡◌, refl, ◌∙◌, ap, String, Bool, true, false, not, ◌&&◌, none, some, List, [], ◌∷◌,
  any, all, drop, length, str_eq, if◌then◌else◌, eq_iff, eq_refl, arith, Bool-cases, inl, inr,
}
use nomad_ondemand_scaler.Prelude.Dict.{Dict, lookup, delete, IsKeyed, lookup-delete, delete_absent}
use nomad_ondemand_scaler.Nomad.{Node}
use nomad_ondemand_scaler.NodeProvider.Aws.{instance_of, instances_to_remove, batches, batches_from}
use nomad_ondemand_scaler.NodeProvider.Karpenter.{forget_ids, is_done, remove_batches, remove_ids}

lookup-forget_ids :
    (k : String) (ids : List String) (m : Dict Bool)
    → lookup k (forget_ids ids m) ≡ (if any (λ id. str_eq id k) ids then none else lookup k m)
unfolding forget_ids
lookup-forget_ids k [] m = refl
lookup-forget_ids k (id ∷ ids) m =
    ground (arith, lookup-forget_ids k ids (delete id m), lookup-delete id k m)

-- Nothing of it is there.
abbrev IsGone : List String → Dict Bool → Type 0
IsGone [] m = Unit
IsGone (id ∷ ids) m = (lookup id m ≡ none) × IsGone ids m

forget_ids_gone : (ids : List String) (m : Dict Bool) → IsGone ids m → forget_ids ids m ≡ m
unfolding forget_ids
forget_ids_gone [] m h = refl
forget_ids_gone (id ∷ ids) m h = rw (delete_absent id m h.0) (forget_ids_gone ids m h.1)

gone_lem :
    (ids : List String) (m : Dict Bool)
    → ((k : String) → any (λ id. str_eq id k) ids ≡ true → lookup k m ≡ none)
    → IsGone ids m
gone_lem [] m h = tt
gone_lem (id ∷ ids) m h =
    (h id (ground (arith, eq_iff id id)), gone_lem ids m (λ k g. h k (ground (arith, g))))

forget_ids-IsGone : (ids : List String) (m : Dict Bool) → IsGone ids (forget_ids ids m)
forget_ids-IsGone ids m =
    gone_lem ids (forget_ids ids m) (λ k g. lookup-forget_ids k ids m ∙ rw g refl)

remove_again :
    (bs : List (List String)) (ids : List String) (answers : List (List Bool)) (m : Dict Bool)
    → all is_done answers ≡ true
    → length bs ≤ length answers
    → IsGone ids m
    → remove_batches bs ids answers m ≡ some m
unfolding remove_batches
remove_again [] ids answers m h g gone = refl
remove_again (b ∷ bs) ids [] m h g gone = absurd (omega arith)
remove_again (b ∷ bs) ids (a ∷ answers) m h g gone =
    rw (forget_ids_gone ids m gone)
      (ground (arith, h, remove_again bs ids answers m (ground arith) (omega arith) gone))

-- With an answer that ends in success for each batch, the removal leaves all but the ids.
pub remove_ids_lem :
    (ids : List String) (answers : List (List Bool)) (m : Dict Bool)
    → all is_done answers ≡ true
    → length (batches ids) ≤ length answers
    → remove_ids ids answers m ≡ some (forget_ids ids m)
unfolding remove_ids remove_batches forget_ids batches batches_from
remove_ids_lem [] answers m h g = refl
remove_ids_lem (id ∷ ids) [] m h g = absurd (omega arith)
remove_ids_lem (id ∷ ids) (a ∷ answers) m h g =
    let again =
      remove_again (batches_from (length ids) (drop 19 ids)) (id ∷ ids) answers
        (forget_ids (id ∷ ids) m) (ground (arith, h)) (omega (arith, g))
        (forget_ids-IsGone (id ∷ ids) m) in
    ground (arith, h, again)

forget_ids-cons :
    (id : String) (x : Bool) (ids : List String) (m : Dict Bool)
    → any (λ k. str_eq k id) ids ≡ false
    → forget_ids ids ((id, x) ∷ m) ≡ (id, x) ∷ forget_ids ids m
unfolding forget_ids delete
forget_ids-cons id x [] m h = refl
forget_ids-cons id x (k ∷ ids) m h =
    ground (arith, eq_iff id k, forget_ids-cons id x ids (delete k m))

-- The instances to remove are no others than those of the state.
to_remove_absent :
    (id : String) (nodes : List Node) (m : Dict Bool)
    → lookup id m ≡ none
    → any (λ k. str_eq k id) (instances_to_remove nodes m) ≡ false
unfolding lookup instances_to_remove
to_remove_absent id nodes [] h = refl
to_remove_absent id nodes ((k, seen) ∷ m) h = ground (arith, h, to_remove_absent id nodes m)

forget_ids_kept :
    (id : String) (seen : Bool) (nodes : List Node) (m : Dict Bool)
    → lookup id m ≡ none
    → forget_ids (instances_to_remove nodes m) ((id, seen) ∷ m)
      ≡ (id, seen) ∷ forget_ids (instances_to_remove nodes m) m
forget_ids_kept id seen nodes m h =
    forget_ids-cons id seen (instances_to_remove nodes m) m (to_remove_absent id nodes m h)

delete_first :
    (id : String) (seen : Bool) (m : Dict Bool)
    → lookup id m ≡ none
    → delete id ((id, seen) ∷ m) ≡ m
unfolding delete
delete_first id seen m h = ground (arith, eq_refl id, delete_absent id m h)

forget_ids_first :
    (id : String) (seen : Bool) (ids : List String) (m : Dict Bool)
    → lookup id m ≡ none
    → forget_ids (id ∷ ids) ((id, seen) ∷ m) ≡ forget_ids ids m
unfolding forget_ids
forget_ids_first id seen ids m h = ap (forget_ids ids) (delete_first id seen m h)

-- As many are gone as were to be removed.
pub length-forget_ids :
    (nodes : List Node) (m : Dict Bool)
    → IsKeyed m
    → length (forget_ids (instances_to_remove nodes m) m) + length (instances_to_remove nodes m)
      ≡ length m
unfolding instances_to_remove forget_ids
length-forget_ids nodes [] h = omega arith
length-forget_ids nodes ((id, seen) ∷ m) h =
    let removed = seen && not (any (λ n. str_eq (instance_of n) id) nodes) in
    let others = length-forget_ids nodes m h.1 in
    elim (Bool-cases removed) [
      | inl e ↦
          rw (e, forget_ids_first id seen (instances_to_remove nodes m) m h.0)
            (omega (arith, others))
      | inr e ↦ rw (e, forget_ids_kept id seen nodes m h.0) (omega (arith, others))
    ]
