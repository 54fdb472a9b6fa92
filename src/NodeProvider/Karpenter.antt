-- ===== src/NodeProvider/Karpenter.antt =====
-- nodeprovider/karpenter.go: instances that a plugin asks Kubernetes for. What the plugin answers, call by
-- call, is an argument; a function that is not done when the answers are used up gives `none`. The state
-- of the instances and what is known of them is kept as by the AWS provider, whose code has the same lines.
pub mod Removing
pub mod Sizes
pub mod Adding
pub mod Racing
pub mod Adders
pub mod Tracked
pub mod Creating
use nomad_ondemand_scaler.Prelude.{
  ℕ, zero, suc, ◌+◌, ◌-◌, String, Bool, true, false, Option, none, some, List, [], ◌∷◌, ◌++◌,
  length, ltb, ◌==◌, if◌then◌else◌, get_or_else,
}
use nomad_ondemand_scaler.Prelude.Int.{ℤ, pos, negsuc, ◌-ℤ◌}
use nomad_ondemand_scaler.Prelude.Dict.{Dict, insert, delete, lookup}
use nomad_ondemand_scaler.Nomad.{Node, NodeEvent}
use nomad_ondemand_scaler.NodeProvider.Aws.{
  Provider, mark_seen, refresh, instance_of, get_last_register_event, instances_to_remove, batches,
}

-- `known` has `state` and `lastUpdatetime`.
pub record Karpenter : Type 0 where
  pub known : Provider
  pub incephemeral : Dict ℕ

unfoldable pub read_listed : List String → Dict Bool → Dict Bool
read_listed [] state = state
read_listed (id ∷ ids) state = read_listed ids (insert id false state)

-- Answers to ListInstances, where `none` is an error, until there is one without.
unfoldable pub list_until_done : List (Option (List String)) → Dict Bool → Option (Dict Bool)
unfolding read_listed
list_until_done [] state = none
list_until_done (none ∷ answers) state = list_until_done answers state
list_until_done (some ids ∷ answers) state = some (read_listed ids state)

abbrev pub with_known : Karpenter → Provider × Bool → Karpenter × Bool
with_known k (known, there) = (record k { known = known }, there)

unfoldable pub is_node_exists :
    (String → Bool) → ℕ → List (Option (List String)) → Node → Karpenter → Option (Karpenter × Bool)
unfolding list_until_done
is_node_exists registered now answers n k = elim (get_last_register_event registered n.events) [
  | none ↦ none
  | some e ↦
      let fresh : Option (Karpenter × Bool) = elim (list_until_done answers []) [
        | none ↦ none
        | some new ↦ some (with_known k (mark_seen (instance_of n) (refresh now new k.known)))
      ] in
      if ltb k.known.last_updatetime e.timestamp
      then fresh
      else some (with_known k (mark_seen (instance_of n) k.known))
]

unfoldable pub forget_ids : List String → Dict Bool → Dict Bool
forget_ids [] state = state
forget_ids (id ∷ ids) state = forget_ids ids (delete id state)

-- Whether the call of RemoveInstances, which is repeated until there is no error, is done.
unfoldable pub is_done : List Bool → Bool
is_done [] = false
is_done (true ∷ answers) = true
is_done (false ∷ answers) = is_done answers

-- Each batch of the loop deletes all the ids of the call.
unfoldable pub remove_batches :
    List (List String) → List String → List (List Bool) → Dict Bool → Option (Dict Bool)
unfolding forget_ids is_done
remove_batches [] ids answers state = some state
remove_batches (batch ∷ rest) ids [] state = none
remove_batches (batch ∷ rest) ids (answer ∷ answers) state =
    let later = remove_batches rest ids answers (forget_ids ids state) in
    if is_done answer then later else none

unfoldable pub remove_ids : List String → List (List Bool) → Dict Bool → Option (Dict Bool)
unfolding remove_batches
remove_ids ids answers state = remove_batches (batches ids) ids answers state

abbrev pub instances_of : List Node → List String
instances_of [] = []
instances_of (n ∷ nodes) = instance_of n ∷ instances_of nodes

unfoldable pub remove_node : List Node → List (List Bool) → Dict Bool → Option (Dict Bool)
unfolding remove_ids
remove_node nodes answers state = remove_ids (instances_of nodes) answers state

-- The instances that were asked for, and that goroutines still wait for.
abbrev pub awaited : Dict ℕ → ℕ
awaited [] = 0
awaited ((key, n) ∷ rest) = n + awaited rest

pub data Sized : Type 0 where
  enough : Sized
  asked : ℕ → Sized
  too_many : Sized

unfoldable pub ask_for : String → ℤ → Dict Bool → Karpenter → Karpenter × Sized
ask_for key (pos zero) state k = (record k { known = record k.known { state = state } }, enough)
ask_for key (pos (suc n)) state k = (
  record k {
    known = record k.known { state = state };
    incephemeral = insert key (suc n) k.incephemeral;
  },
  asked (suc n),
)
ask_for key (negsuc n) state k = (record k { known = record k.known { state = state } }, too_many)

-- `key` is the random text for this call.
unfoldable pub update_node :
    String → List (List Bool) → List Node → ℕ → Karpenter → Option (Karpenter × Sized)
unfolding ask_for remove_ids
update_node key answers nodes total k =
    let ids = instances_to_remove nodes k.known.state in
    elim (remove_ids ids answers k.known.state) [
      | none ↦ none
      | some state ↦
          let count = pos (length k.known.state) -ℤ pos (length ids) in
          some (ask_for key (pos total -ℤ count -ℤ pos (awaited k.incephemeral)) state k)
    ]

-- The goroutine: an answer to AddInstances, and whether the event's context is over after it.
pub record Added : Type 0 where
  pub instances : List String
  pub canceled : Bool

abbrev pub is_count : ℤ → ℕ → Bool
is_count (pos n) m = n == m
is_count (negsuc n) m = false

-- All instances that are added until the loop ends.
unfoldable pub add_loop : List Added → ℤ → Option (List String)
add_loop [] n = none
add_loop (a ∷ rest) n =
    let later = add_loop rest (n -ℤ pos (length a.instances)) in
    if is_count n (length a.instances)
    then some a.instances
    else if a.canceled
    then some a.instances
    else elim later [ none ↦ none | some ids ↦ some (a.instances ++ ids) ]

-- `delete(_p.incephemeral, linckey)`, at the end of the goroutine.
unfoldable pub finish_adding : String → Karpenter → Karpenter
finish_adding key k = record k { incephemeral = delete key k.incephemeral }
