-- ===== src/Tests/KarpenterRuns.antt =====
-- A provider of nodeprovider/karpenter.go with two instances, of which the pool has seen one.
use nomad_ondemand_scaler.Prelude.{
  ◌≡◌, refl, ◌≤◌, true, false, some, none, List, [], ◌∷◌, length, all, arith,
}
use nomad_ondemand_scaler.Prelude.Dict.{lookup, insert, delete, IsKeyed}
use nomad_ondemand_scaler.NodeProvider.Aws.{instances_to_remove, batches, batches_from}
use nomad_ondemand_scaler.NodeProvider.Karpenter.{
  Karpenter, Sized, Added, asked, ask_for, remove_ids, remove_batches, update_node, forget_ids,
  is_done, finish_adding,
}
use nomad_ondemand_scaler.Prelude.Int.{◌-ℤ◌}
use nomad_ondemand_scaler.NodeProvider.Karpenter.Sizes.{
  IsBalanced, update_node-IsBalanced, finish_adding-update_node,
}
use nomad_ondemand_scaler.NodeProvider.Karpenter.Racing.{
  World, Reach, Step, here, next, updates, adds, start_adder, go_on,
}
use nomad_ondemand_scaler.NodeProvider.Karpenter.Tracked.{
  IsTracked, IsWithin, Reach-IsTracked, updates-IsWithin,
}

abbrev two : Karpenter
two = record {
  known = record { state = ("i-1", true) ∷ ("i-2", false) ∷ []; last_updatetime = 0 };
  incephemeral = [];
}

abbrev unseen : Karpenter
unseen = record {
  known = record { state = ("i-2", false) ∷ []; last_updatetime = 0 };
  incephemeral = [];
}

keyed : IsKeyed two.known.state
unfolding lookup
keyed = (refl, (refl, tt))

no_key : lookup "key" two.incephemeral ≡ none
unfolding lookup
no_key = refl

one_batch : length (batches (instances_to_remove [] two.known.state)) ≤ 1
unfolding batches batches_from instances_to_remove
one_batch = omega arith

done : all is_done ((false ∷ true ∷ []) ∷ []) ≡ true
unfolding is_done
done = refl

update_node-IsBalanced_example :
    (k' : Karpenter) × (o : Sized) × (update_node "key" ((false ∷ true ∷ []) ∷ []) [] 3 two
      ≡ some (k', o))
    × (k'.known.state ≡ forget_ids (instances_to_remove [] two.known.state) two.known.state)
    × IsBalanced 3 k' o
update_node-IsBalanced_example =
    update_node-IsBalanced "key" ((false ∷ true ∷ []) ∷ []) [] 3 two keyed no_key done one_batch

nothing_seen : instances_to_remove [] unseen.known.state ≡ []
unfolding instances_to_remove
nothing_seen = refl

finish_adding-update_node_example :
    (k' : Karpenter) × (o : Sized) × (update_node "key" [] [] 3 unseen ≡ some (k', o))
    × (finish_adding "key" k' ≡ unseen)
finish_adding-update_node_example = finish_adding-update_node "key" [] 3 unseen nothing_seen no_key

abbrev answers : List Added
answers =
    record { instances = "i-3" ∷ []; canceled = false }
    ∷ record { instances = []; canceled = true }
    ∷ []

abbrev idle : World
idle = record { provider = two; adders = [] }

abbrev asking : World
asking = record {
  provider = record {
    known = record { state = ("i-2", false) ∷ []; last_updatetime = 0 };
    incephemeral = ("key", 2) ∷ [];
  };
  adders = record { key = "key"; wanted = 2; left = 2 } ∷ [];
}

first_update : Step idle asking
unfolding update_node ask_for remove_ids remove_batches forget_ids is_done batches batches_from
    instances_to_remove lookup insert delete start_adder ◌-ℤ◌
first_update = updates "key" ((false ∷ true ∷ []) ∷ []) [] 3 (asking.provider, asked 2) refl refl

one_left : Reach idle (record asking { adders = go_on 0 1 asking.adders })
unfolding go_on
one_left =
    next (next here first_update)
      (adds 0 1 (record { key = "key"; wanted = 2; left = 2 }) refl (omega arith))

Reach-IsTracked_example : IsTracked (record asking { adders = go_on 0 1 asking.adders })
Reach-IsTracked_example =
    Reach-IsTracked two.known (record asking { adders = go_on 0 1 asking.adders }) keyed one_left

other_key : lookup "other" asking.provider.incephemeral ≡ none
unfolding lookup
other_key = refl

none_gone : length (batches (instances_to_remove [] asking.provider.known.state)) ≤ 0
unfolding batches batches_from instances_to_remove
none_gone = omega arith

updates-IsWithin_example :
    (v : World) × (o : Sized) × (update_node "other" [] [] 5 asking.provider ≡ some (v.provider, o))
    × Step (record asking { adders = go_on 0 1 asking.adders }) v
    × IsWithin 5 v o
updates-IsWithin_example =
    updates-IsWithin two.known (record asking { adders = go_on 0 1 asking.adders }) "other" [] [] 5
      keyed one_left other_key refl none_gone
