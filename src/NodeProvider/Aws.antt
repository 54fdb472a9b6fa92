-- ===== src/NodeProvider/Aws.antt =====
-- nodeprovider/awsautoscalegroupv2.go: the autoscaling group behind a pool. What AWS answers, call by
-- call, is an argument; a function that is not done when the answers are used up gives `none`. Times
-- are numbers. Which messages match the expression for a registration is a parameter.
pub mod Seen
pub mod Batches
pub mod Calls
pub mod Endless
pub mod Creating
use nomad_ondemand_scaler.Prelude.{
  ℕ, zero, suc, String, Bool, true, false, not, ◌&&◌, Option, none, some, List, [], ◌∷◌, ◌++◌,
  length, take, drop, any, filterb, ltb, ◌==◌, if◌then◌else◌, str_eq, get_or_else,
}
use nomad_ondemand_scaler.Prelude.Dict.{Dict, lookup, insert, delete, has, keys, map_values}
use nomad_ondemand_scaler.Nomad.{Node, NodeEvent}

-- `state` has, for each instance, whether the pool has seen it.
pub record Provider : Type 0 where
  pub state : Dict Bool
  pub last_updatetime : ℕ

pub record Instance : Type 0 where
  pub instance_id : String
  pub health_status : String

-- An answer to DescribeAutoScalingGroups: an error, no group, or a page, with the desired capacity on
-- the last one.
pub data Described : Type 0 where
  failed : Described
  no_group : Described
  page : List Instance → Described
  last_page : List Instance → ℕ → Described

pub data Updated : Type 0 where
  update_failed : Updated
  updated : ℕ → Updated

unfoldable pub read_instances : List Instance → Dict Bool → Dict Bool
read_instances [] state = state
read_instances (i ∷ rest) state = read_instances rest (
    if str_eq i.health_status "Unhealthy"
    then delete i.instance_id state
    else insert i.instance_id false state)

unfoldable pub update_state_from_aws : List Described → Dict Bool → Option (Dict Bool × Updated)
unfolding read_instances
update_state_from_aws [] state = none
update_state_from_aws (failed ∷ rest) state = some (state, update_failed)
update_state_from_aws (no_group ∷ rest) state = some (state, update_failed)
update_state_from_aws (page instances ∷ rest) state =
    update_state_from_aws rest (read_instances instances state)
update_state_from_aws (last_page instances desired ∷ rest) state =
    some (read_instances instances state, updated desired)

-- The attempts go on from one map until one succeeds.
unfoldable pub update_until_done : List (List Described) → Dict Bool → Option (Dict Bool)
unfolding update_state_from_aws
update_until_done [] state = none
update_until_done (answers ∷ rest) state = elim (update_state_from_aws answers state) [
  | none ↦ none
  | some (state', updated desired) ↦ some state'
  | some (state', update_failed) ↦ update_until_done rest state'
]

-- What was seen stays seen.
unfoldable pub keep_seen : Dict Bool → Dict Bool → Dict Bool
keep_seen old new = map_values (λ id seen. get_or_else (lookup id old) seen) new

abbrev pub instance_of : Node → String
instance_of n = get_or_else (lookup "unique.platform.aws.instance-id" n.attributes) ""

-- The last event of a registration, or the first event. `none` is the panic on no events.
unfoldable pub last_matching :
    (String → Bool) → List NodeEvent → Option NodeEvent → Option NodeEvent
last_matching registered [] found = found
last_matching registered (e ∷ rest) found =
    last_matching registered rest (if registered e.message then some e else found)

unfoldable pub get_last_register_event : (String → Bool) → List NodeEvent → Option NodeEvent
unfolding last_matching
get_last_register_event registered [] = none
get_last_register_event registered (e ∷ rest) =
    some (get_or_else (last_matching registered (e ∷ rest) none) e)

-- The instance is marked as seen, if it is there.
unfoldable pub mark_seen : String → Provider → Provider × Bool
mark_seen id c =
    if has id c.state then (record c { state = insert id true c.state }, true) else (c, false)

unfoldable pub refresh : ℕ → Dict Bool → Provider → Provider
unfolding keep_seen
refresh now new c = record { state = keep_seen c.state new; last_updatetime = now }

unfoldable pub is_node_exists :
    (String → Bool) → ℕ → List (List Described) → Node → Provider → Option (Provider × Bool)
unfolding get_last_register_event update_until_done refresh mark_seen
is_node_exists registered now answers n c = elim (get_last_register_event registered n.events) [
  | none ↦ none
  | some e ↦
      let fresh : Option (Provider × Bool) = elim (update_until_done answers []) [
        | none ↦ none
        | some new ↦ some (mark_seen (instance_of n) (refresh now new c))
      ] in
      if ltb c.last_updatetime e.timestamp then fresh else some (mark_seen (instance_of n) c)
]

-- The instances that the pool has seen and does not name any more.
unfoldable pub instances_to_remove : List Node → Dict Bool → List String
instances_to_remove nodes [] = []
instances_to_remove nodes ((id, seen) ∷ rest) =
    let more = instances_to_remove nodes rest in
    if seen && not (any (λ n. str_eq (instance_of n) id) nodes) then id ∷ more else more

abbrev pub batch_size : ℕ
batch_size = 20

-- The batches of `_removeNode`. `fuel` at the number of ids is enough.
unfoldable pub batches_from : ℕ → List String → List (List String)
batches_from zero ids = []
batches_from (suc fuel) [] = []
batches_from (suc fuel) (id ∷ rest) =
    take batch_size (id ∷ rest) ∷ batches_from fuel (drop batch_size (id ∷ rest))

unfoldable pub batches : List String → List (List String)
unfolding batches_from
batches ids = batches_from (length ids) ids

-- An answer to DetachInstances: done, an error that names instances of no group, or another error.
pub data Detached : Type 0 where
  detached : Detached
  not_part : List String → Detached
  refused : Detached

abbrev pub remove_slice_elements : List String → List String → List String
remove_slice_elements slice elements = filterb (λ i. not (any (λ e. str_eq e i) elements)) slice

-- What is left of the batch when it is detached.
unfoldable pub detach : List Detached → List String → Option (List String)
detach [] batch = none
detach (detached ∷ rest) batch = some batch
detach (refused ∷ rest) [] = some []
detach (refused ∷ rest) (id ∷ batch) = detach rest (id ∷ batch)
detach (not_part missing ∷ rest) batch =
    let left = remove_slice_elements batch missing in
    let later = detach rest left in if length left == 0 then some [] else later

-- The wait for the detachment: each answer is what a new map holds, or an error. It is over when
-- none of the ids of the whole call is in the group.
unfoldable pub await_detached :
    List (Option (ℕ × Dict Bool)) → List String → Provider → Option Provider
unfolding refresh
await_detached [] ids c = none
await_detached (none ∷ rest) ids c = await_detached rest ids c
await_detached (some (now, new) ∷ rest) ids c =
    let later = await_detached rest ids c in
    if any (λ id. has id new) ids then later else some (refresh now new c)
