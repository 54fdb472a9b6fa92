-- ===== src/NodeProvider/Aws/Calls.antt =====
-- `_removeNode`, `RemoveNode` and `UpdateNode` of nodeprovider/awsautoscalegroupv2.go. For each batch
-- the answers of AWS are a record. `none` means that the call is still busy when they are used up.
use nomad_ondemand_scaler.Prelude.{
  ℕ, String, Bool, true, false, Option, none, some, List, [], ◌∷◌, length, map, all, ◌==◌,
  if◌then◌else◌, str_eq,
}
use nomad_ondemand_scaler.Prelude.Dict.{Dict}
use nomad_ondemand_scaler.Nomad.{Node}
use nomad_ondemand_scaler.NodeProvider.Aws.{
  Provider, Detached, batches, detach, await_detached, instance_of, instances_to_remove,
}

-- The states in an answer to DescribeInstances, one list for each reservation.
abbrev pub Reservations : Type 0
Reservations = List (List String)

pub record BatchAnswers : Type 0 where
  pub detaching : List Detached
  pub described : List (Option (ℕ × Dict Bool))
  pub terminating : List Bool
  pub instances : List (Option Reservations)

-- TerminateInstances is called until it succeeds.
unfoldable pub succeeds : List Bool → Bool
succeeds [] = false
succeeds (true ∷ rest) = true
succeeds (false ∷ rest) = succeeds rest

abbrev pub all_terminated : Reservations → Bool
all_terminated = all (all (λ state. str_eq state "terminated"))

unfoldable pub await_terminated : List (Option Reservations) → Bool
await_terminated [] = false
await_terminated (none ∷ rest) = await_terminated rest
await_terminated (some reservations ∷ rest) =
    let later = await_terminated rest in if all_terminated reservations then true else later

unfoldable pub finish_batch : BatchAnswers → Provider → Option Provider
unfolding succeeds await_terminated
finish_batch answers c =
    if succeeds answers.terminating
    then (if await_terminated answers.instances then some c else none)
    else none

-- `ids` are those of the whole call. A batch of which nothing is left is skipped.
unfoldable pub remove_batch : List String → List String → BatchAnswers → Provider → Option Provider
unfolding finish_batch
remove_batch ids batch answers c = elim (detach answers.detaching batch) [
  | none ↦ none
  | some [] ↦ some c
  | some (id ∷ rest) ↦ elim (await_detached answers.described ids c) [
    | none ↦ none
    | some c' ↦ finish_batch answers c'
  ]
]

unfoldable pub remove_batches :
    List String → List (List String) → List BatchAnswers → Provider → Option Provider
unfolding remove_batch
remove_batches ids [] answers c = some c
remove_batches ids (batch ∷ rest) [] c = none
remove_batches ids (batch ∷ rest) (a ∷ answers) c = elim (remove_batch ids batch a c) [
  | none ↦ none
  | some c' ↦ remove_batches ids rest answers c'
]

unfoldable pub remove_instances : List String → List BatchAnswers → Provider → Option Provider
unfolding remove_batches
remove_instances ids answers c = remove_batches ids (batches ids) answers c

unfoldable pub remove_node : List Node → List BatchAnswers → Provider → Option Provider
unfolding remove_instances
remove_node nodes answers c = remove_instances (map instance_of nodes) answers c

-- An answer to UpdateAutoScalingGroup: done, an error, or an error after the context has ended.
pub data Sized : Type 0 where
  sized : Sized
  not_sized : Sized
  context_ended : Sized

-- Whether the size was set in the end.
unfoldable pub set_size : List Sized → Option Bool
set_size [] = none
set_size (sized ∷ rest) = some true
set_size (not_sized ∷ rest) = set_size rest
set_size (context_ended ∷ rest) = some false

unfoldable pub update_node :
    List Node → List BatchAnswers → List Sized → Provider → Option (Provider × Bool)
unfolding set_size
update_node nodes answers sizes c =
    elim (if length (instances_to_remove nodes c.state) == 0
      then some c
      else remove_instances (instances_to_remove nodes c.state) answers c) [
        | none ↦ none
        | some c' ↦ elim (set_size sizes) [ none ↦ none | some done ↦ some (c', done) ]
      ]
