-- ===== src/NodeProvider/Aws/Endless.antt =====
-- More than one batch in nodeprovider/awsautoscalegroupv2.go.
use nomad_ondemand_scaler.Prelude.{◌≡◌, String, none, some, List, ◌∷◌, All, length, take, drop}
use nomad_ondemand_scaler.NodeProvider.Aws.{
  Provider, batch_size, batches, batches_from, detach, await_detached,
}
use nomad_ondemand_scaler.NodeProvider.Aws.Batches.{IsWaiting, await_detached-none}
use nomad_ondemand_scaler.NodeProvider.Aws.Calls.{
  BatchAnswers, remove_batch, remove_batches, remove_instances,
}

remove_batch-none :
    (ids batch : List String) (a : BatchAnswers) (c : Provider) (k : String) (left : List String)
    → detach a.detaching batch ≡ some (k ∷ left)
    → await_detached a.described ids c ≡ none
    → remove_batch ids batch a c ≡ none
unfolding remove_batch
remove_batch-none ids batch a c k left h w = rw (h, remove_batch) (rw (w, remove_batch))

remove_batches-none :
    (ids batch : List String) (rest : List (List String)) (a : BatchAnswers)
    (answers : List BatchAnswers) (c : Provider)
    → remove_batch ids batch a c ≡ none
    → remove_batches ids (batch ∷ rest) (a ∷ answers) c ≡ none
unfolding remove_batches
remove_batches-none ids batch rest a answers c h = rw (h, remove_batches)

-- If something is left of the first batch when it is detached, and every answer after that still holds
-- an instance from beyond the first batch, the removal never ends, whatever comes later.
pub remove_instances-none :
    (id : String) (ids : List String) (a : BatchAnswers) (answers : List BatchAnswers)
    (c : Provider) (k : String) (left : List String)
    → detach a.detaching (take batch_size (id ∷ ids)) ≡ some (k ∷ left)
    → All (IsWaiting (id ∷ ids)) a.described
    → remove_instances (id ∷ ids) (a ∷ answers) c ≡ none
unfolding remove_instances batches batches_from
remove_instances-none id ids a answers c k left h w =
    remove_batches-none (id ∷ ids) (take batch_size (id ∷ ids))
      (batches_from (length ids) (drop batch_size (id ∷ ids))) a answers c
      (remove_batch-none (id ∷ ids) (take batch_size (id ∷ ids)) a c k left h
        (await_detached-none a.described (id ∷ ids) c w))
