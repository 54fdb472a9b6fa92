-- ===== src/NodeProvider/Aws/Batches.antt =====
-- The batches in which nodeprovider/awsautoscalegroupv2.go removes instances, and its wait for them.
use nomad_ondemand_scaler.Prelude.{
  ℕ, zero, suc, ◌≤◌, ◌≡◌, refl, String, Bool, true, ◌||◌, Option, none, some, List, [], ◌∷◌, ◌++◌,
  length, take, drop, take-append-drop, any, any-append, All, arith,
}
use nomad_ondemand_scaler.Prelude.Dict.{Dict, has}
use nomad_ondemand_scaler.NodeProvider.Aws.{
  Provider, batch_size, batches_from, batches, await_detached,
}

abbrev pub concat : List (List String) → List String
concat [] = []
concat (b ∷ bs) = b ++ concat bs

length-drop : (n : ℕ) (ids : List String) → length (drop n ids) ≤ length ids
length-drop zero ids = omega arith
length-drop (suc n) [] = omega arith
length-drop (suc n) (id ∷ ids) = omega (arith, length-drop n ids)

length-take : (n : ℕ) (ids : List String) → length (take n ids) ≤ n
length-take zero ids = omega arith
length-take (suc n) [] = omega arith
length-take (suc n) (id ∷ ids) = omega (arith, length-take n ids)

concat-batches_from :
    (fuel : ℕ) (ids : List String) → length ids ≤ fuel → concat (batches_from fuel ids) ≡ ids
unfolding batches_from
concat-batches_from zero [] h = refl
concat-batches_from zero (id ∷ ids) h = absurd (omega arith)
concat-batches_from (suc fuel) [] h = refl
concat-batches_from (suc fuel) (id ∷ ids) h =
    rw (concat-batches_from fuel (drop batch_size (id ∷ ids)) (omega (arith, length-drop 19 ids)))
      (take-append-drop batch_size (id ∷ ids))

small_batches_from :
    (fuel : ℕ) (ids : List String) → All (λ b. length b ≤ batch_size) (batches_from fuel ids)
unfolding batches_from
small_batches_from zero ids = tt
small_batches_from (suc fuel) [] = tt
small_batches_from (suc fuel) (id ∷ ids) =
    (length-take batch_size (id ∷ ids), small_batches_from fuel (drop batch_size (id ∷ ids)))

-- The batches are the ids in order, and none has more than twenty.
pub batches_lem :
    (ids : List String)
    → (concat (batches ids) ≡ ids) × All (λ b. length b ≤ batch_size) (batches ids)
unfolding batches
batches_lem ids =
    (concat-batches_from (length ids) ids (omega arith), small_batches_from (length ids) ids)

-- The answer is an error, or it still holds an instance from beyond the first batch.
abbrev pub IsWaiting : List String → Option (ℕ × Dict Bool) → Type 0
IsWaiting ids none = Unit
IsWaiting ids (some (now, new)) = any (λ id. has id new) (drop batch_size ids) ≡ true

-- The wait after the first batch is for the ids of all batches: as long as every answer still holds an
-- instance from beyond the first batch, it does not end.
pub await_detached-none :
    (answers : List (Option (ℕ × Dict Bool))) (ids : List String) (c : Provider)
    → All (IsWaiting ids) answers
    → await_detached answers ids c ≡ none
unfolding await_detached
await_detached-none [] ids c h = refl
await_detached-none (none ∷ rest) ids c h = await_detached-none rest ids c h.1
await_detached-none (some (now, new) ∷ rest) ids c h =
    rw (there (any-append (λ id. has id new) (take batch_size ids) (drop batch_size ids)))
      (await_detached-none rest ids c h.1)
  where
    there :
        any (λ id. has id new) (take batch_size ids ++ drop batch_size ids)
          ≡ any (λ id. has id new) (take batch_size ids)
            || any (λ id. has id new) (drop batch_size ids)
        → any (λ id. has id new) ids ≡ true
    there e = ground (arith, take-append-drop batch_size ids, e, h.0)
