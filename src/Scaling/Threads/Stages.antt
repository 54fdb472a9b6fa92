-- ===== src/Scaling/Threads/Stages.antt =====
-- The goroutines of scalingAction.go that have an event, when one of them goes on.
use nomad_ondemand_scaler.Prelude.{
  ℕ, zero, suc, ◌≡◌, refl, ap, String, some, List, [], ◌∷◌, length, get_elem?, erase_idx, arith,
}
use nomad_ondemand_scaler.Scaling.Threads.{Stage, Busy, dequeued, updating, ids_of, set_stage}

-- Those that are still counted free.
abbrev pub fresh : List Busy → ℕ
fresh [] = 0
fresh (b ∷ busy) = elim b.stage [ dequeued ↦ suc (fresh busy) | updating _ ↦ fresh busy ]

pub ids_of-set_stage :
    (i : ℕ) (stage : Stage) (busy : List Busy) → ids_of (set_stage i stage busy) ≡ ids_of busy
unfolding set_stage
ids_of-set_stage i stage [] = refl
ids_of-set_stage zero stage (b ∷ busy) = refl
ids_of-set_stage (suc i) stage (b ∷ busy) = ap (λ ids. b.id ∷ ids) (ids_of-set_stage i stage busy)

pub length-set_stage :
    (i : ℕ) (stage : Stage) (busy : List Busy) → length (set_stage i stage busy) ≡ length busy
unfolding set_stage
length-set_stage i stage [] = refl
length-set_stage zero stage (b ∷ busy) = refl
length-set_stage (suc i) stage (b ∷ busy) = ap suc (length-set_stage i stage busy)

pub ids_of-erase_idx :
    (i : ℕ) (busy : List Busy) → ids_of (erase_idx busy i) ≡ erase_idx (ids_of busy) i
ids_of-erase_idx i [] = refl
ids_of-erase_idx zero (b ∷ busy) = refl
ids_of-erase_idx (suc i) (b ∷ busy) = ap (λ ids. b.id ∷ ids) (ids_of-erase_idx i busy)

pub get_elem?-ids_of :
    (i : ℕ) (busy : List Busy) (b : Busy)
    → get_elem? busy i ≡ some b
    → get_elem? (ids_of busy) i ≡ some b.id
get_elem?-ids_of i [] b h = cc
get_elem?-ids_of zero (c ∷ busy) b h = cc
get_elem?-ids_of (suc i) (c ∷ busy) b h = get_elem?-ids_of i busy b h

pub fresh-plans :
    (i : ℕ) (id : String) (pools : List String) (busy : List Busy)
    → get_elem? busy i ≡ some (record { id = id; stage = dequeued })
    → fresh busy ≡ suc (fresh (set_stage i (updating pools) busy))
unfolding set_stage
fresh-plans i id pools [] h = cc
fresh-plans zero id pools (b ∷ busy) h = ground arith
fresh-plans (suc i) id pools (b ∷ busy) h = ground (arith, fresh-plans i id pools busy h)

pub fresh-updates :
    (i : ℕ) (id : String) (pools rest : List String) (busy : List Busy)
    → get_elem? busy i ≡ some (record { id = id; stage = updating pools })
    → fresh (set_stage i (updating rest) busy) ≡ fresh busy
unfolding set_stage
fresh-updates i id pools rest [] h = cc
fresh-updates zero id pools rest (b ∷ busy) h = ground arith
fresh-updates (suc i) id pools rest (b ∷ busy) h =
    ground (arith, fresh-updates i id pools rest busy h)

pub fresh-reports :
    (i : ℕ) (id : String) (busy : List Busy)
    → get_elem? busy i ≡ some (record { id = id; stage = updating [] })
    → (fresh (erase_idx busy i) ≡ fresh busy) × (suc (length (erase_idx busy i)) ≡ length busy)
fresh-reports i id [] h = absurd (cc h)
fresh-reports zero id (b ∷ busy) h = ground arith
fresh-reports (suc i) id (b ∷ busy) h = ground (arith, fresh-reports i id busy h)
