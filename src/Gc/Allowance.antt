-- ===== src/Gc/Allowance.antt =====
-- How many nodes of each pool gcAction.go removes in a cycle.
use nomad_ondemand_scaler.Prelude.{
  ℕ, suc, String, ◌&&◌, List, [], ◌∷◌, length, if◌then◌else◌, str_eq,
}
use nomad_ondemand_scaler.Prelude.Int.{ℤ, pos_part}
use nomad_ondemand_scaler.Prelude.Dict.{Dict}
use nomad_ondemand_scaler.Pool.{Pool}
use nomad_ondemand_scaler.Gc.{GcInfo, is_candidate, allowed_of, removed_of}

-- The candidates of the pool.
abbrev pub candidates : ℕ → String → Dict GcInfo → ℕ
candidates cicles pool [] = 0
candidates cicles pool ((id, g) ∷ rest) =
    if is_candidate cicles g && str_eq g.pool_name pool
    then suc (candidates cicles pool rest)
    else candidates cicles pool rest

-- The free nodes that a pool may still keep, and those of its nodes that are removed.
abbrev left : String → Dict ℤ → ℕ
left pool allowed = pos_part (allowed_of pool allowed)

abbrev gone : String → Dict (List String) → ℕ
gone pool removed = length (removed_of pool removed)
