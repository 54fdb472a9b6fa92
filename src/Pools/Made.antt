-- ===== src/Pools/Made.antt =====
-- The pools that `createPools` of pool.go makes.
use nomad_ondemand_scaler.Prelude.{
  any, ℕ, ◌≡◌, String, Bool, false, Option, none, List, [], ◌∷◌, if◌then◌else◌, str_eq,
}
use nomad_ondemand_scaler.Prelude.Dict.{Dict}
use nomad_ondemand_scaler.Nomad.{Node, NomadApi}
use nomad_ondemand_scaler.Pool.{Pool}
use nomad_ondemand_scaler.Pool.Valid.{IsValid}
use nomad_ondemand_scaler.Pools.{empty_pool, fill_pool, Told}

-- Every pool is valid.
abbrev pub AllValid : Dict Pool → Type 0
AllValid [] = Unit
AllValid ((name, p) ∷ pools) = IsValid p × AllValid pools

module _ (c : NomadApi) (exists : String → Node → Bool) (closed : ℕ → Bool) where
  -- The names of the specifications differ.
  abbrev pub IsApart : List Told → Type 0
  IsApart [] = Unit
  IsApart (t ∷ rest) = (any (λ u. str_eq u.name t.name) rest ≡ false) × IsApart rest

  -- What is told for one name, as a pool of its own.
  abbrev pub alone : Told → Option Pool
  alone t = if t.created then fill_pool c exists closed t.name t.nodes empty_pool else none
