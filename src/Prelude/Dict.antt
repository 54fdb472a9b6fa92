-- ===== src/Prelude/Dict.antt =====
-- Go's maps with string keys, as association lists. The order of the list is the order in which
-- `range` visits the map. Nothing depends on it but what a theorem says of a list.
use Prim.Native.Nat.{suc}
use Prim.Native.String.{String}
use mathlib.Core.Path.{◌≡◌, refl}
use mathlib.Core.Logic.{inl, inr}
use mathlib.Core.Bool.{Bool, true}
use mathlib.Core.List.{List, [], ◌∷◌}
use mathlib.Core.Option.{Option, none, some}
use native.Mathlib.Omega.{arith}
use text.Mathlib.Text.{◌==◌ as str_eq}
use text.Mathlib.TextEquality.{eq_iff}
use nomad_ondemand_scaler.Prelude.Tests.{if◌then◌else◌, is_some, Option-cases}
use nomad_ondemand_scaler.Prelude.Lists.{length}

abbrev pub Dict {ℓ} : Type ℓ → Type ℓ
Dict V = List (String × V)

module _ {ℓ} {V : Type ℓ} where
  -- `v, ok := m[k]`
  unfoldable pub lookup : String → Dict V → Option V
  lookup key [] = none
  lookup key ((at, x) ∷ dict) = if str_eq at key then some x else lookup key dict

  -- `m[k] = v`
  unfoldable pub insert : String → V → Dict V → Dict V
  insert key x [] = (key, x) ∷ []
  insert key x ((at, y) ∷ dict) =
      if str_eq at key then (key, x) ∷ dict else (at, y) ∷ insert key x dict

  -- `delete(m, k)`
  unfoldable pub delete : String → Dict V → Dict V
  delete key [] = []
  delete key ((at, y) ∷ dict) =
      let rest = delete key dict in if str_eq at key then rest else (at, y) ∷ rest

  abbrev pub has : String → Dict V → Bool
  has key dict = is_some (lookup key dict)

  abbrev pub keys : Dict V → List String
  keys [] = []
  keys ((key, x) ∷ dict) = key ∷ keys dict

  abbrev pub values : Dict V → List V
  values [] = []
  values ((key, x) ∷ dict) = x ∷ values dict

  pub lookup-insert :
      (key at : String) (x : V) (dict : Dict V)
      → lookup at (insert key x dict) ≡ (if str_eq key at then some x else lookup at dict)
  unfolding lookup insert
  lookup-insert key at x [] = refl
  lookup-insert key at x ((it, y) ∷ dict) =
      ground (arith, eq_iff it key, eq_iff it at, eq_iff key at, lookup-insert key at x dict)

  pub lookup-delete :
      (key at : String) (dict : Dict V)
      → lookup at (delete key dict) ≡ (if str_eq key at then none else lookup at dict)
  unfolding lookup delete
  lookup-delete key at [] = ground arith
  lookup-delete key at ((it, y) ∷ dict) =
      ground (arith, eq_iff key at, eq_iff it key, eq_iff it at, lookup-delete key at dict)

  pub found :
      (key : String) (dict : Dict V) → has key dict ≡ true → (x : V) × (lookup key dict ≡ some x)
  found key dict h = elim (Option-cases (lookup key dict)) [
    | inl e ↦ absurd (ground arith)
    | inr p ↦ p
  ]

  -- Each key stands once, as in every Go map.
  abbrev pub IsKeyed : Dict V → Type ℓ
  IsKeyed [] = Unit
  IsKeyed ((key, x) ∷ dict) = (lookup key dict ≡ none) × IsKeyed dict

  pub insert-IsKeyed :
      (key : String) (x : V) (dict : Dict V) → IsKeyed dict → IsKeyed (insert key x dict)
  unfolding lookup insert
  insert-IsKeyed key x [] h = (refl, tt)
  insert-IsKeyed key x ((at, y) ∷ dict) h = ground (
    arith,
    eq_iff at key,
    eq_iff key at,
    insert-IsKeyed key x dict h.1,
    lookup-insert key at x dict,
  )

  pub delete-IsKeyed : (key : String) (dict : Dict V) → IsKeyed dict → IsKeyed (delete key dict)
  unfolding lookup delete
  delete-IsKeyed key [] h = tt
  delete-IsKeyed key ((at, y) ∷ dict) h =
      ground (arith, eq_iff at key, delete-IsKeyed key dict h.1, lookup-delete key at dict)

  pub length-insert :
      (key : String) (x : V) (dict : Dict V)
      → length (insert key x dict) ≡ (if has key dict then length dict else suc (length dict))
  unfolding lookup insert
  length-insert key x [] = refl
  length-insert key x ((at, y) ∷ dict) = ground (arith, eq_iff at key, length-insert key x dict)

  pub delete_absent :
      (key : String) (dict : Dict V) → lookup key dict ≡ none → delete key dict ≡ dict
  unfolding lookup delete
  delete_absent key [] h = refl
  delete_absent key ((at, y) ∷ dict) h = ground (arith, delete_absent key dict)

  pub length-delete :
      (key : String) (dict : Dict V)
      → IsKeyed dict
      → length dict
        ≡ (if has key dict then suc (length (delete key dict)) else length (delete key dict))
  unfolding lookup delete
  length-delete key [] h = refl
  length-delete key ((at, y) ∷ dict) h =
      ground (arith, eq_iff at key, length-delete key dict h.1, delete_absent key dict)

module _ {ℓ κ} {V : Type ℓ} {W : Type κ} where
  -- `for k := range m { m[k] = f(k, m[k]) }`
  unfoldable pub map_values : (String → V → W) → Dict V → Dict W
  map_values f [] = []
  map_values f ((key, x) ∷ dict) = (key, f key x) ∷ map_values f dict

  abbrev pub map_option : (V → W) → Option V → Option W
  map_option f none = none
  map_option f (some x) = some (f x)

  pub lookup-map_values :
      (f : String → V → W) (key : String) (dict : Dict V)
      → lookup key (map_values f dict) ≡ map_option (f key) (lookup key dict)
  unfolding lookup map_values
  lookup-map_values f key [] = refl
  lookup-map_values f key ((at, x) ∷ dict) =
      ground (arith, eq_iff at key, lookup-map_values f key dict)

  pub map_values-IsKeyed :
      (f : String → V → W) (dict : Dict V) → IsKeyed dict → IsKeyed (map_values f dict)
  unfolding map_values
  map_values-IsKeyed f [] h = tt
  map_values-IsKeyed f ((key, x) ∷ dict) h =
      (ground (arith, h.0, lookup-map_values f key dict), map_values-IsKeyed f dict h.1)
