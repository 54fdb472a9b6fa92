-- ===== src/Pools/Creating.antt =====
-- `NewPool` of pool.go: which provider a pool gets. The constructors of the providers are parameters,
-- where `none` is an error.
use nomad_ondemand_scaler.Prelude.{String, Option, none, some, if◌then◌else◌, str_eq}
use nomad_ondemand_scaler.Prelude.Dict.{lookup}
use nomad_ondemand_scaler.Variant.{
  Variant, VariantMap, end, entry, Any, variant_to_types, get_string_value, get_map_value,
}
use nomad_ondemand_scaler.PoolSpec.{PoolNodeSpec, Resources, get_resources}

-- An error, a panic, or a pool, with its provider if it has one.
pub data Created (P : Type 0) : Type 0 where
  failed : Created P
  panicked : Created P
  created : Option P → Created P

unfoldable pub find_entry : String → VariantMap → Option Variant
find_entry k end = none
find_entry k (entry j v m) = if str_eq j k then some v else find_entry k m

module _ {P : Type 0} where
  -- With the parameters, which must be there.
  unfoldable pub create_with : (Any → Option P) → Option Variant → Created P
  create_with create none = failed
  create_with create (some params) = elim (create (variant_to_types params)) [
    | none ↦ failed
    | some p ↦ created (some p)
  ]

  module _ (aws : Any → Option P) (any_node : P) (karpenter : Resources → Any → Option P) where
    unfoldable pub create_provider : PoolNodeSpec → VariantMap → Option String → Created P
    unfolding create_with find_entry
    create_provider n info none = panicked
    create_provider n info (some name) =
        if str_eq name "awsautoscale"
        then create_with aws (find_entry "params" info)
        else if str_eq name "anynode"
        then created (some any_node)
        else if str_eq name "karpenter"
        then create_with (karpenter (get_resources n)) (find_entry "params" info)
        else created none

    unfoldable pub named_provider : PoolNodeSpec → VariantMap → Option Variant → Created P
    unfolding create_provider
    named_provider n info none = failed
    named_provider n info (some name) = create_provider n info (get_string_value name)

    -- A provider that is no map has no name either.
    unfoldable pub new_pool : PoolNodeSpec → Created P
    unfolding named_provider find_entry
    new_pool n = elim (lookup "provider" n.attributes) [
      | none ↦ failed
      | some provider ↦
          named_provider n (get_map_value provider) (find_entry "name" (get_map_value provider))
    ]
