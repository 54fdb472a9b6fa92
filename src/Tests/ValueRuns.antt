-- ===== src/Tests/ValueRuns.antt =====
-- Values of a specification, for variantype.go, and instances of a group, for
-- nodeprovider/awsautoscalegroupv2.go.
use nomad_ondemand_scaler.Prelude.{
  ◌≡◌, refl, String, true, false, none, some, List, [], ◌∷◌, any, str_eq,
}
use nomad_ondemand_scaler.Prelude.Int.{pos}
use nomad_ondemand_scaler.Prelude.Dict.{lookup}
use nomad_ondemand_scaler.Variant.{
  Variant, Any, any_int, any_bool, any_slice, any_map, any_nil, no_item, item, no_key, key, read,
  new_variant_from_any_type, variant_to_types,
}
use nomad_ondemand_scaler.Variant.Yaml.{
  is_supported, without_bools, variant_to_types-new_variant_from_any_type,
}
use nomad_ondemand_scaler.NodeProvider.Aws.{Provider, instances_to_remove, detached, detach}
use nomad_ondemand_scaler.NodeProvider.Aws.Seen.{is_in-instances_to_remove}
use nomad_ondemand_scaler.NodeProvider.Aws.Calls.{BatchAnswers, remove_instances}
use nomad_ondemand_scaler.NodeProvider.Aws.Endless.{remove_instances-none}

abbrev spec : Any
spec =
    any_map
      (key "cpu" (any_int (pos 4)) (key "on" (any_slice (item (any_bool true) no_item)) no_key))

abbrev spec_out : Any
spec_out =
    any_map (key "cpu" (any_int (pos 4)) (key "on" (any_slice (item any_nil no_item)) no_key))

variant_to_types-new_variant_from_any_type_example :
    (v : Variant) × (new_variant_from_any_type spec ≡ read v) × (variant_to_types v ≡ spec_out)
unfolding is_supported without_bools
variant_to_types-new_variant_from_any_type_example =
    variant_to_types-new_variant_from_any_type spec refl

abbrev provider : Provider
provider = record { state = ("i-1", true) ∷ ("i-2", false) ∷ []; last_updatetime = 3 }

is_in-instances_to_remove_example :
    any (λ k. str_eq k "i-1") (instances_to_remove [] provider.state) ≡ true
unfolding lookup
is_in-instances_to_remove_example =
    is_in-instances_to_remove "i-1" [] provider.state (refl, (refl, tt))

abbrev ids : List String
ids =
    "i-02" ∷ "i-03" ∷ "i-04" ∷ "i-05" ∷ "i-06" ∷ "i-07" ∷ "i-08" ∷ "i-09" ∷ "i-10" ∷ "i-11" ∷ "i-12"
    ∷ "i-13" ∷ "i-14" ∷ "i-15" ∷ "i-16" ∷ "i-17" ∷ "i-18" ∷ "i-19" ∷ "i-20" ∷ "i-21" ∷ []

abbrev rest_of_first : List String
rest_of_first =
    "i-02" ∷ "i-03" ∷ "i-04" ∷ "i-05" ∷ "i-06" ∷ "i-07" ∷ "i-08" ∷ "i-09" ∷ "i-10" ∷ "i-11" ∷ "i-12"
    ∷ "i-13" ∷ "i-14" ∷ "i-15" ∷ "i-16" ∷ "i-17" ∷ "i-18" ∷ "i-19" ∷ "i-20" ∷ []

-- The first batch is detached, and the instance of the second is in the group still.
abbrev first_answers : BatchAnswers
first_answers = record {
  detaching = detached ∷ [];
  described = some (5, ("i-21", true) ∷ []) ∷ none ∷ some (9, ("i-21", true) ∷ []) ∷ [];
  terminating = true ∷ [];
  instances = some [] ∷ [];
}

remove_instances-none_example :
    remove_instances ("i-01" ∷ ids) (first_answers ∷ first_answers ∷ []) provider ≡ none
unfolding detach lookup
remove_instances-none_example =
    remove_instances-none "i-01" ids first_answers (first_answers ∷ []) provider "i-01"
      rest_of_first refl (refl, (tt, (refl, tt)))
