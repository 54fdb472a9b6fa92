-- ===== src/PoolSpec/Parse.antt =====
-- parsePoolSpecDefinition.go, after the YAML has been read: sizes that are texts become numbers, and a
-- device without a number is one device. How humanize reads a text as bytes is a parameter. `none` is an
-- error. The maps are changed in place, inside the attribute.
use nomad_ondemand_scaler.Prelude.{
  ℕ, ◌/◌, String, Option, none, some, List, [], ◌∷◌, if◌then◌else◌, str_eq, ◌>>=◌,
}
use nomad_ondemand_scaler.Prelude.Int.{ℤ, pos}
use nomad_ondemand_scaler.Prelude.Dict.{Dict, lookup, insert}
use nomad_ondemand_scaler.Variant.{
  Variant, Variants, VariantMap, int_value, string_value, slice_value, map_value, no_more, one_more,
  end, entry,
}
use nomad_ondemand_scaler.PoolSpec.{PoolNodeSpec, string_at, new_pool_node_spec}
use nomad_ondemand_scaler.PoolSpec.FromNode.{has_entry}

-- `int(bytesValue / 1024 / 1024)`
abbrev pub megabytes : ℕ → Variant
megabytes n = int_value (pos (n / 1024 / 1024))

module _ (parse_bytes : String → Option ℕ) where
  unfoldable pub convert_text : String → Option String → Dict Variant → Option (Dict Variant)
  convert_text k none attributes = some attributes
  convert_text k (some s) attributes =
      parse_bytes s >>= λ n. some (insert k (megabytes n) attributes)

  unfoldable pub convert_at : String → Dict Variant → Option (Dict Variant)
  unfolding convert_text
  convert_at k attributes = convert_text k (string_at k attributes) attributes

  unfoldable pub convert_value : Variant → Option Variant
  convert_value (string_value s) = parse_bytes s >>= λ n. some (megabytes n)
  convert_value v = some v

  unfoldable pub convert_entry : String → VariantMap → Option VariantMap
  unfolding convert_value
  convert_entry k end = some end
  convert_entry k (entry j v m) =
      let rest : Option VariantMap = convert_entry k m in
      if str_eq j k
      then (convert_value v >>= λ w. some (entry j w m))
      else (rest >>= λ m'. some (entry j v m'))

  unfoldable pub convert_reserved : Option Variant → Dict Variant → Option (Dict Variant)
  unfolding convert_entry
  convert_reserved (some (map_value m)) attributes =
      convert_entry "mem" m >>= convert_entry "disk" >>= λ m'.
      some (insert "reserved" (map_value m') attributes)
  convert_reserved _ attributes = some attributes

unfoldable pub count_device : Variant → Variant
count_device (map_value m) =
    map_value (if has_entry "count" m then m else entry "count" (int_value (pos 1)) m)
count_device v = v

unfoldable pub count_devices : Variants → Variants
unfolding count_device
count_devices no_more = no_more
count_devices (one_more v vs) = one_more (count_device v) (count_devices vs)

unfoldable pub convert_devices : Option Variant → Dict Variant → Dict Variant
unfolding count_devices
convert_devices (some (slice_value vs)) attributes =
    insert "devices" (slice_value (count_devices vs)) attributes
convert_devices _ attributes = attributes

module _ (parse_bytes : String → Option ℕ) where
  unfoldable pub convert_parts : Dict Variant → Option (Dict Variant)
  unfolding convert_reserved convert_devices
  convert_parts attributes =
      convert_reserved parse_bytes (lookup "reserved" attributes) attributes >>= λ a.
      some (convert_devices (lookup "devices" a) a)

  unfoldable pub convert : Dict Variant → Option (Dict Variant)
  unfolding convert_at convert_parts
  convert attributes =
      convert_at parse_bytes "mem" attributes >>= convert_at parse_bytes "disk" >>= convert_parts

  unfoldable pub parse_pool_difinition :
      (String → Dict Variant → String)
      → (ℤ → String)
      → List (Dict Variant)
      → Option (List PoolNodeSpec)
  unfolding convert
  parse_pool_difinition hash_text itoa [] = some []
  parse_pool_difinition hash_text itoa (pool_data ∷ rest) = convert pool_data >>= λ attributes.
      parse_pool_difinition hash_text itoa rest >>= λ pools.
      some (new_pool_node_spec hash_text itoa attributes ∷ pools)
