-- ===== src/PoolSpec/FromNode.antt =====
-- `GetSpectFromNode` of poolnodespec.go: what a node is by the attributes of a specification. Which
-- parsed attributes of a device are texts again is a parameter, from nomad's `Attribute`.
use nomad_ondemand_scaler.Prelude.{
  String, Bool, true, false, Option, none, some, List, [], ◌∷◌, if◌then◌else◌, str_eq, ◌>>=◌,
  is_some,
}
use nomad_ondemand_scaler.Prelude.Int.{ℤ, pos}
use nomad_ondemand_scaler.Prelude.Dict.{Dict, lookup, insert, map_option}
use nomad_ondemand_scaler.Nomad.{Node, Device, ReservedResources}
use nomad_ondemand_scaler.Variant.{
  Variant, Variants, VariantMap, int_value, bool_value, string_value, slice_value, map_value,
  no_more, one_more, end, entry, get_int_value, get_string_value,
}
use nomad_ondemand_scaler.PoolSpec.{PoolNodeSpec, int_at, string_at, new_pool_node_spec}
use nomad_ondemand_scaler.PoolSpec.Text.{strip_prefix}

-- The attribute is a text, a number or a truth value.
unfoldable pub is_scalar : Variant → Bool
is_scalar (string_value s) = true
is_scalar (int_value n) = true
is_scalar (bool_value b) = true
is_scalar _ = false

abbrev pub text_if : Bool → Option String → Option Variant
text_if b t = if b then map_option string_value t else none

-- What the node says of one attribute. The links are looked for in `Meta`.
unfoldable pub label_of : Node → String → Variant → Option Variant
unfolding is_scalar
label_of node k v = elim (strip_prefix "attr." k) [
  | some rest ↦ text_if (is_scalar v) (lookup rest node.attributes)
  | none ↦ elim (strip_prefix "meta." k) [
    | some rest ↦ text_if (is_scalar v) (lookup rest node.meta)
    | none ↦ elim (strip_prefix "links." k) [
      | some rest ↦ text_if (is_some (get_string_value v)) (lookup rest node.meta)
      | none ↦ none
    ]
  ]
]

unfoldable pub put : String → Option Variant → Dict Variant → Dict Variant
put k none out = out
put k (some v) out = insert k v out

unfoldable pub spec_labels : Node → Dict Variant → Dict Variant → Dict Variant
unfolding label_of put
spec_labels node [] out = out
spec_labels node ((k, v) ∷ rest) out = spec_labels node rest (put k (label_of node k v) out)

abbrev pub reserved_value : String → ReservedResources → Option ℤ
reserved_value k r =
    if str_eq k "mem"
    then some r.mem
    else if str_eq k "cpu"
    then some r.cpu
    else if str_eq k "disk"
    then some r.disk
    else none

unfoldable pub reserved_back : VariantMap → ReservedResources → VariantMap
reserved_back end r = end
reserved_back (entry k v m) r =
    let rest = reserved_back m r in
    elim (get_int_value v) [
      | none ↦ rest
      | some n ↦ elim (reserved_value k r) [ none ↦ rest | some b ↦ entry k (int_value b) rest ]
    ]

unfoldable pub spec_reserved : Option Variant → Option ReservedResources → Option Variant
unfolding reserved_back
spec_reserved (some (map_value m)) (some r) = some (map_value (reserved_back m r))
spec_reserved _ _ = none

unfoldable pub detected : Dict Bool → Variants
detected [] = no_more
detected ((name, b) ∷ rest) =
    let more = detected rest in if b then one_more (string_value name) more else more

unfoldable pub spec_drivers : Option Variant → Dict Bool → Option Variant
unfolding detected
spec_drivers (some (slice_value vs)) drivers = some (slice_value (detected drivers))
spec_drivers _ drivers = none

abbrev pub has_entry : String → VariantMap → Bool
has_entry k end = false
has_entry k (entry j v m) = if str_eq j k then true else has_entry k m

abbrev pub entry_if : Bool → String → Variant → VariantMap → VariantMap
entry_if b k v m = if b then entry k v m else m

unfoldable pub attr_map : VariantMap → Option VariantMap
attr_map end = none
attr_map (entry k (map_value m) rest) = if str_eq k "attr" then some m else attr_map rest
attr_map (entry k v rest) = if str_eq k "attr" then none else attr_map rest

module _ (as_text : String → Option String) where
  unfoldable pub device_texts : VariantMap → Dict String → VariantMap
  device_texts end attributes = end
  device_texts (entry k v m) attributes =
      let rest = device_texts m attributes in
      elim (lookup k attributes >>= as_text) [
        | none ↦ rest
        | some t ↦ entry k (string_value t) rest
      ]

  unfoldable pub spec_device : VariantMap → Device → VariantMap
  unfolding attr_map device_texts
  spec_device m d =
      let counted = entry "count" (int_value (pos d.instances)) end in
      let attributed = elim (attr_map m) as (λ x. VariantMap) [
        | none ↦ counted
        | some attrs ↦ elim d.attributes as (λ x. VariantMap) [
          | [] ↦ counted
          | first ∷ others ↦ entry "attr" (map_value (device_texts attrs (first ∷ others))) counted
        ]
      ] in
      entry_if (has_entry "name" m) "name" (string_value d.name) (
        entry_if (has_entry "type" m) "type" (string_value d.type_name)
          (entry_if (has_entry "vendor" m) "vendor" (string_value d.vendor) attributed))

  -- The devices of the node beside those of the specification, as long as both go.
  unfoldable pub spec_device_list : Variants → List Device → Variants
  unfolding spec_device
  spec_device_list vs [] = no_more
  spec_device_list no_more (d ∷ ds) = no_more
  spec_device_list (one_more (map_value m) vs) (d ∷ ds) =
      one_more (map_value (spec_device m d)) (spec_device_list vs ds)
  spec_device_list (one_more v vs) (d ∷ ds) = spec_device_list vs ds

  unfoldable pub spec_devices : Option Variant → List Device → Option Variant
  unfolding spec_device_list
  spec_devices (some (slice_value vs)) (d ∷ ds) = some (slice_value (spec_device_list vs (d ∷ ds)))
  spec_devices _ ds = none

  -- All that is set one after another.
  unfoldable pub spec_attributes : Node → Dict Variant → Dict Variant
  unfolding spec_labels spec_reserved spec_drivers spec_devices
  spec_attributes node attributes =
      put "nodeclass"
        (map_option (λ s. string_value node.node_class) (string_at "nodeclass" attributes))
        (put "datacenter"
          (map_option (λ s. string_value node.datacenter) (string_at "datacenter" attributes))
          (put "disk" (map_option (λ n. int_value node.disk) (int_at "disk" attributes)) (
            put "mem" (map_option (λ n. int_value node.mem) (int_at "mem" attributes)) (
              put "cpu" (map_option (λ n. int_value node.cpu) (int_at "cpu" attributes)) (
                put "devices" (spec_devices (lookup "devices" attributes) node.devices) (
                  put "drivers" (spec_drivers (lookup "drivers" attributes) node.drivers) (
                    put "reserved" (spec_reserved (lookup "reserved" attributes) node.reserved)
                      (spec_labels node attributes []))))))))

  unfoldable pub get_spect_from_node :
      (ℤ → String) → (String → Dict Variant → String) → PoolNodeSpec → Node → PoolNodeSpec
  unfolding spec_attributes
  get_spect_from_node itoa hash_text n node =
      new_pool_node_spec hash_text itoa (spec_attributes node n.attributes)
