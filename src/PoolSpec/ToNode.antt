-- ===== src/PoolSpec/ToNode.antt =====
-- `GetNode` of poolnodespec.go: the node that a pool of the specification would add. What nomad's
-- `Canonicalize` makes of it is a parameter. Of a device's instances only their number is kept, and the
-- fixed network is left out, which only nomad's scheduler reads.
use nomad_ondemand_scaler.Prelude.{
  ◌+◌, String, Bool, true, Option, none, some, List, [], ◌∷◌, ◌++◌, if◌then◌else◌, str_eq,
  get_or_else,
}
use nomad_ondemand_scaler.Prelude.Int.{ℤ, pos, pos_part}
use nomad_ondemand_scaler.Prelude.Dict.{Dict, lookup, insert}
use nomad_ondemand_scaler.Nomad.{Node, Device, ReservedResources}
use nomad_ondemand_scaler.Variant.{
  Variant, Variants, VariantMap, int_value, bool_value, string_value, map_value, no_more, one_more,
  end, entry, get_int_value, get_string_value, get_slice_value,
}
use nomad_ondemand_scaler.PoolSpec.{PoolNodeSpec, int_at, string_at}
use nomad_ondemand_scaler.PoolSpec.Text.{strip_prefix}

abbrev pub none_reserved : ReservedResources
none_reserved = record { cpu = pos 0; mem = pos 0; disk = pos 0 }

unfoldable pub reserve_entry : String → Option ℤ → ReservedResources → ReservedResources
reserve_entry k none r = r
reserve_entry k (some n) r =
    if str_eq k "mem"
    then record r { mem = n }
    else if str_eq k "cpu"
    then record r { cpu = n }
    else if str_eq k "disk"
    then record r { disk = n }
    else r

unfoldable pub set_reserved : VariantMap → ReservedResources → ReservedResources
unfolding reserve_entry
set_reserved end r = r
set_reserved (entry k v m) r = set_reserved m (reserve_entry k (get_int_value v) r)

unfoldable pub reserved_of : Option Variant → Option ReservedResources
unfolding set_reserved
reserved_of (some (map_value m)) = some (set_reserved m none_reserved)
reserved_of _ = none

-- The texts of attributes that begin with "attr.", "meta." and "links.".
pub record Labels : Type 0 where
  pub attributes : Dict String
  pub meta : Dict String
  pub links : Dict String

abbrev pub no_labels : Labels
no_labels = record { attributes = []; meta = []; links = [] }

unfoldable pub put_text : String → Option String → Dict String → Dict String
put_text k none m = m
put_text k (some t) m = insert k t m

module _ (itoa : ℤ → String) where
  unfoldable pub label_text : Variant → Option String
  label_text (string_value s) = some s
  label_text (int_value n) = some (itoa n)
  label_text (bool_value b) = some (if b then "true" else "false")
  label_text _ = none

  unfoldable pub set_label : String → Variant → Labels → Labels
  unfolding label_text put_text
  set_label k v l = elim (strip_prefix "attr." k) [
    | some rest ↦ record l { attributes = put_text rest (label_text v) l.attributes }
    | none ↦ elim (strip_prefix "meta." k) [
      | some rest ↦ record l { meta = put_text rest (get_string_value v) l.meta }
      | none ↦ elim (strip_prefix "links." k) [
        | some rest ↦ record l { links = put_text rest (get_string_value v) l.links }
        | none ↦ l
      ]
    ]
  ]

  unfoldable pub set_labels : Dict Variant → Labels → Labels
  unfolding set_label
  set_labels [] l = l
  set_labels ((k, v) ∷ rest) l = set_labels rest (set_label k v l)

unfoldable pub set_drivers : Variants → Dict Bool → Dict Bool
set_drivers no_more drivers = drivers
set_drivers (one_more v vs) drivers =
    set_drivers vs
      (elim (get_string_value v) [ none ↦ drivers | some name ↦ insert name true drivers ])

-- The attributes of a device that are texts.
unfoldable pub device_attributes : VariantMap → Dict String
device_attributes end = []
device_attributes (entry k v m) =
    let rest = device_attributes m in
    elim (get_string_value v) [ none ↦ rest | some t ↦ (k, t) ∷ rest ]

unfoldable pub set_device_field : String → Variant → Device → Device
unfolding device_attributes
set_device_field k (string_value s) d =
    if str_eq k "name"
    then record d { name = s }
    else if str_eq k "type"
    then record d { type_name = s }
    else if str_eq k "vendor"
    then record d { vendor = s }
    else d
set_device_field k (int_value n) d =
    if str_eq k "count" then record d { instances = d.instances + pos_part n } else d
set_device_field k (map_value m) d =
    if str_eq k "attr" then record d { attributes = device_attributes m } else d
set_device_field k _ d = d

unfoldable pub set_device : VariantMap → Device → Device
unfolding set_device_field
set_device end d = d
set_device (entry k v m) d = set_device m (set_device_field k v d)

abbrev pub no_device : Device
no_device = record { name = ""; type_name = ""; vendor = ""; instances = 0; attributes = [] }

unfoldable pub set_devices : Variants → List Device → List Device
unfolding set_device
set_devices no_more devices = devices
set_devices (one_more (map_value m) vs) devices =
    set_devices vs (devices ++ set_device m no_device ∷ [])
set_devices (one_more v vs) devices = set_devices vs devices

abbrev pub slice_at : String → Dict Variant → Variants
slice_at k attributes = elim (lookup k attributes) [ none ↦ no_more | some v ↦ get_slice_value v ]

module _ (itoa : ℤ → String) where
  -- The node before it is canonical.
  unfoldable pub raw_node : String → PoolNodeSpec → Node
  unfolding reserved_of set_labels set_drivers set_devices
  raw_node uid n =
      let l = set_labels itoa n.attributes no_labels in
      record {
        id = uid;
        status = "ready";
        datacenter = get_or_else (string_at "datacenter" n.attributes) "";
        node_class = get_or_else (string_at "nodeclass" n.attributes) "";
        attributes = l.attributes;
        meta = l.meta;
        links = l.links;
        drivers = set_drivers (slice_at "drivers" n.attributes) [];
        cpu = get_or_else (int_at "cpu" n.attributes) (pos 0);
        mem = get_or_else (int_at "mem" n.attributes) (pos 0);
        disk = get_or_else (int_at "disk" n.attributes) (pos 102400);
        reserved = reserved_of (lookup "reserved" n.attributes);
        devices = set_devices (slice_at "devices" n.attributes) [];
        events = [];
      }

  unfoldable pub get_node : (Node → Node) → String → PoolNodeSpec → Node
  unfolding raw_node
  get_node canonicalize uid n = canonicalize (raw_node uid n)
