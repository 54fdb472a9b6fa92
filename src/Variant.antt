-- ===== src/Variant.antt =====
-- variantype.go: the values of a pool's specification, and `variantToTypes` of util.go. `Any` is what
-- a Go interface holds when YAML was read into it. A map's keys are distinct, so setting each in a new
-- map adds an entry. The sum of the fnv hash over what is written to it is a parameter.
pub mod Yaml
use nomad_ondemand_scaler.Prelude.{
  ℕ, String, Bool, Option, none, some, List, [], ◌∷◌, if◌then◌else◌,
}
use nomad_ondemand_scaler.Prelude.Int.{ℤ}

mutual
  pub data Variant : Type 0 where
    int_value : ℤ → Variant
    bool_value : Bool → Variant
    string_value : String → Variant
    slice_value : Variants → Variant
    map_value : VariantMap → Variant

  pub data Variants : Type 0 where
    no_more : Variants
    one_more : Variant → Variants → Variants

  pub data VariantMap : Type 0 where
    end : VariantMap
    entry : String → Variant → VariantMap → VariantMap

pub data VariantType : Type 0 where
  variant_type_int variant_type_bool variant_type_string variant_type_slice variant_type_map :
      VariantType

unfoldable pub get_type : Variant → VariantType
get_type (int_value n) = variant_type_int
get_type (bool_value b) = variant_type_bool
get_type (string_value s) = variant_type_string
get_type (slice_value vs) = variant_type_slice
get_type (map_value m) = variant_type_map

-- `none` is the nil pointer. A nil slice and a nil map read as empty ones.
unfoldable pub get_int_value : Variant → Option ℤ
get_int_value (int_value n) = some n
get_int_value _ = none

unfoldable pub get_bool_value : Variant → Option Bool
get_bool_value (bool_value b) = some b
get_bool_value _ = none

unfoldable pub get_string_value : Variant → Option String
get_string_value (string_value s) = some s
get_string_value _ = none

unfoldable pub get_slice_value : Variant → Variants
get_slice_value (slice_value vs) = vs
get_slice_value _ = no_more

unfoldable pub get_map_value : Variant → VariantMap
get_map_value (map_value m) = m
get_map_value _ = end

mutual
  pub data Any : Type 0 where
    any_nil : Any
    any_int : ℤ → Any
    any_bool : Bool → Any
    any_string : String → Any
    any_slice : Anys → Any
    any_map : AnyMap → Any
    any_other : Any

  pub data Anys : Type 0 where
    no_item : Anys
    item : Any → Anys → Anys

  pub data AnyMap : Type 0 where
    no_key : AnyMap
    key : String → Any → AnyMap → AnyMap
    other_key : Any → AnyMap → AnyMap

-- A value, an error, or the panic of asking nil for its kind.
pub data Reading (A : Type 0) : Type 0 where
  read : A → Reading A
  refused : String → Reading A
  panicked : Reading A

unfoldable mutual
  pub new_variant_from_any_type : Any → Reading Variant
  new_variant_from_any_type any_nil = panicked
  new_variant_from_any_type (any_int n) = read (int_value n)
  new_variant_from_any_type (any_bool b) = read (bool_value b)
  new_variant_from_any_type (any_string s) = read (string_value s)
  new_variant_from_any_type (any_slice xs) = elim (read_slice xs) [
    | read vs ↦ read (slice_value vs)
    | refused message ↦ refused message
    | panicked ↦ panicked
  ]
  new_variant_from_any_type (any_map m) = elim (read_map m) [
    | read vm ↦ read (map_value vm)
    | refused message ↦ refused message
    | panicked ↦ panicked
  ]
  new_variant_from_any_type any_other = refused "unsupported type for unmarshal"

  pub read_slice : Anys → Reading Variants
  read_slice no_item = read no_more
  read_slice (item x xs) = elim (new_variant_from_any_type x) [
    | read v ↦ elim (read_slice xs) [
      | read vs ↦ read (one_more v vs)
      | refused message ↦ refused message
      | panicked ↦ panicked
    ]
    | refused message ↦ refused message
    | panicked ↦ panicked
  ]

  pub read_map : AnyMap → Reading VariantMap
  read_map no_key = read end
  read_map (key k x m) = elim (new_variant_from_any_type x) [
    | read v ↦ elim (read_map m) [
      | read vm ↦ read (entry k v vm)
      | refused message ↦ refused message
      | panicked ↦ panicked
    ]
    | refused message ↦ refused message
    | panicked ↦ panicked
  ]
  read_map (other_key x m) = refused "map keys must be strings"

-- There is no case for a truth value, which gives nil.
unfoldable mutual
  pub variant_to_types : Variant → Any
  variant_to_types (int_value n) = any_int n
  variant_to_types (bool_value b) = any_nil
  variant_to_types (string_value s) = any_string s
  variant_to_types (slice_value vs) = any_slice (slice_to_types vs)
  variant_to_types (map_value m) = any_map (map_to_types m)

  pub slice_to_types : Variants → Anys
  slice_to_types no_more = no_item
  slice_to_types (one_more v vs) = item (variant_to_types v) (slice_to_types vs)

  pub map_to_types : VariantMap → AnyMap
  map_to_types end = no_key
  map_to_types (entry k v m) = key k (variant_to_types v) (map_to_types m)

-- What is written to the hash: a text, or a sum in little endian.
pub data Chunk : Type 0 where
  text : String → Chunk
  word : ℕ → Chunk

module _ (sum : List Chunk → ℕ) (itoa : ℤ → String) where
  unfoldable mutual
    pub hash : Variant → ℕ
    hash (int_value n) = sum (text (itoa n) ∷ [])
    hash (bool_value b) = sum (text (if b then "true" else "false") ∷ [])
    hash (string_value s) = sum (text s ∷ [])
    hash (slice_value vs) = sum (slice_chunks vs)
    hash (map_value m) = sum (map_chunks m)

    pub slice_chunks : Variants → List Chunk
    slice_chunks no_more = []
    slice_chunks (one_more v vs) = word (hash v) ∷ slice_chunks vs

    -- In the order in which `range` visits the map.
    pub map_chunks : VariantMap → List Chunk
    map_chunks end = []
    map_chunks (entry k v m) = text k ∷ word (hash v) ∷ map_chunks m
