-- ===== src/PoolSpec.antt =====
-- poolnodespec.go: the specification of a pool, a map of attributes. The text of a number (`%d`) and the
-- text of the structure's hash are parameters.
pub mod Dump
pub mod Text
pub mod ToNode
pub mod FromNode
pub mod Class
pub mod Parse
pub mod Converted
pub mod Suitable
pub mod Barred
pub mod Known
pub mod Sound
pub mod Labelled
pub mod Attributes
pub mod RoundTrip
use Prim.Native.String.{◌++◌ as str_append}
use nomad_ondemand_scaler.Prelude.{
  String, Bool, not, ◌||◌, Option, none, some, List, [], ◌∷◌, if◌then◌else◌, str_eq, get_or_else,
  ◌>>=◌,
}
use nomad_ondemand_scaler.Prelude.Int.{ℤ, pos}
use nomad_ondemand_scaler.Prelude.Dict.{Dict, lookup}
use nomad_ondemand_scaler.Variant.{Variant, get_int_value, get_string_value}

pub record PoolNodeSpec : Type 0 where
  pub full_name : String
  pub attributes : Dict Variant

pub record Resources : Type 0 where
  pub cpu : ℤ
  pub mem : ℤ
  pub disk : ℤ

-- The attribute, if it is there and of the type.
abbrev pub int_at : String → Dict Variant → Option ℤ
int_at k attributes = lookup k attributes >>= get_int_value

abbrev pub string_at : String → Dict Variant → Option String
string_at k attributes = lookup k attributes >>= get_string_value

unfoldable pub get_resources : PoolNodeSpec → Resources
get_resources n = record {
  cpu = get_or_else (int_at "cpu" n.attributes) (pos 0);
  mem = get_or_else (int_at "mem" n.attributes) (pos 0);
  disk = get_or_else (int_at "disk" n.attributes) (pos 0);
}

-- `HashIncludeMap` for a key of `Attributes`.
abbrev pub is_resource : String → Bool
is_resource k = str_eq k "cpu" || str_eq k "mem" || str_eq k "disk"

unfoldable pub hash_include_map : String → Bool
hash_include_map k = not (is_resource k)

-- What of the attributes the structure's hash reads.
unfoldable pub included : Dict Variant → Dict Variant
unfolding hash_include_map
included [] = []
included ((k, v) ∷ rest) =
    let more = included rest in if hash_include_map k then (k, v) ∷ more else more

module _ (itoa : ℤ → String) where
  -- One round of the loop of `GetName`: a resource is put behind those before it.
  unfoldable pub add_resource : Option ℤ → String → String → String
  add_resource none res name = name
  add_resource (some n) res name =
      str_append (if str_eq name "" then name else str_append name ";")
        (str_append res (str_append ":" (itoa n)))

  unfoldable pub get_name : PoolNodeSpec → String
  unfolding add_resource
  get_name n = add_resource (int_at "disk" n.attributes) "disk" (
      add_resource (int_at "mem" n.attributes) "mem"
        (add_resource (int_at "cpu" n.attributes) "cpu" ""))

module _ (hash_text : String → Dict Variant → String) where
  -- The hash is of the whole structure, its full name too.
  unfoldable pub compute_class : PoolNodeSpec → String
  unfolding included
  compute_class n = str_append "v1:" (hash_text n.full_name (included n.attributes))

  unfoldable pub new_pool_node_spec : (ℤ → String) → Dict Variant → PoolNodeSpec
  unfolding get_name compute_class
  new_pool_node_spec itoa attributes =
      let n : PoolNodeSpec = record { full_name = ""; attributes = attributes } in
      record n { full_name = str_append (get_name itoa n) (str_append "-" (compute_class n)) }
