-- ===== src/Variant/Yaml.antt =====
-- Reading YAML into a variant and taking it out again, in variantype.go and util.go.
use nomad_ondemand_scaler.Prelude.{◌≡◌, refl, Bool, true, false, ◌&&◌}
use nomad_ondemand_scaler.Variant.{
  Variant, Variants, VariantMap, int_value, bool_value, string_value, slice_value, map_value,
  no_more, one_more, end, entry, Any, Anys, AnyMap, any_nil, any_int, any_bool, any_string,
  any_slice, any_map, any_other, no_item, item, no_key, key, other_key, read,
  new_variant_from_any_type, read_slice, read_map, variant_to_types, slice_to_types, map_to_types,
}

-- All that stands in the value is of a known kind, and all keys are texts.
unfoldable mutual
  pub is_supported : Any → Bool
  is_supported any_nil = false
  is_supported any_other = false
  is_supported (any_slice xs) = all_supported xs
  is_supported (any_map m) = map_supported m
  is_supported _ = true

  pub all_supported : Anys → Bool
  all_supported no_item = true
  all_supported (item x xs) = is_supported x && all_supported xs

  pub map_supported : AnyMap → Bool
  map_supported no_key = true
  map_supported (key k x m) = is_supported x && map_supported m
  map_supported (other_key x m) = false

-- The value with nil in place of each truth value.
unfoldable mutual
  pub without_bools : Any → Any
  without_bools (any_bool b) = any_nil
  without_bools (any_slice xs) = any_slice (items_without_bools xs)
  without_bools (any_map m) = any_map (map_without_bools m)
  without_bools x = x

  pub items_without_bools : Anys → Anys
  items_without_bools no_item = no_item
  items_without_bools (item x xs) = item (without_bools x) (items_without_bools xs)

  pub map_without_bools : AnyMap → AnyMap
  map_without_bools no_key = no_key
  map_without_bools (key k x m) = key k (without_bools x) (map_without_bools m)
  map_without_bools (other_key x m) = other_key (without_bools x) (map_without_bools m)

both_left : (a b : Bool) → a && b ≡ true → a ≡ true
both_left true b h = refl
both_left false b h = h

both_right : (a b : Bool) → a && b ≡ true → b ≡ true
both_right true b h = h
both_right false b h = cc

abbrev Reads : Any → Type 0
Reads a =
    (v : Variant) × (new_variant_from_any_type a ≡ read v) × (variant_to_types v ≡ without_bools a)

mutual
  unfolding new_variant_from_any_type variant_to_types is_supported without_bools

  reads : (a : Any) → is_supported a ≡ true → Reads a
  reads any_nil h = cc
  reads any_other h = cc
  reads (any_int n) h = (int_value n, refl, refl)
  reads (any_bool b) h = (bool_value b, refl, refl)
  reads (any_string s) h = (string_value s, refl, refl)
  reads (any_slice xs) h = let (vs, e, f) = reads_slice xs h in (slice_value vs, rw e, rw f)
  reads (any_map m) h = let (vm, e, f) = reads_map m h in (map_value vm, rw e, rw f)

  reads_slice :
      (xs : Anys)
      → all_supported xs ≡ true
      → (vs : Variants) × (read_slice xs ≡ read vs) × (slice_to_types vs ≡ items_without_bools xs)
  reads_slice no_item h = (no_more, refl, refl)
  reads_slice (item x xs) h =
      let (v, e, f) = reads x (both_left (is_supported x) (all_supported xs) h) in
      let (vs, es, fs) = reads_slice xs (both_right (is_supported x) (all_supported xs) h) in
      (one_more v vs, rw (e, es), rw (f, fs))

  reads_map :
      (m : AnyMap)
      → map_supported m ≡ true
      → (vm : VariantMap) × (read_map m ≡ read vm) × (map_to_types vm ≡ map_without_bools m)
  reads_map no_key h = (end, refl, refl)
  reads_map (key k x m) h =
      let (v, e, f) = reads x (both_left (is_supported x) (map_supported m) h) in
      let (vm, es, fs) = reads_map m (both_right (is_supported x) (map_supported m) h) in
      (entry k v vm, rw (e, es), rw (f, fs))
  reads_map (other_key x m) h = cc

-- What is supported is read, and taken out again it is the same but for its truth values, which come
-- out as nil.
pub variant_to_types-new_variant_from_any_type :
    (a : Any)
    → is_supported a ≡ true
    → (v : Variant) × (new_variant_from_any_type a ≡ read v)
      × (variant_to_types v ≡ without_bools a)
variant_to_types-new_variant_from_any_type a h = reads a h
