-- ===== src/PoolSpec/Class.antt =====
-- ComputeClass of poolnodespec.go.
use nomad_ondemand_scaler.Prelude.{◌≡◌, refl, String, true, false, [], ◌∷◌, arith, eq_iff}
use nomad_ondemand_scaler.Prelude.Dict.{Dict, insert}
use nomad_ondemand_scaler.Variant.{Variant}
use nomad_ondemand_scaler.PoolSpec.{
  PoolNodeSpec, is_resource, hash_include_map, included, compute_class,
}

included-insert :
    (k : String) (v : Variant) (m : Dict Variant)
    → hash_include_map k ≡ false
    → included (insert k v m) ≡ included m
unfolding included insert
included-insert k v [] h = rw h refl
included-insert k v ((j, w) ∷ m) h = ground (arith, eq_iff j k, included-insert k v m h)

-- The class of a pool stays the same when the attribute "cpu", "mem" or "disk" is set, to any value, and
-- the full name kept, whatever the hash.
pub compute_class-insert :
    (hash_text : String → Dict Variant → String) (n : PoolNodeSpec) (k : String) (v : Variant)
    → is_resource k ≡ true
    → compute_class hash_text (record n { attributes = insert k v n.attributes })
      ≡ compute_class hash_text n
unfolding compute_class hash_include_map
compute_class-insert hash_text n k v h = rw (included-insert k v n.attributes (rw h refl)) refl
