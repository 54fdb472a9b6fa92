-- ===== src/PoolSpec/Attributes.antt =====
-- What GetSpectFromNode of poolnodespec.go gives for one attribute.
use nomad_ondemand_scaler.Prelude.{
  ◌≡◌, ◌∙◌, ap, refl, String, Option, none, some, [], ◌∷◌, if◌then◌else◌, str_eq, ◌>>=◌, arith,
  eq_iff, All, or_else, or_else-none,
}
use nomad_ondemand_scaler.Prelude.Dict.{Dict, lookup, map_option, IsKeyed, lookup-insert}
use nomad_ondemand_scaler.Nomad.{Node}
use nomad_ondemand_scaler.Variant.{Variant, int_value, string_value}
use nomad_ondemand_scaler.PoolSpec.{int_at, string_at}
use nomad_ondemand_scaler.PoolSpec.Text.{strip_prefix}
use nomad_ondemand_scaler.PoolSpec.FromNode.{
  put, label_of, spec_labels, spec_reserved, spec_drivers, spec_devices, spec_attributes,
}

lookup-put :
    (j k : String) (o : Option Variant) (out : Dict Variant)
    → lookup j (put k o out) ≡ (if str_eq k j then or_else o (lookup j out) else lookup j out)
unfolding put
lookup-put j k none out = ground arith
lookup-put j k (some v) out = ground (arith, lookup-insert k j v out)

lookup-spec_labels :
    (node : Node) (k : String) (attributes out : Dict Variant)
    → IsKeyed attributes
    → lookup k (spec_labels node attributes out)
      ≡ or_else (lookup k attributes >>= label_of node k) (lookup k out)
unfolding spec_labels lookup
lookup-spec_labels node k [] out keyed = refl
lookup-spec_labels node k ((j, v) ∷ rest) out keyed = ground (
  arith,
  eq_iff j k,
  lookup-put k j (label_of node j v) out,
  lookup-spec_labels node k rest (put j (label_of node j v) out) keyed.1,
)

-- The attributes that are set one after another, the last one first.
abbrev puts : Dict (Option Variant) → Dict Variant → Dict Variant
puts [] out = out
puts ((k, o) ∷ ps) out = put k o (puts ps out)

lookup-puts :
    (k : String) (ps : Dict (Option Variant)) (out : Dict Variant)
    → IsKeyed ps
    → lookup k (puts ps out) ≡ or_else (lookup k ps >>= λ o. o) (lookup k out)
unfolding lookup
lookup-puts k [] out keyed = refl
lookup-puts k ((j, o) ∷ ps) out keyed =
    ground (arith, eq_iff j k, lookup-put k j o (puts ps out), lookup-puts k ps out keyed.1)

module _ (as_text : String → Option String) (node : Node) (attributes : Dict Variant) where
  abbrev pub others : Dict (Option Variant)
  others =
      (
        "nodeclass",
        map_option (λ s. string_value node.node_class) (string_at "nodeclass" attributes),
      )
      ∷ (
        "datacenter",
        map_option (λ s. string_value node.datacenter) (string_at "datacenter" attributes),
      )
      ∷ ("disk", map_option (λ n. int_value node.disk) (int_at "disk" attributes))
      ∷ ("mem", map_option (λ n. int_value node.mem) (int_at "mem" attributes))
      ∷ ("cpu", map_option (λ n. int_value node.cpu) (int_at "cpu" attributes))
      ∷ ("devices", spec_devices as_text (lookup "devices" attributes) node.devices)
      ∷ ("drivers", spec_drivers (lookup "drivers" attributes) node.drivers)
      ∷ ("reserved", spec_reserved (lookup "reserved" attributes) node.reserved)
      ∷ []

  others-IsKeyed : IsKeyed others
  unfolding lookup
  others-IsKeyed = (refl, (refl, (refl, (refl, (refl, (refl, (refl, (refl, tt))))))))

  pub lookup-spec_attributes :
      (k : String)
      → IsKeyed attributes
      → lookup k (spec_attributes as_text node attributes)
        ≡ or_else (lookup k others >>= λ o. o) (lookup k attributes >>= label_of node k)
  unfolding spec_attributes lookup
  lookup-spec_attributes k keyed =
      let all_put = lookup-puts k others (spec_labels node attributes []) others-IsKeyed in
      let labels = lookup-spec_labels node k attributes [] keyed in
      all_put
      ∙ ap (or_else (lookup k others >>= λ o. o))
          (labels ∙ or_else-none (lookup k attributes >>= label_of node k))

-- A key with a prefix is none of those without.
lookup_apart {ℓ} :
    {V : Type ℓ} (p k r : String) (ps : Dict V)
    → All (λ e. strip_prefix p e.0 ≡ none) ps
    → strip_prefix p k ≡ some r
    → lookup k ps ≡ none
unfolding lookup
lookup_apart p k r [] h g = refl
lookup_apart p k r ((j, o) ∷ ps) h g = ground (arith, eq_iff j k, lookup_apart p k r ps h.1 g)

module _ (as_text : String → Option String) (node : Node) (attributes : Dict Variant) where
  pub others_attr :
      (k r : String)
      → strip_prefix "attr." k ≡ some r
      → lookup k (others as_text node attributes) ≡ none
  unfolding strip_prefix
  others_attr k r h =
      lookup_apart "attr." k r (others as_text node attributes)
        (refl, (refl, (refl, (refl, (refl, (refl, (refl, (refl, tt)))))))) h

  pub others_meta :
      (k r : String)
      → strip_prefix "meta." k ≡ some r
      → lookup k (others as_text node attributes) ≡ none
  unfolding strip_prefix
  others_meta k r h =
      lookup_apart "meta." k r (others as_text node attributes)
        (refl, (refl, (refl, (refl, (refl, (refl, (refl, (refl, tt)))))))) h

  pub others_links :
      (k r : String)
      → strip_prefix "links." k ≡ some r
      → lookup k (others as_text node attributes) ≡ none
  unfolding strip_prefix
  others_links k r h =
      lookup_apart "links." k r (others as_text node attributes)
        (refl, (refl, (refl, (refl, (refl, (refl, (refl, (refl, tt)))))))) h
