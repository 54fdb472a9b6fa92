-- ===== src/PoolSpec/Labelled.antt =====
-- What the loops of GetNode over the attributes of a specification make of one of them.
use nomad_ondemand_scaler.Prelude.{
  ◌≡◌, refl, String, Option, none, some, [], ◌∷◌, if◌then◌else◌, str_eq, ◌>>=◌, arith, eq_iff,
  Option-cases, or_else, inl, inr,
}
use nomad_ondemand_scaler.Prelude.Int.{ℤ}
use nomad_ondemand_scaler.Prelude.Dict.{Dict, lookup, IsKeyed, lookup-insert}
use nomad_ondemand_scaler.Variant.{Variant, get_string_value}
use nomad_ondemand_scaler.PoolSpec.Text.{strip_prefix, strip_prefix-injective, strip_prefix-apart}
use nomad_ondemand_scaler.PoolSpec.ToNode.{Labels, put_text, label_text, set_label, set_labels}

lookup-put_text :
    (j k : String) (o : Option String) (m : Dict String)
    → lookup j (put_text k o m) ≡ (if str_eq k j then or_else o (lookup j m) else lookup j m)
unfolding put_text
lookup-put_text j k none m = ground arith
lookup-put_text j k (some t) m = ground (arith, lookup-insert k j t m)

-- No key has both prefixes.
pub apart : (k r : String) → strip_prefix "meta." k ≡ some r → strip_prefix "attr." k ≡ none
apart k r h = strip_prefix-apart "m" "a" "eta." "ttr." k r refl h

pub links_apart : (k r : String) → strip_prefix "links." k ≡ some r → strip_prefix "attr." k ≡ none
links_apart k r h = strip_prefix-apart "l" "a" "inks." "ttr." k r refl h

pub links_meta_apart :
    (k r : String) → strip_prefix "links." k ≡ some r → strip_prefix "meta." k ≡ none
links_meta_apart k r h = strip_prefix-apart "l" "m" "inks." "eta." k r refl h

module _ (itoa : ℤ → String) where
  set_label-attributes :
      (k r j : String) (v : Variant) (l : Labels)
      → strip_prefix "attr." k ≡ some r
      → lookup r (set_label itoa j v l).attributes ≡ (
          if str_eq j k
          then or_else (label_text itoa v) (lookup r l.attributes)
          else lookup r l.attributes)
  unfolding set_label
  set_label-attributes k r j v l h = elim (Option-cases (strip_prefix "attr." j)) [
    | inl e ↦ ground (arith, e, eq_iff j k)
    | inr (s, e) ↦ ground (
      arith,
      e,
      eq_iff j k,
      eq_iff s r,
      lookup-put_text r s (label_text itoa v) l.attributes,
      strip_prefix-injective "attr." j k s,
    )
  ]

  pub lookup-set_labels :
      (k r : String) (attributes : Dict Variant) (l : Labels)
      → IsKeyed attributes
      → strip_prefix "attr." k ≡ some r
      → lookup r (set_labels itoa attributes l).attributes
        ≡ or_else (lookup k attributes >>= label_text itoa) (lookup r l.attributes)
  unfolding set_labels lookup
  lookup-set_labels k r [] l keyed h = refl
  lookup-set_labels k r ((j, v) ∷ rest) l keyed h = ground (
    arith,
    eq_iff j k,
    set_label-attributes k r j v l h,
    lookup-set_labels k r rest (set_label itoa j v l) keyed.1 h,
  )

  set_label-meta :
      (k r j : String) (v : Variant) (l : Labels)
      → strip_prefix "meta." k ≡ some r
      → lookup r (set_label itoa j v l).meta
        ≡ (if str_eq j k then or_else (get_string_value v) (lookup r l.meta) else lookup r l.meta)
  unfolding set_label
  set_label-meta k r j v l h = elim (Option-cases (strip_prefix "attr." j)) [
    | inr (s, e) ↦ ground (arith, e, eq_iff j k, apart k r h)
    | inl a ↦ elim (Option-cases (strip_prefix "meta." j)) [
      | inl e ↦ elim (Option-cases (strip_prefix "links." j)) [
        | inl e' ↦ ground (arith, a, e, e', eq_iff j k)
        | inr (s, e') ↦ ground (arith, a, e, e', eq_iff j k)
      ]
      | inr (s, e) ↦ ground (
        arith,
        a,
        e,
        eq_iff j k,
        eq_iff s r,
        lookup-put_text r s (get_string_value v) l.meta,
        strip_prefix-injective "meta." j k s,
      )
    ]
  ]

  pub lookup-set_labels_meta :
      (k r : String) (attributes : Dict Variant) (l : Labels)
      → IsKeyed attributes
      → strip_prefix "meta." k ≡ some r
      → lookup r (set_labels itoa attributes l).meta
        ≡ or_else (lookup k attributes >>= get_string_value) (lookup r l.meta)
  unfolding set_labels lookup
  lookup-set_labels_meta k r [] l keyed h = refl
  lookup-set_labels_meta k r ((j, v) ∷ rest) l keyed h = ground (
    arith,
    eq_iff j k,
    set_label-meta k r j v l h,
    lookup-set_labels_meta k r rest (set_label itoa j v l) keyed.1 h,
  )
