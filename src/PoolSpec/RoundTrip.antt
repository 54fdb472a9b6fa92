-- ===== src/PoolSpec/RoundTrip.antt =====
-- GetNode and then GetSpectFromNode of poolnodespec.go.
use nomad_ondemand_scaler.Prelude.{
  ◌≡◌, ◌∙◌, ap, refl, String, Option, none, some, ◌>>=◌, arith, is_some, Option-cases, or_else,
  true, false, get_or_else, inl, inr,
}
use nomad_ondemand_scaler.Prelude.Int.{ℤ, pos}
use nomad_ondemand_scaler.Prelude.Dict.{Dict, lookup, map_option, IsKeyed}
use nomad_ondemand_scaler.Nomad.{Node}
use nomad_ondemand_scaler.Variant.{
  Variant, bool_value, int_value, string_value, get_int_value, get_string_value,
}
use nomad_ondemand_scaler.PoolSpec.{
  PoolNodeSpec, int_at, string_at, get_resources, get_name, new_pool_node_spec,
}
use nomad_ondemand_scaler.PoolSpec.Text.{strip_prefix}
use nomad_ondemand_scaler.PoolSpec.ToNode.{no_labels, label_text, raw_node, get_node}
use nomad_ondemand_scaler.PoolSpec.FromNode.{
  is_scalar, text_if, label_of, spec_attributes, get_spect_from_node,
}
use nomad_ondemand_scaler.PoolSpec.Labelled.{
  apart, links_apart, links_meta_apart, lookup-set_labels, lookup-set_labels_meta,
}
use nomad_ondemand_scaler.PoolSpec.Attributes.{
  others, others_attr, others_meta, others_links, lookup-spec_attributes,
}

label_scalar :
    (itoa : ℤ → String) (v : Variant)
    → text_if (is_scalar v) (or_else (label_text itoa v) none)
      ≡ map_option string_value (label_text itoa v)
unfolding is_scalar label_text
label_scalar itoa v = ground arith

-- An attribute that is set in the node if it is of the type, and then taken out again.
set_back {ℓ} :
    {A : Type ℓ} (make : A → Variant) (get : Variant → Option A) (d : A)
    (label : Variant → Option Variant)
    → ((v : Variant) → label v ≡ none)
    → (o : Option Variant)
    → or_else (map_option (λ a. make (get_or_else (o >>= get) d)) (o >>= get)) (o >>= label)
      ≡ map_option make (o >>= get)
set_back make get d label h none = refl
set_back make get d label h (some v) = ground (arith, h v)

meta_scalar :
    (v : Variant)
    → text_if (is_scalar v) (or_else (get_string_value v) none)
      ≡ map_option string_value (get_string_value v)
unfolding is_scalar get_string_value
meta_scalar v = ground arith

int_kept : (o : Option ℤ) → (map_option int_value o >>= get_int_value) ≡ o
unfolding get_int_value
int_kept none = refl
int_kept (some a) = refl

same_resources :
    (itoa : ℤ → String) (n m : PoolNodeSpec)
    → int_at "cpu" n.attributes ≡ int_at "cpu" m.attributes
    → int_at "mem" n.attributes ≡ int_at "mem" m.attributes
    → int_at "disk" n.attributes ≡ int_at "disk" m.attributes
    → (get_resources n ≡ get_resources m) × (get_name itoa n ≡ get_name itoa m)
unfolding get_resources get_name
same_resources itoa n m c e d = (cc (c, e, d), cc (c, e, d))

links_text :
    (v : Variant) (o : Option String)
    → text_if (is_some (get_string_value v)) (or_else o none)
      ≡ (get_string_value v >>= λ t. map_option string_value o)
unfolding get_string_value
links_text v o = ground arith

-- What comes back of an attribute: a string as it is, of a number its digits, of a truth value its word.
abbrev pub text_back : (ℤ → String) → Variant → Option Variant
text_back itoa (string_value s) = some (string_value s)
text_back itoa (int_value n) = some (string_value (itoa n))
text_back itoa (bool_value true) = some (string_value "true")
text_back itoa (bool_value false) = some (string_value "false")
text_back itoa _ = none

text_back-label_text :
    (itoa : ℤ → String) (v : Variant)
    → map_option string_value (label_text itoa v) ≡ text_back itoa v
unfolding label_text
text_back-label_text itoa v = ground arith

module _ (itoa : ℤ → String) (as_text : String → Option String) (canonicalize : Node → Node)
    (canonicalize_keeps : (n : Node) → canonicalize n ≡ n) (uid : String) (n : PoolNodeSpec)
    (keyed : IsKeyed n.attributes) where
  abbrev back : Dict Variant
  back = spec_attributes as_text (get_node itoa canonicalize uid n) n.attributes

  -- The node in the place of the one made canonical.
  abbrev node : Node
  node = raw_node itoa uid n

  back_lem : back ≡ spec_attributes as_text node n.attributes
  unfolding get_node
  back_lem = rw (canonicalize_keeps (raw_node itoa uid n))

  lookup-back :
      (k : String)
      → lookup k back
        ≡ or_else
            (lookup k (others as_text node n.attributes) >>= λ o. o)
            (lookup k n.attributes >>= label_of node k)
  lookup-back k = ap (lookup k) back_lem ∙ lookup-spec_attributes as_text node n.attributes k keyed

  -- For a specification with each key once, where making a node canonical changes nothing of it: of the
  -- node that GetNode makes, GetSpectFromNode gives back under a key that begins with "attr." the
  -- specification's string there, the digits of a number, "true" or "false" for a truth value, and nothing
  -- for a value of another type or for none.
  pub attr_back :
      (k r : String)
      → strip_prefix "attr." k ≡ some r
      → lookup k back ≡ (lookup k n.attributes >>= text_back itoa)
  unfolding lookup label_of raw_node
  attr_back k r h =
      let texts = lookup-set_labels itoa k r n.attributes no_labels keyed h in
      let given = lookup-back k in
      let apart = others_attr as_text node n.attributes k r h in
      elim (Option-cases (lookup k n.attributes)) [
        | inl e ↦ rw (given, apart, e)
        | inr (v, e) ↦
            rw (given, apart, e, label_of, h, texts, e)
              (label_scalar itoa v ∙ text_back-label_text itoa v)
      ]

  pub meta_back :
      (k r : String)
      → strip_prefix "meta." k ≡ some r
      → lookup k back ≡ map_option string_value (lookup k n.attributes >>= get_string_value)
  unfolding lookup label_of raw_node
  meta_back k r h =
      let texts = lookup-set_labels_meta itoa k r n.attributes no_labels keyed h in
      let given = lookup-back k in
      let other = others_meta as_text node n.attributes k r h in
      elim (Option-cases (lookup k n.attributes)) [
        | inl e ↦ rw (given, other, e)
        | inr (v, e) ↦ rw (given, other, e, label_of, apart k r h, h, texts, e) (meta_scalar v)
      ]

  -- For a specification with each key once, where making a node canonical changes nothing of it: of the
  -- node that GetNode makes, GetSpectFromNode gives back under a key that begins with "links." not the text
  -- of the link, but, if the link is a text, that of the entry of the same name under "meta.".
  pub links_back :
      (k j r : String)
      → strip_prefix "links." k ≡ some r
      → strip_prefix "meta." j ≡ some r
      → lookup k back
        ≡ (string_at k n.attributes >>= λ t. map_option string_value (string_at j n.attributes))
  unfolding lookup label_of raw_node strip_prefix
  links_back k j r h g =
      let texts = lookup-set_labels_meta itoa j r n.attributes no_labels keyed g in
      let given = lookup-back k in
      let other = others_links as_text node n.attributes k r h in
      elim (Option-cases (lookup k n.attributes)) [
        | inl e ↦ rw (given, other, e)
        | inr (v, e) ↦
            rw (given, other, e, label_of, links_apart k r h, links_meta_apart k r h, h, texts)
              (links_text v (string_at j n.attributes))
      ]

  cpu_back : lookup "cpu" back ≡ map_option int_value (int_at "cpu" n.attributes)
  unfolding lookup label_of raw_node strip_prefix
  cpu_back =
      lookup-back "cpu"
      ∙ set_back int_value get_int_value (pos 0) (label_of node "cpu") (λ v. refl)
          (lookup "cpu" n.attributes)

  mem_back : lookup "mem" back ≡ map_option int_value (int_at "mem" n.attributes)
  unfolding lookup label_of raw_node strip_prefix
  mem_back =
      lookup-back "mem"
      ∙ set_back int_value get_int_value (pos 0) (label_of node "mem") (λ v. refl)
          (lookup "mem" n.attributes)

  disk_back : lookup "disk" back ≡ map_option int_value (int_at "disk" n.attributes)
  unfolding lookup label_of raw_node strip_prefix
  disk_back =
      lookup-back "disk"
      ∙ set_back int_value get_int_value (pos 102400) (label_of node "disk") (λ v. refl)
          (lookup "disk" n.attributes)

  datacenter_back :
      lookup "datacenter" back ≡ map_option string_value (string_at "datacenter" n.attributes)
  unfolding lookup label_of raw_node strip_prefix
  datacenter_back =
      lookup-back "datacenter"
      ∙ set_back string_value get_string_value "" (label_of node "datacenter") (λ v. refl)
          (lookup "datacenter" n.attributes)

  nodeclass_back :
      lookup "nodeclass" back ≡ map_option string_value (string_at "nodeclass" n.attributes)
  unfolding lookup label_of raw_node strip_prefix
  nodeclass_back =
      lookup-back "nodeclass"
      ∙ set_back string_value get_string_value "" (label_of node "nodeclass") (λ v. refl)
          (lookup "nodeclass" n.attributes)

  -- For a specification with each key once, where making a node canonical changes nothing of it: what
  -- GetSpectFromNode reads from the node that GetNode makes has the resources and the name of the
  -- specification, whatever the hash.
  pub get_resources-get_spect_from_node :
      (hash_text : String → Dict Variant → String)
      → let again =
          get_spect_from_node as_text itoa hash_text n (get_node itoa canonicalize uid n) in
        (get_resources again ≡ get_resources n) × (get_name itoa again ≡ get_name itoa n)
  unfolding get_spect_from_node new_pool_node_spec
  get_resources-get_spect_from_node hash_text =
      same_resources itoa
        (get_spect_from_node as_text itoa hash_text n (get_node itoa canonicalize uid n)) n
        (ap (λ o. o >>= get_int_value) cpu_back ∙ int_kept (int_at "cpu" n.attributes))
        (ap (λ o. o >>= get_int_value) mem_back ∙ int_kept (int_at "mem" n.attributes))
        (ap (λ o. o >>= get_int_value) disk_back ∙ int_kept (int_at "disk" n.attributes))
