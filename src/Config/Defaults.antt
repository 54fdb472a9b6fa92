-- ===== src/Config/Defaults.antt =====
-- What configParse.go puts in place of blocks that the file does not have.
use nomad_ondemand_scaler.Prelude.{
  ◌≡◌, refl, subst, String, Bool, true, false, Option, none, List, [], ◌∷◌, Option-cases, inl, inr,
}
use nomad_ondemand_scaler.Retry.{StaleApiConfig}
use nomad_ondemand_scaler.Config.{
  or_default, Config, HungPreventionConfig, config_parse, with_defaults, mapped,
}

-- What `config_parse` gives has an element of each that it defaults.
abbrev pub HasDefaults : Config → Type 0
HasDefaults c =
    ((stale : StaleApiConfig) × (rest : List StaleApiConfig) × (c.stale_nomad_api ≡ stale ∷ rest))
    × ((hung : HungPreventionConfig) × (rest : List HungPreventionConfig) × (c.hung_prevention
          ≡ hung ∷ rest))

at_least_one :
    {A : Type 0} (xs : List A) (x : A) → (y : A) × (ys : List A) × (or_default xs x ≡ y ∷ ys)
at_least_one [] x = (x, [], refl)
at_least_one (y ∷ ys) x = (y, ys, refl)

with_defaults-HasDefaults : (c : Config) → HasDefaults (with_defaults c)
unfolding with_defaults
with_defaults-HasDefaults c = (at_least_one c.stale_nomad_api _, at_least_one c.hung_prevention _)

mapped-HasDefaults : (r : Config × Bool) (c : Config) → mapped r ≡ (c, none) → HasDefaults c
mapped-HasDefaults (c', true) c h =
    let same : with_defaults c' ≡ c = cc h in subst HasDefaults same (with_defaults-HasDefaults c')
mapped-HasDefaults (c', false) c h = absurd (cc h)

module _ {Bytes Ast Fields : Type 0} (read_file : String → Option Bytes)
    (parse_bytes : Bytes → Option Ast) (decode_object : Ast → Option Fields)
    (new_decoder : Option (Fields → Config → Config × Bool)) where
  pub config_parse-HasDefaults :
      (path : String) (old c : Config)
      → config_parse read_file parse_bytes decode_object new_decoder path old ≡ (c, none)
      → HasDefaults c
  unfolding config_parse
  config_parse-HasDefaults path old c h = elim (Option-cases (read_file path)) [
    | inl e ↦ absurd (cc (rw (e, config_parse) at h))
    | inr (bytes, e) ↦ elim (Option-cases (parse_bytes bytes)) [
      | inl f ↦ absurd (cc (rw (e, f, config_parse) at h))
      | inr (ast, f) ↦ elim (Option-cases (decode_object ast)) [
        | inl g ↦ absurd (cc (rw (e, f, g, config_parse) at h))
        | inr (m, g) ↦ elim (Option-cases new_decoder) [
          | inl k ↦ absurd (cc (rw (e, f, g, k, config_parse) at h))
          | inr (decode, k) ↦
              mapped-HasDefaults (decode m old) c (rw (e, f, g, k, config_parse) at h)
        ]
      ]
    ]
  ]
