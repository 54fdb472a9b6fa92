-- ===== src/NodeProvider/Karpenter/Creating/Begun.antt =====
-- What a provider of karpenter_create.go begins with, and what then holds of it.
use Prim.Native.String.{◌++◌ as str_append}
use nomad_ondemand_scaler.Prelude.{ℕ, ◌≡◌, String, Option, none, some, List, [], if◌then◌else◌}
use nomad_ondemand_scaler.Prelude.Int.{ℤ, quotient_64}
use nomad_ondemand_scaler.Prelude.Dict.{Dict, lookup}
use nomad_ondemand_scaler.Variant.{any_map, Any, AnyMap}
use nomad_ondemand_scaler.PoolSpec.{Resources}
use nomad_ondemand_scaler.NodeProvider.Karpenter.{read_listed}
use nomad_ondemand_scaler.NodeProvider.Karpenter.Creating.{
  Casts, Provided, param, is_zero, resource_texts,
}

module _ (casts : Casts) (itoa : ℤ → String) where
  abbrev IsBegun : Option (List String) → ℕ → String → Option Resources → Provided → Type 0
  IsBegun listed now name res p =
      (ids : List String) × (listed ≡ some ids)
      × (p.provider ≡ record {
        known = record { state = read_listed ids []; last_updatetime = now };
        incephemeral = [];
      })
      × (p.name ≡ name)
      × (p.spec.resources ≡ resource_texts casts itoa res)

  -- The text of an amount, which is left out where it is 0.
  abbrev pub text_of : ℤ → String → Option String
  text_of n unit = if is_zero casts itoa n then none else some (str_append (itoa n) unit)

  -- Without resources no texts. Else the parameter for the frequency is there and a number, by which the
  -- cpu is divided, and the amounts stand under the names that the plugin knows.
  abbrev pub IsTexts : Option Resources → Option Any → Option (Dict String) → Type 0
  IsTexts none freq texts = texts ≡ none
  IsTexts (some res) freq texts =
      (x : Any) × (f : ℤ) × (cpu : ℤ) × (t : Dict String) × (freq ≡ some x)
      × (casts.to_int_e x ≡ some f)
      × (quotient_64 res.cpu f ≡ some cpu)
      × (texts ≡ some t)
      × (lookup "cpu" t ≡ text_of cpu "m")
      × (lookup "memory" t ≡ text_of res.mem "Mi")
      × (lookup "storage" t ≡ text_of res.disk "Mi")

  -- What was given for the provider: a map of parameters with a name that can be read as a text, which is
  -- the provider's, the plugin's first instances, none of them seen yet, and the texts of the resources.
  abbrev pub IsMadeFrom : Option (List String) → ℕ → Any → Option Resources → Provided → Type 0
  IsMadeFrom listed now params res p =
      (m : AnyMap) × (x : Any) × (ids : List String) × (params ≡ any_map m)
      × (param "name" m ≡ some x)
      × (casts.to_string_e x ≡ some p.name)
      × (listed ≡ some ids)
      × (p.provider ≡ record {
        known = record { state = read_listed ids []; last_updatetime = now };
        incephemeral = [];
      })
      × IsTexts res (param "freqPerCpuCore" m) p.spec.resources
