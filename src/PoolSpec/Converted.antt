-- ===== src/PoolSpec/Converted.antt =====
-- What parsePoolSpecDefinition.go makes of the sizes of a pool.
use nomad_ondemand_scaler.Prelude.{
  ℕ, ◌≡◌, refl, ◌∙◌, ap, String, false, Option, none, some, if◌then◌else◌, str_eq, ◌>>=◌, arith,
  eq_iff, Option-cases, inl, inr,
}
use nomad_ondemand_scaler.Prelude.Dict.{Dict, lookup, insert, map_option, lookup-insert}
use nomad_ondemand_scaler.Variant.{
  Variant, int_value, bool_value, string_value, slice_value, map_value, get_string_value,
}
use nomad_ondemand_scaler.PoolSpec.{string_at}
use nomad_ondemand_scaler.PoolSpec.Parse.{
  megabytes, convert_text, convert_at, convert_entry, convert_reserved, convert_devices,
  convert_parts, count_devices, convert,
}

-- A chain that succeeds, taken apart.
bind-some :
    {A B : Type 0} (o : Option A) (f : A → Option B) (b : B)
    → (o >>= f) ≡ some b
    → (a : A) × (o ≡ some a) × (f a ≡ some b)
bind-some none f b h = absurd (cc h)
bind-some (some a) f b h = (a, refl, h)

module _ (parse_bytes : String → Option ℕ) where
  -- A text as the number of megabytes that it stands for; anything else as it is.
  abbrev pub sized : Option Variant → Option Variant
  sized none = none
  sized (some (string_value s)) = map_option megabytes (parse_bytes s)
  sized (some v) = some v

  convert_text-lookup :
      (k j : String) (o : Option Variant) (a b : Dict Variant)
      → convert_text parse_bytes k (o >>= get_string_value) a ≡ some b
      → o ≡ lookup k a
      → lookup j b ≡ (if str_eq k j then sized o else lookup j a)
  unfolding convert_text get_string_value
  convert_text-lookup k j none a b h g = ground (arith, eq_iff k j)
  convert_text-lookup k j (some (int_value n)) a b h g = ground (arith, eq_iff k j)
  convert_text-lookup k j (some (bool_value n)) a b h g = ground (arith, eq_iff k j)
  convert_text-lookup k j (some (slice_value n)) a b h g = ground (arith, eq_iff k j)
  convert_text-lookup k j (some (map_value n)) a b h g = ground (arith, eq_iff k j)
  convert_text-lookup k j (some (string_value s)) a b h g = elim (Option-cases (parse_bytes s)) [
    | inl e ↦ absurd (cc (rw e at h))
    | inr (n, e) ↦ ground (arith, e, lookup-insert k j (megabytes n) a)
  ]

  convert_reserved-lookup :
      (j : String) (o : Option Variant) (a b : Dict Variant)
      → str_eq "reserved" j ≡ false
      → convert_reserved parse_bytes o a ≡ some b
      → lookup j b ≡ lookup j a
  unfolding convert_reserved
  convert_reserved-lookup j none a b h g = cc g
  convert_reserved-lookup j (some (int_value n)) a b h g = cc g
  convert_reserved-lookup j (some (bool_value n)) a b h g = cc g
  convert_reserved-lookup j (some (string_value n)) a b h g = cc g
  convert_reserved-lookup j (some (slice_value n)) a b h g = cc g
  convert_reserved-lookup j (some (map_value m)) a b h g =
      let mem = convert_entry parse_bytes "mem" m in
      let (m', e, last) =
        bind-some (mem >>= convert_entry parse_bytes "disk")
          (λ m'. some (insert "reserved" (map_value m') a)) b g in
      ground (arith, last, lookup-insert "reserved" j (map_value m') a)

  convert_devices-lookup :
      (j : String) (o : Option Variant) (a : Dict Variant)
      → str_eq "devices" j ≡ false
      → lookup j (convert_devices o a) ≡ lookup j a
  unfolding convert_devices
  convert_devices-lookup j none a h = refl
  convert_devices-lookup j (some (int_value n)) a h = refl
  convert_devices-lookup j (some (bool_value n)) a h = refl
  convert_devices-lookup j (some (string_value n)) a h = refl
  convert_devices-lookup j (some (map_value n)) a h = refl
  convert_devices-lookup j (some (slice_value vs)) a h =
      ground (arith, h, lookup-insert "devices" j (slice_value (count_devices vs)) a)

  convert_at-lookup :
      (k j : String) (a b : Dict Variant)
      → convert_at parse_bytes k a ≡ some b
      → lookup j b ≡ (if str_eq k j then sized (lookup k a) else lookup j a)
  unfolding convert_at
  convert_at-lookup k j a b h = convert_text-lookup k j (lookup k a) a b h refl

  convert_parts-lookup :
      (j : String) (a b : Dict Variant)
      → str_eq "reserved" j ≡ false
      → str_eq "devices" j ≡ false
      → convert_parts parse_bytes a ≡ some b
      → lookup j b ≡ lookup j a
  unfolding convert_parts
  convert_parts-lookup j a b r d h =
      let (c, e, last) =
        bind-some (convert_reserved parse_bytes (lookup "reserved" a) a)
          (λ c. some (convert_devices (lookup "devices" c) c)) b h in
      ground (
        arith,
        last,
        convert_devices-lookup j (lookup "devices" c) c d,
        convert_reserved-lookup j (lookup "reserved" a) a c r e,
      )

  convert-sized :
      (attributes c : Dict Variant)
      → convert parse_bytes attributes ≡ some c
      → (lookup "mem" c ≡ sized (lookup "mem" attributes))
        × (lookup "disk" c ≡ sized (lookup "disk" attributes))
        × (lookup "cpu" c ≡ lookup "cpu" attributes)
  unfolding convert
  convert-sized attributes c h =
      let (b, e, last) =
        bind-some (convert_at parse_bytes "mem" attributes >>= convert_at parse_bytes "disk")
          (convert_parts parse_bytes) c h in
      let (a, e', next) =
        bind-some (convert_at parse_bytes "mem" attributes) (convert_at parse_bytes "disk") b e in
      (
        convert_parts-lookup "mem" b c refl refl last
            ∙ convert_at-lookup "disk" "mem" a b next
            ∙ convert_at-lookup "mem" "mem" attributes a e',
        convert_parts-lookup "disk" b c refl refl last
            ∙ convert_at-lookup "disk" "disk" a b next
            ∙ ap sized (convert_at-lookup "mem" "disk" attributes a e'),
        convert_parts-lookup "cpu" b c refl refl last
            ∙ convert_at-lookup "disk" "cpu" a b next
            ∙ convert_at-lookup "mem" "cpu" attributes a e',
      )

  sized_number : (o : Option Variant) → (sized o >>= get_string_value) ≡ none
  unfolding get_string_value
  sized_number none = refl
  sized_number (some (int_value n)) = refl
  sized_number (some (bool_value b)) = refl
  sized_number (some (slice_value vs)) = refl
  sized_number (some (map_value m)) = refl
  sized_number (some (string_value s)) = ground arith

  -- Where the attributes of a pool can be read, "mem" and "disk" are no texts afterwards: what was a text
  -- is the number of megabytes that it stands for, and anything else is as it was, as "cpu" is.
  pub convert_lem :
      (attributes c : Dict Variant)
      → convert parse_bytes attributes ≡ some c
      → (string_at "mem" c ≡ none)
        × (string_at "disk" c ≡ none)
        × (lookup "mem" c ≡ sized (lookup "mem" attributes))
        × (lookup "disk" c ≡ sized (lookup "disk" attributes))
        × (lookup "cpu" c ≡ lookup "cpu" attributes)
  convert_lem attributes c h =
      let (mem, disk, cpu) = convert-sized attributes c h in
      (
        ap (λ o. o >>= get_string_value) mem ∙ sized_number (lookup "mem" attributes),
        ap (λ o. o >>= get_string_value) disk ∙ sized_number (lookup "disk" attributes),
        mem,
        disk,
        cpu,
      )
