-- ===== src/NodeProvider/Karpenter/Creating/Divided.antt =====
-- When karpenter_create.go panics, and what a provider of it begins with.
use nomad_ondemand_scaler.Prelude.{
  ℕ, zero, suc, ◌≡◌, ◌↔◌, inl, inr, refl, ap, ◌∙◌, String, Bool, Option, none, some, List,
  Option-cases,
}
use nomad_ondemand_scaler.Prelude.Int.{ℤ, pos, negsuc, quotient_64}
use nomad_ondemand_scaler.Variant.{Any, AnyMap, read, panicked}
use nomad_ondemand_scaler.PoolSpec.{Resources}
use nomad_ondemand_scaler.NodeProvider.Karpenter.Creating.{
  Casts, ◌>>=◌, or_refuse, param, as_params, name_param, divided, per_core,
  create_karpenter_provider,
}
use nomad_ondemand_scaler.NodeProvider.Karpenter.Creating.Calm.{
  IsCalm-bind, bind-head, bind-panicked, or_refuse-IsCalm, as_params-IsCalm, name_param-IsCalm,
  create_with_resources-IsCalm,
}

module _ (casts : Casts) (itoa : ℤ → String) where
  -- Resources are given, and their cpu is to be divided by 0.
  abbrev pub IsDividedByZero : Any → Option Resources → Type 0
  IsDividedByZero params res =
      (m : AnyMap) × (name : String) × (r : Resources) × (x : Any) × (as_params params ≡ read m)
      × (name_param casts itoa (param "name" m) ≡ read name)
      × (res ≡ some r)
      × (param "freqPerCpuCore" m ≡ some x)
      × (casts.to_int_e x ≡ some (pos 0))

  quotient-none : (a freq : ℤ) → quotient_64 a freq ≡ none → freq ≡ pos 0
  unfolding quotient_64
  quotient-none a (pos zero) h = refl
  quotient-none (pos n) (pos (suc m)) h = absurd (cc h)
  quotient-none (negsuc n) (pos (suc m)) h = absurd (cc h)
  quotient-none (pos n) (negsuc m) h = absurd (cc h)
  quotient-none (negsuc n) (negsuc m) h = absurd (cc h)

  divided-panicked :
      (r : Resources) (q : Option ℤ)
      → divided casts itoa r q >>= (λ r'. read (some r')) ≡ panicked
      → q ≡ none
  divided-panicked r none h = refl
  divided-panicked r (some n) h = absurd (cc h)

  per_core-panicked :
      (res : Option Resources) (x : Option Any)
      → per_core casts itoa res x ≡ panicked
      → (r : Resources) × (y : Any) × (res ≡ some r)
        × (x ≡ some y)
        × (casts.to_int_e y ≡ some (pos 0))
  unfolding per_core
  per_core-panicked none none h = absurd (cc h)
  per_core-panicked (some r) none h = absurd (cc h)
  per_core-panicked none (some y) h = absurd (
      IsCalm-bind (or_refuse "param freqPerCpuCore of wrong type" (casts.to_int_e y))
        (λ freq. read none)
        (or_refuse-IsCalm "param freqPerCpuCore of wrong type" (casts.to_int_e y)) (λ freq e. cc e)
        h)
  per_core-panicked (some r) (some y) h = elim (Option-cases (casts.to_int_e y)) [
    | inl e ↦ absurd (cc (rw e at h))
    | inr (freq, e) ↦
        let zero_freq =
          quotient-none r.cpu freq (divided-panicked r (quotient_64 r.cpu freq) (rw e at h)) in
        (r, y, refl, refl, e ∙ ap some zero_freq)
  ]

  per_core-divided :
      (r : Resources) (y : Any)
      → casts.to_int_e y ≡ some (pos 0)
      → per_core casts itoa (some r) (some y) ≡ panicked
  unfolding per_core quotient_64
  per_core-divided r y h = rw h refl

  -- Whatever the casts and the plugin answer: the creation of a provider panics if and only if the parameters
  -- are a map with a name that can be cast, resources are given, and the parameter `freqPerCpuCore` is
  -- there and is cast to 0.
  pub create_karpenter_provider-panicked :
      (plugin : Bool) (listed : Option (List String)) (now : ℕ) (params : Any)
      (res : Option Resources)
      → (create_karpenter_provider casts itoa plugin listed now params res ≡ panicked)
        ↔ IsDividedByZero params res
  unfolding create_karpenter_provider
  create_karpenter_provider-panicked plugin listed now params res = (
    λ h.
        let (m, is_map, h₁) = bind-panicked (as_params params) _ (as_params-IsCalm params) h in
        let (name, is_name, h₂) =
          bind-panicked (name_param casts itoa (param "name" m)) _
            (name_param-IsCalm casts itoa (param "name" m)) h₁ in
        let calm = λ (res' : Option Resources).
          create_with_resources-IsCalm casts itoa plugin listed now m name res' in
        let (r, x, is_res, is_freq, is_zero) =
          per_core-panicked res (param "freqPerCpuCore" m)
            (bind-head (per_core casts itoa res (param "freqPerCpuCore" m)) _ calm h₂) in
        (m, name, r, x, is_map, is_name, is_res, is_freq, is_zero),
    λ (m, name, r, x, is_map, is_name, is_res, is_freq, is_zero).
        simp (is_map, is_name, is_res, is_freq, per_core-divided r x is_zero),
  )
