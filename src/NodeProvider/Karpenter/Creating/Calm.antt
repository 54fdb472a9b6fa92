-- ===== src/NodeProvider/Karpenter/Creating/Calm.antt =====
-- The steps of karpenter_create.go that do not panic: all but the division.
use nomad_ondemand_scaler.Prelude.{
  ℕ, ◌≡◌, ◌≢◌, inl, inr, refl, String, Bool, true, false, Option, none, some, List, [], ◌∷◌,
  Bool-cases,
}
use nomad_ondemand_scaler.Prelude.Int.{ℤ}
use nomad_ondemand_scaler.Variant.{Any, AnyMap, any_map, Reading, read, refused, panicked}
use nomad_ondemand_scaler.PoolSpec.{Resources}
use nomad_ondemand_scaler.NodeProvider.Karpenter.Creating.{
  Casts, InstancesSpec, ◌>>=◌, or_refuse, param, as_params, as_string, only_texts, name_param,
  texts_param, profile_param, template_param, requirements, reqs_param, new_k8s_kapenter_provider,
  create_with_resources,
}

abbrev pub IsCalm : {A : Type 0} → Reading A → Type 0
IsCalm r = r ≢ panicked

pub IsCalm-bind :
    {A B : Type 0} (r : Reading A) (f : A → Reading B)
    → IsCalm r
    → ((x : A) → IsCalm (f x))
    → IsCalm (r >>= f)
IsCalm-bind (read x) f h g = g x
IsCalm-bind (refused message) f h g = λ e. cc e
IsCalm-bind panicked f h g = λ e. h refl

pub bind-panicked :
    {A B : Type 0} (r : Reading A) (f : A → Reading B)
    → IsCalm r
    → r >>= f ≡ panicked
    → (x : A) × (r ≡ read x) × (f x ≡ panicked)
bind-panicked (read x) f h g = (x, refl, g)
bind-panicked (refused message) f h g = absurd (cc g)
bind-panicked panicked f h g = absurd (h refl)

-- Where what follows is calm, the panic is here.
pub bind-head :
    {A B : Type 0} (r : Reading A) (f : A → Reading B)
    → ((x : A) → IsCalm (f x))
    → r >>= f ≡ panicked
    → r ≡ panicked
bind-head (read x) f h g = absurd (h x g)
bind-head (refused message) f h g = absurd (cc g)
bind-head panicked f h g = refl

pub or_refuse-IsCalm : {A : Type 0} (message : String) (x : Option A) → IsCalm (or_refuse message x)
or_refuse-IsCalm message none = λ e. cc e
or_refuse-IsCalm message (some x) = λ e. cc e

pub as_params-IsCalm : (x : Any) → IsCalm (as_params x)
unfolding as_params
as_params-IsCalm (any_map m) = elim (Bool-cases (only_texts m)) [
  | inl e ↦ rw e (λ e. cc e)
  | inr e ↦ rw e (λ e. cc e)
]
as_params-IsCalm _ = λ e. cc e

module _ (casts : Casts) (itoa : ℤ → String) where
  pub name_param-IsCalm : (x : Option Any) → IsCalm (name_param casts itoa x)
  unfolding name_param
  name_param-IsCalm none = λ e. cc e
  name_param-IsCalm (some x) = or_refuse-IsCalm "param name of wrong type" (casts.to_string_e x)

  texts_param-IsCalm :
      (message : String) (x : Option Any) → IsCalm (texts_param casts itoa message x)
  unfolding texts_param
  texts_param-IsCalm message none = λ e. cc e
  texts_param-IsCalm message (some x) = or_refuse-IsCalm message (casts.to_string_map_string_e x)

  profile_param-IsCalm : (x : Option Any) → IsCalm (profile_param casts itoa x)
  unfolding profile_param
  profile_param-IsCalm none = λ e. cc e
  profile_param-IsCalm (some x) =
      or_refuse-IsCalm "params have no profile of wrong type" (as_string x)

  template_param-IsCalm : (x : Option Any) → IsCalm (template_param casts itoa x)
  unfolding template_param
  template_param-IsCalm none = λ e. cc e
  template_param-IsCalm (some x) =
      IsCalm-bind (or_refuse "params have no launchtemplate of wrong type" (as_string x)) _
        (or_refuse-IsCalm "params have no launchtemplate of wrong type" (as_string x)) (λ s e. cc e)

  requirements-IsCalm : (xs : List Any) → IsCalm (requirements casts itoa xs)
  unfolding requirements
  requirements-IsCalm [] = λ e. cc e
  requirements-IsCalm (x ∷ xs) =
      IsCalm-bind (or_refuse "unable to cast to map[string]interface{}" (casts.to_string_map_e x)) _
        (or_refuse-IsCalm "unable to cast to map[string]interface{}" (casts.to_string_map_e x))
        (λ m. IsCalm-bind (requirements casts itoa xs) _ (requirements-IsCalm xs) (λ rest e. cc e))

  reqs_param-IsCalm : (x : Option Any) → IsCalm (reqs_param casts itoa x)
  unfolding reqs_param
  reqs_param-IsCalm none = λ e. cc e
  reqs_param-IsCalm (some x) =
      IsCalm-bind (or_refuse "unable to cast to []interface{}" (casts.to_slice_e x)) _
        (or_refuse-IsCalm "unable to cast to []interface{}" (casts.to_slice_e x))
        (λ xs. requirements-IsCalm xs)

  new_k8s_kapenter_provider-IsCalm :
      (plugin : Bool) (listed : Option (List String)) (now : ℕ) (name : String)
      (spec : InstancesSpec)
      → IsCalm (new_k8s_kapenter_provider casts itoa plugin listed now name spec)
  unfolding new_k8s_kapenter_provider
  new_k8s_kapenter_provider-IsCalm false listed now name spec = λ e. cc e
  new_k8s_kapenter_provider-IsCalm true none now name spec = λ e. cc e
  new_k8s_kapenter_provider-IsCalm true (some ids) now name spec = λ e. cc e

  pub create_with_resources-IsCalm :
      (plugin : Bool) (listed : Option (List String)) (now : ℕ) (m : AnyMap) (name : String)
      (res : Option Resources)
      → IsCalm (create_with_resources casts itoa plugin listed now m name res)
  unfolding create_with_resources
  create_with_resources-IsCalm plugin listed now m name res =
      IsCalm-bind (texts_param casts itoa _ (param "ami" m)) _
        (texts_param-IsCalm _ (param "ami" m))
        (λ ami.
          IsCalm-bind (texts_param casts itoa _ (param "securitygroups" m)) _
            (texts_param-IsCalm _ (param "securitygroups" m))
            (λ groups.
              IsCalm-bind (texts_param casts itoa _ (param "subnets" m)) _
                (texts_param-IsCalm _ (param "subnets" m))
                (λ subnets.
                  IsCalm-bind (profile_param casts itoa (param "profile" m)) _
                    (profile_param-IsCalm (param "profile" m))
                    (λ profile.
                      IsCalm-bind (template_param casts itoa (param "launchtemplate" m)) _
                        (template_param-IsCalm (param "launchtemplate" m))
                        (λ template.
                          IsCalm-bind (reqs_param casts itoa (param "reqs" m)) _
                            (reqs_param-IsCalm (param "reqs" m))
                            (λ reqs. new_k8s_kapenter_provider-IsCalm plugin listed now name _))))))
