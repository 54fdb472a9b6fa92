-- ===== src/NodeProvider/Karpenter/Creating.antt =====
-- nodeprovider/karpenter_create.go and `NewK8sKapenterProvider` of nodeprovider/karpenter.go: a provider from
-- the parameters of a pool. The casts are those of a third party. An error keeps its text without what is
-- quoted in it.
pub mod Calm
pub mod Divided
pub mod Begun
use Prim.Native.String.{◌++◌ as str_append}
use nomad_ondemand_scaler.Prelude.{
  ℕ, zero, String, Bool, true, false, Option, none, some, List, [], ◌∷◌, ◌++◌, ◌==◌, if◌then◌else◌,
  str_eq,
}
use nomad_ondemand_scaler.Prelude.Int.{ℤ, pos, negsuc, quotient_64}
use nomad_ondemand_scaler.Prelude.Dict.{Dict, insert, lookup}
use nomad_ondemand_scaler.Variant.{
  Any, AnyMap, any_map, any_string, no_key, key, other_key, Reading, read, refused, panicked,
}
use nomad_ondemand_scaler.PoolSpec.{Resources}
use nomad_ondemand_scaler.NodeProvider.Karpenter.{Karpenter, read_listed}

-- `none` is an error. The last three have none, and go on with a zero value.
pub record Casts : Type 0 where
  pub to_string_e : Any → Option String
  pub to_int_e : Any → Option ℤ
  pub to_string_map_string_e : Any → Option (Dict String)
  pub to_slice_e : Any → Option (List Any)
  pub to_string_map_e : Any → Option (Dict Any)
  pub to_string : Any → String
  pub to_string_slice : Any → List String

pub record Requirement : Type 0 where
  pub key : String
  pub operator : String
  pub values : List String

-- `AddInstancesSpec`, where `none` for the resources is a nil map.
pub record InstancesSpec : Type 0 where
  pub ami : Dict String
  pub security_groups : Dict String
  pub subnets : Dict String
  pub instance_profile : String
  pub launch_template : Option String
  pub requirements : List Requirement
  pub resources : Option (Dict String)

pub record Provided : Type 0 where
  pub name : String
  pub spec : InstancesSpec
  pub provider : Karpenter

infixl 55 ◌>>=◌
abbrev pub ◌>>=◌ : {A B : Type 0} → Reading A → (A → Reading B) → Reading B
(read x) >>= f = f x
(refused message) >>= f = refused message
panicked >>= f = panicked

abbrev pub or_refuse : {A : Type 0} → String → Option A → Reading A
or_refuse message none = refused message
or_refuse message (some x) = read x

-- `params[name]`, a map with a key that is no text being of another type.
unfoldable pub param : String → AnyMap → Option Any
param name no_key = none
param name (key k x m) = if str_eq k name then some x else param name m
param name (other_key x m) = param name m

abbrev pub only_texts : AnyMap → Bool
only_texts no_key = true
only_texts (key k x m) = only_texts m
only_texts (other_key x m) = false

unfoldable pub as_params : Any → Reading AnyMap
as_params (any_map m) =
    if only_texts m then read m else refused "params is not map[string]interface{}"
as_params _ = refused "params is not map[string]interface{}"

-- `x.(string)`.
abbrev pub as_string : Any → Option String
as_string (any_string s) = some s
as_string _ = none

module _ (casts : Casts) (itoa : ℤ → String) where
  unfoldable pub name_param : Option Any → Reading String
  name_param none = refused "params have no name attribute"
  name_param (some x) = or_refuse "param name of wrong type" (casts.to_string_e x)

  abbrev pub divided : Resources → Option ℤ → Reading Resources
  divided res none = panicked
  divided res (some cpu) = read (record res { cpu = cpu })

  -- Without resources the parameter may be missing: the cast takes nil for a 0.
  unfoldable pub per_core : Option Resources → Option Any → Reading (Option Resources)
  per_core none none = read none
  per_core (some res) none = refused "params have no freqPerCpuCore attribute"
  per_core none (some x) =
      or_refuse "param freqPerCpuCore of wrong type" (casts.to_int_e x) >>= λ freq. read none
  per_core (some res) (some x) =
      or_refuse "param freqPerCpuCore of wrong type" (casts.to_int_e x) >>= λ freq.
      divided res (quotient_64 res.cpu freq) >>= λ res'. read (some res')

  unfoldable pub texts_param : String → Option Any → Reading (Dict String)
  texts_param message none = read []
  texts_param message (some x) = or_refuse message (casts.to_string_map_string_e x)

  unfoldable pub profile_param : Option Any → Reading String
  profile_param none = read ""
  profile_param (some x) = or_refuse "params have no profile of wrong type" (as_string x)

  unfoldable pub template_param : Option Any → Reading (Option String)
  template_param none = read none
  template_param (some x) =
      or_refuse "params have no launchtemplate of wrong type" (as_string x) >>= λ s. read (some s)

  abbrev pub operator_of : Option Any → String
  operator_of none = "In"
  operator_of (some x) = casts.to_string x

  -- One without a key or without values is left out.
  unfoldable pub requirement : Dict Any → Option Any → Option Any → List Requirement
  requirement m none values = []
  requirement m (some k) none = []
  requirement m (some k) (some values) =
      record {
        key = casts.to_string k;
        operator = operator_of (lookup "Op" m);
        values = casts.to_string_slice values;
      }
      ∷ []

  unfoldable pub requirements : List Any → Reading (List Requirement)
  unfolding requirement
  requirements [] = read []
  requirements (x ∷ xs) =
      or_refuse "unable to cast to map[string]interface{}" (casts.to_string_map_e x) >>= λ m.
      requirements xs >>= λ rest. read (requirement m (lookup "Key" m) (lookup "Values" m) ++ rest)

  unfoldable pub reqs_param : Option Any → Reading (List Requirement)
  unfolding requirements
  reqs_param none = refused "params have no reqs"
  reqs_param (some x) =
      or_refuse "unable to cast to []interface{}" (casts.to_slice_e x) >>= λ xs. requirements xs

  abbrev pub is_zero : ℤ → Bool
  is_zero (pos n) = n == 0
  is_zero (negsuc n) = false

  unfoldable pub add_text : String → ℤ → String → Dict String → Dict String
  add_text name n unit m = if is_zero n then m else insert name (str_append (itoa n) unit) m

  unfoldable pub resource_texts : Option Resources → Option (Dict String)
  unfolding add_text
  resource_texts none = none
  resource_texts (some res) = some (
      add_text "storage" res.disk "Mi"
        (add_text "memory" res.mem "Mi" (add_text "cpu" res.cpu "m" [])))

  -- `plugin` is whether the plugin started and was dispensed, `listed` its first answer, and `now` the time.
  unfoldable pub new_k8s_kapenter_provider :
      Bool → Option (List String) → ℕ → String → InstancesSpec → Reading Provided
  unfolding read_listed
  new_k8s_kapenter_provider false listed now name spec =
      refused "aws karenter provider returned error"
  new_k8s_kapenter_provider true none now name spec = refused "aws karenter provider returned error"
  new_k8s_kapenter_provider true (some ids) now name spec = read (record {
    name = name;
    spec = spec;
    provider = record {
      known = record { state = read_listed ids []; last_updatetime = now };
      incephemeral = [];
    };
  })

  -- The parameters after the resources.
  unfoldable pub create_with_resources :
      Bool → Option (List String) → ℕ → AnyMap → String → Option Resources → Reading Provided
  unfolding param texts_param profile_param template_param reqs_param resource_texts
      new_k8s_kapenter_provider
  create_with_resources plugin listed now m name res = do
    ami ← texts_param "params have no ami of wrong type" (param "ami" m)
    groups ← texts_param "params have no securitygroups of wrong type" (param "securitygroups" m)
    subnets ← texts_param "params have no subnets of wrong type" (param "subnets" m)
    profile ← profile_param (param "profile" m)
    template ← template_param (param "launchtemplate" m)
    reqs ← reqs_param (param "reqs" m)
    new_k8s_kapenter_provider plugin listed now name (record {
      ami = ami;
      security_groups = groups;
      subnets = subnets;
      instance_profile = profile;
      launch_template = template;
      requirements = reqs;
      resources = resource_texts res;
    })

  unfoldable pub create_karpenter_provider :
      Bool → Option (List String) → ℕ → Any → Option Resources → Reading Provided
  unfolding as_params param name_param per_core create_with_resources
  create_karpenter_provider plugin listed now params res = do
    m ← as_params params
    name ← name_param (param "name" m)
    res' ← per_core res (param "freqPerCpuCore" m)
    create_with_resources plugin listed now m name res'
