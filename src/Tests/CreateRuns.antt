-- ===== src/Tests/CreateRuns.antt =====
-- A provider of karpenter_create.go, with casts that take texts and numbers as they are.
use nomad_ondemand_scaler.Prelude.{
  ℕ, ◌≡◌, ◌↔◌, refl, String, true, false, Option, none, some, [], ◌∷◌,
}
use nomad_ondemand_scaler.Prelude.Int.{ℤ, pos, quotient_64, ◌-ℤ◌}
use nomad_ondemand_scaler.Variant.{
  Any, any_int, any_string, any_slice, any_map, no_item, no_key, key, panicked,
}
use nomad_ondemand_scaler.PoolSpec.{Resources}
use nomad_ondemand_scaler.NodeProvider.Karpenter.Racing.{World, start_adder}
use nomad_ondemand_scaler.NodeProvider.Karpenter.{Karpenter, Sized, ask_for}
use nomad_ondemand_scaler.NodeProvider.Karpenter.Creating.{
  Casts, Provided, create_karpenter_provider,
}
use nomad_ondemand_scaler.NodeProvider.Karpenter.Creating.Divided.{
  IsDividedByZero, create_karpenter_provider-panicked,
}

abbrev text_of : Any → Option String
text_of (any_string s) = some s
text_of _ = none

abbrev int_of : Any → Option ℤ
int_of (any_int n) = some n
int_of _ = none

abbrev casts : Casts
casts = record {
  to_string_e = text_of;
  to_int_e = int_of;
  to_string_map_string_e = λ x. some [];
  to_slice_e = λ x. some [];
  to_string_map_e = λ x. some [];
  to_string = λ x. "";
  to_string_slice = λ x. [];
}

abbrev itoa : ℤ → String
itoa n = "4"

abbrev with_freq : ℕ → Any
with_freq freq = any_map (
    key "name" (any_string "a")
      (key "freqPerCpuCore" (any_int (pos freq)) (key "reqs" (any_slice no_item) no_key)))

abbrev small : Resources
small = record { cpu = pos 4000; mem = pos 512; disk = pos 0 }

create_karpenter_provider-panicked_example :
    (create_karpenter_provider casts itoa true (some []) 7 (with_freq 0) (some small) ≡ panicked)
    ↔ IsDividedByZero casts itoa (with_freq 0) (some small)
create_karpenter_provider-panicked_example =
    create_karpenter_provider-panicked casts itoa true (some []) 7 (with_freq 0) (some small)

panics : create_karpenter_provider casts itoa true (some []) 7 (with_freq 0) (some small) ≡ panicked
unfolding create_karpenter_provider quotient_64
panics = refl

abbrev made : Provided
made = record {
  name = "a";
  spec = record {
    ami = [];
    security_groups = [];
    subnets = [];
    instance_profile = "";
    launch_template = none;
    requirements = [];
    resources = some (("cpu", "4m") ∷ ("memory", "4Mi") ∷ []);
  };
  provider = record {
    known = record { state = ("i-1", false) ∷ []; last_updatetime = 7 };
    incephemeral = [];
  };
}

-- UpdateNode asks for two more than the one that the provider knows.
abbrev first_ask : Karpenter × Sized
first_ask = ask_for "key" (pos 3 -ℤ (pos 1 -ℤ pos 0) -ℤ pos 0) (("i-1", false) ∷ []) made.provider

abbrev asking : World
asking = record { provider = first_ask.0; adders = start_adder "key" first_ask.1 [] }
