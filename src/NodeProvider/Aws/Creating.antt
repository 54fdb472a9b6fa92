-- ===== src/NodeProvider/Aws/Creating.antt =====
-- nodeprovider/awsautoscalegroupv2_create.go and `NewAwsAutoscaleGroupProvider` of
-- nodeprovider/awsautoscalegroupv2.go: a provider from the parameters of a pool.
use nomad_ondemand_scaler.Prelude.{ℕ, String, Bool, Option, none, some, List, []}
use nomad_ondemand_scaler.Prelude.Dict.{Dict}
use nomad_ondemand_scaler.Variant.{
  Any, Anys, any_slice, any_string, no_item, item, Reading, read, refused, panicked,
}
use nomad_ondemand_scaler.NodeProvider.Aws.{
  Provider, Described, Updated, updated, update_failed, update_state_from_aws,
}

-- `none` is no answer, for which the call waits.
unfoldable pub new_provider : ℕ → Option (Dict Bool × Updated) → Option (Reading Provider)
new_provider now none = none
new_provider now (some (state, updated desired)) =
    some (read (record { state = state; last_updatetime = now }))
new_provider now (some (state, update_failed)) =
    some (refused "can't create aws autoscale provider")

-- `answers` are those of AWS for the group of a name.
unfoldable pub new_aws_autoscale_group_provider :
    (String → List Described) → ℕ → String → Option (Reading Provider)
unfolding new_provider update_state_from_aws
new_aws_autoscale_group_provider answers now asg_name =
    new_provider now (update_state_from_aws (answers asg_name) [])

-- A call by reflection panics on any arguments but one text.
unfoldable pub call_with : (String → List Described) → ℕ → Anys → Option (Reading Provider)
unfolding new_aws_autoscale_group_provider
call_with answers now (item (any_string asg_name) no_item) =
    new_aws_autoscale_group_provider answers now asg_name
call_with answers now _ = some panicked

unfoldable pub create_aws_autoscale_group :
    (String → List Described) → ℕ → Any → Option (Reading Provider)
unfolding call_with
create_aws_autoscale_group answers now (any_slice args) = call_with answers now args
create_aws_autoscale_group answers now _ = some (refused "params is not []string")
