-- ===== src/Bottlerocket/Ec2/Launch.antt =====
-- bottlerocket/agents/src/bin/ec2-resource-agent/ec2_provider.rs: the launch of instances, of each type in
-- each subnet, until one request succeeds.
pub mod Memos
pub mod Order
use Prim.Native.String.{◌++◌ as concat}
use bottlerocket_test_system.Base.{
  ℕ, zero, suc, String, Bool, false, Option, none, some, List, [], ◌∷◌, is_empty, str_eq, unwrap_or,
  if◌then◌else◌,
}
use bottlerocket_test_system.Base.Result.{Result, err}
use bottlerocket_test_system.Base.Exec.{Exec, ◌>>=◌, ◌>>◌, pure, read, attempt, match_result}
use bottlerocket_test_system.Agents.ResourceAgent.ProviderError.{clear, remaining, ProviderError}
use bottlerocket_test_system.Agents.Utils.Ssm.{SdkError, service_error}
use bottlerocket_test_system.Bottlerocket.AgentConfig.{Ec2Config}
use bottlerocket_test_system.Bottlerocket.Provider.{InfoClient, tried, needed, in_time}
use bottlerocket_test_system.Bottlerocket.Ec2.{
  ProductionMemo, Ec2Client, Cloud, RunInstances, Instance, Architecture, x86_64, arm64, other,
  resources_situation, tag_specifications, userdata, default_instance_count,
}

-- `RunInstancesOutput`: its instances
abbrev pub RunInstancesOutput : Type 0
RunInstancesOutput = Option (List Instance)

abbrev first : {A : Type 0} → List A → Option A
first [] = none
first (x ∷ xs) = some x

abbrev type_for : Architecture → String
type_for x86_64 = "m5.large"
type_for arm64 = "m6g.large"
type_for other = "m6g.large"

-- an error after which the request is repeated
abbrev is_invalid : Result SdkError RunInstancesOutput → Bool
is_invalid (err (service_error (some code) text)) = str_eq code "InvalidParameterValue"
is_invalid r = false

module _ {W : Type 0} (ec2_client : Ec2Client W) where
  pub instance_type : String → ProductionMemo → Exec W ProviderError String
  unfolding tried needed resources_situation
  instance_type node_ami memo = do
    let r = resources_situation memo
    described ← tried r "Unable to get ami architecture" (ec2_client.describe_images node_ami)
    images ← needed r "Unable to get ami architecture" described
    image ← needed r "Unable to get ami architecture" (first images)
    arch ← needed r "Ami has no architecture" image
    pure (type_for arch)

  -- The loop, for a number of rounds: `none` says that they were not enough.
  wait_for_successful_run_instances :
      (ℕ → W → W)
      → RunInstances
      → ℕ
      → Exec W ProviderError (Option (Result SdkError RunInstancesOutput))
  wait_for_successful_run_instances sleep request zero = pure none
  wait_for_successful_run_instances sleep request (suc rounds) = do
    result ← attempt (ec2_client.run_instances request)
    let again : Exec W ProviderError (Option (Result SdkError RunInstancesOutput)) =
        λ w. wait_for_successful_run_instances sleep request rounds (sleep 10_000 w)
    (if is_invalid result then again else pure (some result))

-- the types that are given, or else the one for the image
types_of :
    {W : Type 0}
    → Ec2Client W
    → String
    → ProductionMemo
    → List String
    → Exec W ProviderError (List String)
unfolding instance_type
types_of ec2_client node_ami memo [] = do
  one ← instance_type ec2_client node_ami memo
  pure (one ∷ [])
types_of ec2_client node_ami memo (t ∷ ts) = pure (t ∷ ts)

abbrev with_status : ProductionMemo → String → ProductionMemo
with_status memo text = record memo { current_status = text }

abbrev in_place : String → String → String → String
in_place before instance_type subnet_id =
    concat before (concat instance_type (concat "' in '" (concat subnet_id "'")))

-- No security group leaves the field unset.
abbrev groups_of : List String → Option (List String)
groups_of groups = if is_empty groups then none else some groups

-- the request
request_of :
    Ec2Config → ℕ → (instance_uuid instance_type subnet_id user_data : String) → RunInstances
unfolding tag_specifications
request_of config count instance_uuid instance_type subnet_id user_data = record {
  min_count = count;
  max_count = count;
  subnet_id = subnet_id;
  security_group_ids = groups_of config.security_groups;
  image_id = config.node_ami;
  instance_type = instance_type;
  tag_specifications = tag_specifications config.cluster_type config.cluster_name instance_uuid;
  user_data = user_data;
  iam_instance_profile_arn = config.instance_profile_arn;
  http_tokens = "required";
  http_endpoint = "enabled";
  http_put_response_hop_limit = 1;
}

-- What the loop holds: the output of the request that succeeded, and the memo.
abbrev pub Launched : Type 0
Launched = Option RunInstancesOutput × ProductionMemo

-- the rest of the loop, where nothing was launched yet
unfoldable pub or_else :
    {W : Type 0}
    → Launched
    → (ProductionMemo → Exec W ProviderError Launched)
    → Exec W ProviderError Launched
or_else (none, memo) rest = rest memo
or_else (some output, memo) rest = pure (some output, memo)

module _ {W : Type 0} (c : Cloud W) (ec2_client : Ec2Client W)
    (client : InfoClient W ProductionMemo) (config : Ec2Config) (instance_uuid : String)
    (count rounds : ℕ) where
  -- one type in one subnet
  unfoldable pub launch : String → String → ProductionMemo → Exec W ProviderError Launched
  unfolding tried in_time wait_for_successful_run_instances request_of userdata
  launch instance_type subnet_id memo = do
    let starting = with_status memo (in_place "Launching '" instance_type subnet_id)
    tried clear "Error sending cluster creation message" (client.send_info starting)
    user_data ← read λ w.
        userdata c config.cluster_type config.cluster_name config.endpoint config.certificate
          config.cluster_dns_ip config.custom_user_data starting
    run_instance_output ← in_time clear "Failed to run instances within the time limit" (
        wait_for_successful_run_instances ec2_client c.sleep
          (request_of config count instance_uuid instance_type subnet_id user_data) rounds)
    let launched = with_status memo (in_place "Launched '" instance_type subnet_id)
    match_result (run_instance_output)
        (λ result.
          tried remaining "Error sending cluster creation message" (client.send_info launched)
          >> pure (some result, launched))
        (λ e. pure (none, starting))

  -- one type in every subnet
  unfoldable pub launch_in : String → List String → ProductionMemo → Exec W ProviderError Launched
  unfolding launch or_else
  launch_in instance_type [] memo = pure (none, memo)
  launch_in instance_type (subnet_id ∷ subnet_ids) memo = do
    launched ← launch instance_type subnet_id memo
    or_else launched (λ m. launch_in instance_type subnet_ids m)

  unfoldable pub launch_types : List String → ProductionMemo → Exec W ProviderError Launched
  unfolding launch_in or_else
  launch_types [] memo = pure (none, memo)
  launch_types (instance_type ∷ instance_types) memo = do
    launched ← launch_in instance_type config.subnet_ids memo
    or_else launched (λ m. launch_types instance_types m)

-- the memo is changed by the loop
unfoldable pub run_instances :
    {W : Type 0}
    → Cloud W
    → Ec2Client W
    → InfoClient W ProductionMemo
    → Ec2Config
    → String
    → ℕ
    → ProductionMemo
    → Exec W ProviderError (RunInstancesOutput × ProductionMemo)
unfolding types_of launch_types needed
run_instances c ec2_client client config instance_uuid rounds memo = do
  instance_types ← types_of ec2_client config.node_ami memo config.instance_types
  let count = unwrap_or default_instance_count config.instance_count
  launched ← launch_types c ec2_client client config instance_uuid count rounds instance_types memo
  output ←
      needed clear
        "Failed to create instances of any of the provided types in any of the provided subnets"
        launched.0
  pure (output, launched.1)
