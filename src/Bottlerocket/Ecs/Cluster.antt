-- ===== src/Bottlerocket/Ecs/Cluster.antt =====
-- bottlerocket/agents/src/bin/ecs-resource-agent/ecs_provider.rs: what is read and made around an ECS cluster: the
-- profile of its instances, its network and its configuration. The wait with a time limit runs for a
-- number of rounds, those that fit into its limit.
use bottlerocket_test_system.Base.{
  ℕ, zero, suc, String, Bool, true, false, Option, none, some, List, [], ◌∷◌, str_eq, if◌then◌else◌,
}
use bottlerocket_test_system.Base.Result.{Result, err}
use bottlerocket_test_system.Base.Exec.{Exec, ◌>>=◌, ◌>>◌, pure, context, attempt}
use bottlerocket_test_system.Agents.ResourceAgent.ProviderError.{
  clear, remaining, unknown, ProviderError, new_with_source_and_context,
}
use bottlerocket_test_system.Agents.Utils.Aws.{SdkConfig, aws_config}
use bottlerocket_test_system.Agents.Utils.Ssm.{SdkError, service_error}
use bottlerocket_test_system.Bottlerocket.Provider.{tried, needed}
use bottlerocket_test_system.Bottlerocket.Ecs.{
  iam_instance_profile_name, CreatedCluster, Profile, IamClient, Subnet, Ec2Client, EcsClient,
  Cloud,
}

-- Whether an error says that the entity does not exist.
pub exists : {A : Type 0} → Result SdkError A → Bool
exists (err (service_error (some code) text)) = if str_eq code "NoSuchEntity" then false else true
exists r = true

pub data SubnetType : Type 0 where
  public_subnet private_subnet : SubnetType

-- whether a subnet is of the type
abbrev is_of : SubnetType → Option Bool → Bool
is_of public_subnet (some true) = true
is_of private_subnet (some false) = true
is_of t o = false

-- an id that may be missing, and the ids after it
abbrev with_id : Option String → List String → List String
with_id none ids = ids
with_id (some i) ids = i ∷ ids

-- the ids of the subnets of a type
unfoldable pub ids_of : SubnetType → List Subnet → List String
ids_of t [] = []
ids_of t (s ∷ ss) =
    if is_of t s.map_public_ip_on_launch then with_id s.subnet_id (ids_of t ss) else ids_of t ss

-- the first item of a list that may be missing
abbrev first_of : Option (List (Option String)) → Option String
first_of (some (x ∷ xs)) = x
first_of o = none

abbrev arn_of : Option Profile → Option String
arn_of none = none
arn_of (some p) = p

-- Whether container instances are listed.
abbrev are_listed : Option (List String) → Bool
are_listed (some (x ∷ xs)) = true
are_listed o = false

abbrev ecs_role_policy_document : String
ecs_role_policy_document =
    "{\n    \"Version\": \"2008-10-17\",\n    \"Statement\": [\n        {\n        \"Sid\": \"\",\n        \"Effect\": \"Allow\",\n        \"Principal\": {\n            \"Service\": \"ec2.amazonaws.com\"\n        },\n        \"Action\": \"sts:AssumeRole\"\n        }\n    ]\n}"

module _ {W : Type 0} (c : Cloud W) where
  abbrev sdk : {A : Type 0} → Exec W SdkError A → Exec W String A
  sdk m = context c.show_sdk_error m

  unfoldable pub instance_profile_arn : IamClient W → String → Exec W ProviderError String
  unfolding tried needed
  instance_profile_arn iam_client name = do
    profile ←
        tried remaining "Unable to get instance profile."
          (sdk (iam_client.get_instance_profile name))
    needed remaining "Instance profile does not contain an arn." (arn_of profile)

  abbrev new_profile : IamClient W → Exec W ProviderError (Unit {0})
  unfolding tried
  new_profile iam_client = do
    tried remaining "Unable to create new role."
        (iam_client.send_create_role iam_instance_profile_name ecs_role_policy_document)
    tried remaining "Unable to attach AmazonSSM policy" (
        iam_client.send_attach_role_policy iam_instance_profile_name
          "arn:aws:iam::aws:policy/AmazonSSMManagedInstanceCore")
    tried remaining "Unable to attach AmazonEC2ContainerServiceforEC2Role policy" (
        iam_client.send_attach_role_policy iam_instance_profile_name
          "arn:aws:iam::aws:policy/service-role/AmazonEC2ContainerServiceforEC2Role")
    tried remaining "Unable to create instance profile"
        (iam_client.send_create_instance_profile iam_instance_profile_name)
    tried remaining "Unable to add role to instance profile" (
        iam_client.send_add_role_to_instance_profile iam_instance_profile_name
          iam_instance_profile_name)

  unfoldable pub create_iam_instance_profile : IamClient W → Exec W ProviderError String
  unfolding new_profile exists instance_profile_arn
  create_iam_instance_profile iam_client = do
    result ← attempt (iam_client.get_instance_profile iam_instance_profile_name)
    (if exists result then pure tt else new_profile iam_client)
    instance_profile_arn iam_client iam_instance_profile_name

  unfoldable pub default_vpc : Ec2Client W → Exec W ProviderError String
  unfolding tried needed
  default_vpc ec2_client = do
    vpcs ←
        tried remaining "VPC list is missing." (ec2_client.describe_vpcs ("isDefault", "true" ∷ []))
    needed remaining "The default vpc has no vpc id." (first_of vpcs)

  unfoldable pub subnet_ids : Ec2Client W → SubnetType → String → Exec W ProviderError (List String)
  unfolding tried needed ids_of
  subnet_ids ec2_client subnet_type vpc_id = do
    described ←
        tried remaining "Unable to get subnet information."
          (ec2_client.describe_subnets ("vpc-id", vpc_id ∷ []))
    subnets ← needed remaining "Unable to get subnets." described
    pure (ids_of subnet_type subnets)

  abbrev pub vpc_or_default : Ec2Client W → Option String → Exec W ProviderError String
  unfolding default_vpc
  vpc_or_default ec2_client none = default_vpc ec2_client
  vpc_or_default ec2_client (some vpc) = pure vpc

  unfoldable pub created_cluster :
      SdkConfig
      → (cluster_name region : String) → Option String
      → String
      → Exec W ProviderError CreatedCluster
  unfolding vpc_or_default subnet_ids
  created_cluster shared_config cluster_name region vpc iam_instance_profile_arn = do
    vpc_id ← vpc_or_default (c.ec2 shared_config) vpc
    public_ids ← subnet_ids (c.ec2 shared_config) public_subnet vpc_id
    private_ids ← subnet_ids (c.ec2 shared_config) private_subnet vpc_id
    pure (record {
      cluster_name = cluster_name;
      region = region;
      public_subnet_ids = public_ids;
      private_subnet_ids = private_ids;
      iam_instance_profile_arn = iam_instance_profile_arn;
    })

  -- The loop, for a number of rounds: `none` says that they were not enough.
  unfoldable pub wait_for_ecs_instances_deregister :
      EcsClient W → String → ℕ → Exec W ProviderError (Option (Unit {0}))
  unfolding tried
  wait_for_ecs_instances_deregister ecs_client cluster_name zero = pure none
  wait_for_ecs_instances_deregister ecs_client cluster_name (suc rounds) = do
    listed ←
        tried unknown "Unable to list container instances for ECS cluster"
          (ecs_client.list_container_instances cluster_name)
    let again : Exec W ProviderError (Option (Unit {0})) =
        λ w. wait_for_ecs_instances_deregister ecs_client cluster_name rounds (c.sleep 10_000 w)
    (if are_listed listed then again else pure (some tt))

  abbrev pub config_of : (secret role region : Option String) → Exec W ProviderError SdkConfig
  config_of secret role region =
      context (λ e. new_with_source_and_context clear "Error creating config" (c.show_error e))
        (aws_config c.environment secret role none region none false)
