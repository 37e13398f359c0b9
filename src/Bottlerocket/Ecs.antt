-- ===== src/Bottlerocket/Ecs.antt =====
-- bottlerocket/agents/src/bin/ecs-resource-agent/ecs_provider.rs: the memo of the provider of ECS clusters, what
-- it answers, and the calls of AWS, which are calls of a world.
pub mod Cluster
pub mod Create
pub mod Leaks
use Prim.Native.String.{◌++◌ as concat}
use bottlerocket_test_system.Base.{
  ℕ, zero, suc, String, Bool, true, false, Option, none, some, List, [], ◌∷◌, unwrap_or, is_empty,
  str_eq, if◌then◌else◌,
}
use bottlerocket_test_system.Base.Result.{Result, ok, err}
use bottlerocket_test_system.Base.Exec.{Exec, ◌>>=◌, ◌>>◌, pure, context, attempt}
use bottlerocket_test_system.Base.Maps.{get}
use bottlerocket_test_system.Agents.ResourceAgent.ProviderError.{
  Resources, clear, remaining, unknown, ProviderError, new_with_source_and_context,
}
use bottlerocket_test_system.Agents.Utils.Aws
use bottlerocket_test_system.Agents.Utils.Aws.{SdkConfig, Environment, aws_config}
use bottlerocket_test_system.Agents.Utils.Ssm.{SdkError, service_error, other_error}
use bottlerocket_test_system.Bottlerocket.AgentConfig.{EcsClusterConfig}
use bottlerocket_test_system.Bottlerocket.Provider.{
  Spec, InfoClient, aws_credentials_secret_name, tried, needed, in_time,
}

abbrev pub default_region : String
default_region = "us-west-2"

abbrev pub iam_instance_profile_name : String
iam_instance_profile_name = "testsys-bottlerocket-aws-ecsInstanceRole"

pub record Memo : Type 0 where
  pub current_status : String
  pub aws_secret_name : Option String
  pub assume_role : Option String
  pub cluster_name : Option String
  pub region : Option String

pub record CreatedCluster : Type 0 where
  pub cluster_name : String
  pub region : String
  pub public_subnet_ids : List String
  pub private_subnet_ids : List String
  pub iam_instance_profile_arn : String

-- an instance profile, as far as it is read: its ARN
abbrev pub Profile : Type 0
Profile = Option String

pub record IamClient (W : Type 0) : Type 0 where
  pub get_instance_profile : String → Exec W SdkError (Option Profile)
  pub send_create_role : (name document : String) → Exec W String (Unit {0})
  pub send_attach_role_policy : (name policy_arn : String) → Exec W String (Unit {0})
  pub send_create_instance_profile : String → Exec W String (Unit {0})
  pub send_add_role_to_instance_profile : (profile role : String) → Exec W String (Unit {0})

pub record Subnet : Type 0 where
  pub subnet_id : Option String
  pub map_public_ip_on_launch : Option Bool

abbrev pub Filter : Type 0
Filter = String × List String

-- A VPC is its id, as far as it is read.
pub record Ec2Client (W : Type 0) : Type 0 where
  pub describe_vpcs : Filter → Exec W String (Option (List (Option String)))
  pub describe_subnets : Filter → Exec W String (Option (List Subnet))

pub record EcsClient (W : Type 0) : Type 0 where
  pub create_cluster : String → Exec W String (Unit {0})
  pub delete_cluster : String → Exec W String (Unit {0})
  pub list_container_instances : String → Exec W String (Option (List String))

pub record Cloud (W : Type 0) : Type 0 where
  pub environment : Environment W
  pub show_error : Aws.Error → String
  pub show_sdk_error : SdkError → String
  pub debug : ProviderError → String
  pub ecs : SdkConfig → EcsClient W
  pub iam : SdkConfig → IamClient W
  pub ec2 : SdkConfig → Ec2Client W
  pub sleep : ℕ → W → W
