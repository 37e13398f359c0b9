-- ===== src/Bottlerocket/Eks.antt =====
-- bottlerocket/agents/src/bin/eks-resource-agent/eks_provider.rs: the provider of EKS clusters: its memo, its
-- configuration and the types that it reads. AWS, programs, files, base64 and YAML are calls of a
-- world or parameters.
pub mod Fields
pub mod Info
pub mod Lookup
pub mod Create
pub mod Quiet
use Prim.Native.String.{◌++◌ as concat}
use Prim.Native.Char.{Char, code}
use bottlerocket_test_system.Base.{
  ℕ, zero, suc, String, Bool, true, false, Option, none, some, List, [], ◌∷◌, ◌++◌, unwrap_or, ◌==◌,
  if◌then◌else◌,
}
use bottlerocket_test_system.Base.Result.{Result, ok, err, ◌>>=◌, map_err}
use bottlerocket_test_system.Base.Exec.{Exec, ◌>>=◌ as bind, pure, throw, read}
use bottlerocket_test_system.Model.Json.{Value}
use bottlerocket_test_system.Agents.ResourceAgent.ProviderError.{
  Resources, clear, remaining, ProviderError, new_with_context, new_with_source_and_context,
}
use bottlerocket_test_system.Agents.Utils.Secrets.{Bytes}
use bottlerocket_test_system.Agents.Utils.Aws
use bottlerocket_test_system.Agents.Utils.Aws.{SdkConfig, Environment}
use bottlerocket_test_system.Agents.Utils.Ssm.{SdkError}
use bottlerocket_test_system.Bottlerocket.AgentConfig.{
  CreationPolicy, EksctlConfig, file, args, K8sVersion,
}
use bottlerocket_test_system.Bottlerocket.AgentConfig.Version.{major_minor_without_v}
use bottlerocket_test_system.Bottlerocket.Sonobuoy.{get, as_str, join}

abbrev pub default_region : String
default_region = "us-west-2"

abbrev pub default_version : String
default_version = "1.24"

abbrev pub test_cluster_config_path : String
test_cluster_config_path = "/local/eksctl_config.yaml"

pub record ProductionMemo : Type 0 where
  pub current_status : String
  pub aws_secret_name : Option String
  pub cluster_name : Option String
  pub creation_policy : Option CreationPolicy
  pub region : Option String
  pub assume_role : Option String
  pub provisioning_started : Bool

pub record CreatedCluster : Type 0 where
  pub cluster_name : String
  pub region : String
  pub endpoint : String
  pub certificate : String
  pub cluster_dns_ip : String
  pub public_subnet_ids : List String
  pub private_subnet_ids : List String
  pub security_groups : List String
  pub cluster_sg : String
  pub iam_instance_profile_arn : String
  pub encoded_kubeconfig : String

pub data IpFamily : Type 0 where
  ipv4 ipv6 other : IpFamily

pub record VpcConfig : Type 0 where
  pub subnet_ids : Option (List String)
  pub cluster_security_group_id : Option String

pub record NetworkConfig : Type 0 where
  pub ip_family : Option IpFamily
  pub service_ipv4_cidr : Option String
  pub service_ipv6_cidr : Option String

-- `Cluster`, as far as it is read; a certificate authority is its data.
pub record Cluster : Type 0 where
  pub resources_vpc_config : Option VpcConfig
  pub endpoint : Option String
  pub certificate_authority : Option (Option String)
  pub kubernetes_network_config : Option NetworkConfig

-- the names of stacks, and the token of the next page
pub record ListStacks : Type 0 where
  pub stack_summaries : Option (List (Option String))
  pub next_token : Option String

-- a status of a program: whether it succeeded, and its text
abbrev ExitStatus : Type 0
ExitStatus = Bool × String

-- The four clients; subnets and profiles are their ids and ARNs, a resource of a stack is its
-- physical id.
pub record AwsClients (W : Type 0) : Type 0 where
  pub describe_cluster : String → Exec W SdkError (Option Cluster)
  pub describe_subnets :
      (ids : List String) (filter : String × List String)
      → Exec W String (Option (List (Option String)))
  pub list_instance_profiles_for_role : String → Exec W String (Option (List (Option String)))
  pub list_stacks :
      (next_token : Option String) (status_filter : List String) → Exec W String ListStacks
  pub describe_stack_resource :
      (stack_name logical_resource_id : String) → Exec W String (Option (Option String))

pub record Cloud (W : Type 0) : Type 0 where
  pub environment : Environment W
  pub show_error : Aws.Error → String
  pub show_sdk_error : SdkError → String
  pub clients : (shared_config eks_config : SdkConfig) → AwsClients W
  pub run_status : (program : String) → List String → Exec W String ExitStatus
  pub write : String → Bytes → Exec W String (Unit {0})
  pub read_to_string : String → Exec W String String
  pub temp_dir : String
  pub encode : String → String
  pub decode : String → Result String Bytes
  pub from_yaml : String → Result String Value
  pub starts_with : (text pattern : String) → Bool
  pub from_codes : List ℕ → String
  pub show : ℕ → String

pub data ClusterConfig : Type 0 where
  by_args :
      (cluster_name region : String) (version : Option K8sVersion) (zones : Option (List String))
      → ClusterConfig
  config_path : (cluster_name region : String) → ClusterConfig

unfoldable pub region_of : ClusterConfig → String
region_of (by_args name region version zones) = region
region_of (config_path name region) = region

unfoldable pub cluster_name_of : ClusterConfig → String
cluster_name_of (by_args name region version zones) = name
cluster_name_of (config_path name region) = name

abbrev pub some_or : {A : Type 0} → Resources → String → Option A → Result ProviderError A
some_or r text none = err (new_with_context r text)
some_or r text (some a) = ok a

abbrev pub done_or : {A : Type 0} → Resources → String → Result String A → Result ProviderError A
done_or r text a = map_err (new_with_source_and_context r text) a

-- a text at a key of a value
abbrev pub text_at : String → Value → Option String
text_at k v = elim (get k v) [ none ↦ none | some s ↦ as_str s ]
