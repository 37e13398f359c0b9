-- ===== src/Bottlerocket/AgentConfig.antt =====
-- bottlerocket/types/src/agent_config.rs: the configurations of the providers. Numbers of type `i32` are
-- not negative here.
pub mod Version
use bottlerocket_test_system.Base.{ℕ, String, Option, List}

pub data ClusterType : Type 0 where
  eks ecs : ClusterType

pub data CustomUserData : Type 0 where
  replace merge : (encoded_userdata : String) → CustomUserData

pub data CreationPolicy : Type 0 where
  create if_not_exists never : CreationPolicy

-- `CreationPolicy::default`
abbrev pub default_policy : CreationPolicy
default_policy = CreationPolicy.create

pub record Ec2Config : Type 0 where
  pub node_ami : String
  pub instance_count : Option ℕ
  pub instance_types : List String
  pub cluster_name : String
  pub region : String
  pub instance_profile_arn : String
  pub subnet_ids : List String
  pub cluster_type : ClusterType
  pub endpoint : Option String
  pub certificate : Option String
  pub cluster_dns_ip : Option String
  pub assume_role : Option String
  pub custom_user_data : Option CustomUserData
  pub security_groups : List String

pub record EcsClusterConfig : Type 0 where
  pub cluster_name : String
  pub region : Option String
  pub vpc : Option String
  pub assume_role : Option String
  pub iam_instance_profile_name : Option String

-- The numbers are of type `u8`.
pub record K8sVersion : Type 0 where
  pub major : ℕ
  pub minor : ℕ
  pub patch : Option ℕ

pub data EksctlConfig : Type 0 where
  file : (encoded_config : String) → EksctlConfig
  args :
      (cluster_name : String) (region : Option String) (zones : Option (List String))
      (version : Option K8sVersion)
      → EksctlConfig

pub record EksClusterConfig : Type 0 where
  pub creation_policy : Option CreationPolicy
  pub assume_role : Option String
  pub eks_service_endpoint : Option String
  pub config : EksctlConfig
