-- ===== src/Bottlerocket/Ec2.antt =====
-- bottlerocket/agents/src/bin/ec2-resource-agent/ec2_provider.rs: the provider of EC2 instances: its memo,
-- its requests and its user data. A `HashSet` is a list without repetition, whose order is not meant.
-- AWS, base64, TOML texts and the info client are calls of a world. A wait that has a time limit runs for
-- a number of rounds, those that fit into its limit.
pub mod Launch
pub mod Instances
pub mod Create
pub mod Destroy
use Prim.Native.String.{◌++◌ as concat}
use bottlerocket_test_system.Base.{
  ℕ, String, Bool, true, Option, none, some, List, [], ◌∷◌, ◌++◌, is_empty, contains, str_eq,
  if◌then◌else◌,
}
use bottlerocket_test_system.Base.Result.{Result, ok, err, ◌>>=◌, map_err}
use bottlerocket_test_system.Base.Exec.{Exec}
use bottlerocket_test_system.Agents.ResourceAgent.ProviderError.{
  Resources, clear, remaining, ProviderError, new_with_context, new_with_source_and_context,
}
use bottlerocket_test_system.Agents.Utils.Secrets.{Bytes}
use bottlerocket_test_system.Agents.Utils.Aws
use bottlerocket_test_system.Agents.Utils.Aws.{SdkConfig, Environment}
use bottlerocket_test_system.Agents.Utils.Ssm.{SdkError}
use bottlerocket_test_system.Bottlerocket.AgentConfig.{ClusterType, CustomUserData}
use bottlerocket_test_system.Bottlerocket.Userdata.{Value, merge_values, decode_to_string}

pub record ProductionMemo : Type 0 where
  pub current_status : String
  pub instance_ids : List String
  pub region : String
  pub aws_secret_name : Option String
  pub uuid_tag : Option String
  pub assume_role : Option String
  pub cluster_type : ClusterType
  pub cluster_name : String

pub record CreatedEc2Instances : Type 0 where
  pub ids : List String

-- `HashSet::insert` and `HashSet::remove`
pub insert : String → List String → List String
insert a s = if contains s a then s else s ++ a ∷ []

unfoldable pub remove : List String → String → List String
remove [] a = []
remove (x ∷ xs) a = if str_eq x a then remove xs a else x ∷ remove xs a

-- `Filter`: a name and its values
abbrev pub Filter : Type 0
Filter = String × List String

pub record TagSpecification : Type 0 where
  pub resource_type : String
  pub tags : List (String × String)

-- The parts of the request `run_instances` that are set.
pub record RunInstances : Type 0 where
  pub min_count : ℕ
  pub max_count : ℕ
  pub subnet_id : String
  pub security_group_ids : Option (List String)
  pub image_id : String
  pub instance_type : String
  pub tag_specifications : TagSpecification
  pub user_data : String
  pub iam_instance_profile_arn : String
  pub http_tokens : String
  pub http_endpoint : String
  pub http_put_response_hop_limit : ℕ

-- `Instance`, as far as it is read: its id
abbrev pub Instance : Type 0
Instance = Option String

pub data Architecture : Type 0 where
  x86_64 arm64 other : Architecture

pub record Ec2Client (W : Type 0) : Type 0 where
  pub run_instances : RunInstances → Exec W SdkError (Option (List Instance))
  pub describe_images : String → Exec W String (Option (List (Option Architecture)))
  pub describe_instance_status : Filter → List String → Exec W String (Option (List Instance))
  pub describe_instances : Filter → Exec W String (Option (List (Option (List Instance))))
  pub terminate_instances : List String → Exec W String (Unit {0})

-- The service ECS; a list of container instances may be filtered.
pub record EcsClient (W : Type 0) : Type 0 where
  pub list_container_instances :
      (cluster : String) (filter : Option String) → Exec W String (Option (List String))
  pub deregister_container_instance :
      (cluster container_instance : String) (force : Bool) → Exec W String (Unit {0})

pub record Cloud (W : Type 0) : Type 0 where
  pub environment : Environment W
  pub show_error : Aws.Error → String
  pub debug : ProviderError → String
  pub ec2 : SdkConfig → Ec2Client W
  pub ecs : SdkConfig → EcsClient W
  pub new_v4 : W → String × W
  pub sleep : ℕ → W → W
  pub encode : String → String
  pub decode : String → Result String Bytes
  pub parse_toml : String → Result String Value
  pub toml_to_string : Value → Result String String

abbrev pub default_instance_count : ℕ
default_instance_count = 2

abbrev pub instance_uuid_tag_name : String
instance_uuid_tag_name = "testsys-ec2-uuid"

pub resources_situation : ProductionMemo → Resources
resources_situation memo = if is_empty memo.instance_ids then clear else remaining

pub tag_specifications : ClusterType → String → String → TagSpecification
tag_specifications ClusterType.eks cluster_name instance_uuid = record {
  resource_type = "instance";
  tags =
      ("Name", concat cluster_name "_node")
      ∷ (concat "kubernetes.io/cluster/" cluster_name, "owned")
      ∷ (instance_uuid_tag_name, instance_uuid)
      ∷ [];
}
tag_specifications ClusterType.ecs cluster_name instance_uuid = record {
  resource_type = "instance";
  tags = ("Name", concat cluster_name "_node") ∷ (instance_uuid_tag_name, instance_uuid) ∷ [];
}

-- `context` of an option, where no call is made
pub given : Resources → String → Option String → Result ProviderError String
given r text none = err (new_with_context r text)
given r text (some a) = ok a

module _ {W : Type 0} (c : Cloud W) where
  default_eks_userdata :
      String
      → (endpoint certificate cluster_dns_ip : Option String) → ProductionMemo
      → Result ProviderError String
  unfolding given resources_situation
  default_eks_userdata cluster_name endpoint certificate cluster_dns_ip memo = do
    let r = resources_situation memo
    e ← given r "Server endpoint is required for eks clusters." endpoint
    cert ← given r "Cluster certificate is required for eks clusters." certificate
    ip ← given r "Cluster DNS IP is required for eks clusters." cluster_dns_ip
    ok (
        c.encode (
          concat "[settings.updates]\nignore-waves = true\n\n[settings.kubernetes]\napi-server = \""
            (concat e (
              concat "\"\ncluster-name = \"" (
                concat cluster_name (
                  concat "\"\ncluster-certificate = \""
                    (concat cert (concat "\"\ncluster-dns-ip = \"" (concat ip "\"")))))))))

  default_ecs_userdata : String → String
  default_ecs_userdata cluster_name =
      c.encode (concat "[settings.ecs]\ncluster = \"" (concat cluster_name "\""))

  abbrev toml_of : String → Result ProviderError Value
  unfolding decode_to_string
  toml_of encoded = do
    text ← decode_to_string c.decode c.environment.from_utf8 encoded
    map_err (new_with_source_and_context clear "Failed to parse TOML") (c.parse_toml text)

  -- `context` around an error of `merge_values`, which is shown as a text
  abbrev in_context : ProviderError → ProviderError
  in_context e = new_with_source_and_context clear "Failed to merge TOML" (c.debug e)

  customise : String → Option CustomUserData → Result ProviderError String
  unfolding toml_of
  customise default_userdata none = ok default_userdata
  customise default_userdata (some (CustomUserData.replace encoded)) = ok encoded
  customise default_userdata (some (CustomUserData.merge encoded)) = do
    merge_into ← toml_of default_userdata
    merge_from ← toml_of encoded
    merged ← map_err (in_context) (merge_values merge_from merge_into)
    text ←
        map_err (new_with_source_and_context clear "Failed to serialize merged TOML")
          (c.toml_to_string merged)
    ok (c.encode text)

  default_userdata_of :
      ClusterType
      → String
      → (endpoint certificate cluster_dns_ip : Option String) → ProductionMemo
      → Result ProviderError String
  unfolding default_eks_userdata default_ecs_userdata
  default_userdata_of ClusterType.eks name endpoint certificate ip memo =
      default_eks_userdata name endpoint certificate ip memo
  default_userdata_of ClusterType.ecs name endpoint certificate ip memo =
      ok (default_ecs_userdata name)

  pub userdata :
      ClusterType
      → String
      → (endpoint certificate cluster_dns_ip : Option String) → Option CustomUserData
      → ProductionMemo
      → Result ProviderError String
  unfolding default_userdata_of customise
  userdata cluster_type name endpoint certificate ip custom memo = do
    default_userdata ← default_userdata_of cluster_type name endpoint certificate ip memo
    customise default_userdata custom
