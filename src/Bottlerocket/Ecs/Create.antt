-- ===== src/Bottlerocket/Ecs/Create.antt =====
-- bottlerocket/agents/src/bin/ecs-resource-agent/ecs_provider.rs: the creation and the destruction of an ECS
-- cluster.
use bottlerocket_test_system.Base.{ℕ, String, Option, none, some, unwrap_or}
use bottlerocket_test_system.Base.Exec.{Exec, ◌>>=◌, ◌>>◌, pure, context, attempt}
use bottlerocket_test_system.Base.Maps.{get}
use bottlerocket_test_system.Agents.ResourceAgent.ProviderError.{
  Resources, clear, remaining, unknown, ProviderError, new_with_source_and_context,
}
use bottlerocket_test_system.Agents.Utils.Aws.{SdkConfig}
use bottlerocket_test_system.Bottlerocket.AgentConfig.{EcsClusterConfig}
use bottlerocket_test_system.Bottlerocket.Provider.{
  Spec, InfoClient, aws_credentials_secret_name, tried, in_time,
}
use bottlerocket_test_system.Bottlerocket.Ecs.{
  default_region, Memo, CreatedCluster, EcsClient, Cloud,
}
use bottlerocket_test_system.Bottlerocket.Ecs.Cluster.{
  instance_profile_arn, create_iam_instance_profile, created_cluster,
  wait_for_ecs_instances_deregister, config_of,
}

abbrev pub status : Memo → String → Memo
status memo text = record memo { current_status = text }

module _ {W : Type 0} (c : Cloud W) (client : InfoClient W Memo) where
  abbrev tell : Resources → Memo → Exec W ProviderError (Unit {0})
  unfolding tried
  tell r memo = tried r "Error sending cluster creation message" (client.send_info memo)

  -- `context` around an error of `instance_profile_arn`, which is shown as a text
  abbrev not_found : ProviderError → ProviderError
  not_found e =
      new_with_source_and_context clear "The iam instance profile name was not found." (c.debug e)

  -- the profile, and the memo after it
  unfoldable pub profile_of :
      SdkConfig → Option String → Memo → Exec W ProviderError (String × Memo)
  unfolding tell instance_profile_arn create_iam_instance_profile
  profile_of config (some name) memo = do
    arn ← context not_found (instance_profile_arn c (c.iam config) name)
    pure (arn, memo)
  profile_of config none memo = do
    tell remaining (status memo "Creating instance profile")
    arn ← create_iam_instance_profile c (c.iam config)
    pure (arn, status memo "Creating instance profile")

  -- up to the cluster
  unfoldable pub prepare : Spec EcsClusterConfig → Exec W ProviderError (Memo × SdkConfig)
  unfolding tried tell
  prepare spec = do
    stored ← tried clear "Unable to get info from client" client.get_info
    tell clear (status stored "Initializing Agent")
    tell clear (status stored "Getting AWS secret")
    let secret = get aws_credentials_secret_name spec.secrets
    let filled : Memo = record stored {
      current_status = "Creating AWS config";
      aws_secret_name = secret;
      assume_role = spec.configuration.assume_role;
    }
    tell clear filled
    config ← config_of c secret spec.configuration.assume_role spec.configuration.region
    tell clear (status filled "Creating cluster")
    pure (status filled "Creating cluster", config)

  -- what follows once the cluster is there
  unfoldable pub describe :
      Spec EcsClusterConfig → SdkConfig → Memo → Exec W ProviderError CreatedCluster
  unfolding tried tell profile_of created_cluster
  describe spec config memo = do
    let region = unwrap_or default_region spec.configuration.region
    tell remaining (status memo "Cluster created")
    profile ←
        profile_of config spec.configuration.iam_instance_profile_name
          (status memo "Cluster created")
    let getting = status profile.1 "Getting cluster info"
    tell remaining getting
    created ←
        created_cluster c config spec.configuration.cluster_name region spec.configuration.vpc
          profile.0
    let done : Memo = record getting {
      current_status = "Cluster created";
      cluster_name = some spec.configuration.cluster_name;
      region = some region;
    }
    tried remaining "Error sending cluster created message" (client.send_info done)
    pure created

  unfoldable pub create : Spec EcsClusterConfig → Exec W ProviderError CreatedCluster
  unfolding prepare tried describe
  create spec = do
    prepared ← prepare spec
    tried clear "The cluster could not be created."
        ((c.ecs prepared.1).create_cluster spec.configuration.cluster_name)
    describe spec prepared.1 prepared.0

  -- the deletion of the cluster of the memo, if it has one; an error of the message is only logged
  unfoldable pub delete : EcsClient W → ℕ → Option String → Memo → Exec W ProviderError (Unit {0})
  unfolding tried in_time wait_for_ecs_instances_deregister
  delete ecs_client rounds none memo = pure tt
  delete ecs_client rounds (some cluster_name) memo = do
    in_time unknown "Timed out waiting for ECS instances to deregister."
        (wait_for_ecs_instances_deregister c ecs_client cluster_name rounds)
    tried unknown "The cluster could not be deleted." (ecs_client.delete_cluster cluster_name)
    told ← attempt (client.send_info (status memo "Cluster deleted"))
    pure tt

  unfoldable pub destroy : ℕ → Exec W ProviderError (Unit {0})
  unfolding tried delete
  destroy rounds = do
    memo ← tried remaining "Unable to get info from client" client.get_info
    config ← config_of c memo.aws_secret_name memo.assume_role memo.region
    delete (c.ecs config) rounds memo.cluster_name memo
