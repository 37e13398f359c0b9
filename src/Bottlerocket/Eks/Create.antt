-- ===== src/Bottlerocket/Eks/Create.antt =====
-- bottlerocket/agents/src/bin/eks-resource-agent/eks_provider.rs: `create` of `EksCreator` and `destroy` of
-- `EksDestroyer`.
pub mod Steps
pub mod Unnamed
pub mod Existing
use Prim.Native.String.{◌++◌ as concat}
use bottlerocket_test_system.Base.{
  ℕ, String, Bool, true, false, Option, none, some, List, [], ◌∷◌, unwrap_or, if◌then◌else◌,
}
use bottlerocket_test_system.Base.Result.{Result, ok, err}
use bottlerocket_test_system.Base.Exec.{Exec, ◌>>=◌, ◌>>◌, pure, throw, read, context, attempt}
use bottlerocket_test_system.Base.Maps.{get}
use bottlerocket_test_system.Agents.ResourceAgent.ProviderError.{
  Resources, orphaned, clear, remaining, unknown, ProviderError, new_with_context,
  new_with_source_and_context,
}
use bottlerocket_test_system.Agents.Utils.Aws.{SdkConfig, aws_config}
use bottlerocket_test_system.Bottlerocket.AgentConfig.{
  CreationPolicy, default_policy, EksClusterConfig,
}
use bottlerocket_test_system.Bottlerocket.Provider.{
  Spec, InfoClient, aws_credentials_secret_name, tried,
}
use bottlerocket_test_system.Bottlerocket.Policy.{is_cluster_creation_required}
use bottlerocket_test_system.Bottlerocket.Eks.{
  ProductionMemo, CreatedCluster, AwsClients, Cloud, ClusterConfig, region_of, cluster_name_of,
  default_region,
}
use bottlerocket_test_system.Bottlerocket.Eks.Info.{from, new, create_cluster, write_kubeconfig}
use bottlerocket_test_system.Bottlerocket.Eks.Lookup.{does_cluster_exist, created_cluster}

abbrev pub status : ProductionMemo → String → ProductionMemo
status memo text = record memo { current_status = text }

-- `is_eks_cluster_creation_required`
pub is_eks_cluster_creation_required :
    {W : Type 0}
    → Cloud W
    → AwsClients W
    → String
    → CreationPolicy
    → Exec W ProviderError (Bool × String)
unfolding does_cluster_exist is_cluster_creation_required
is_eks_cluster_creation_required c aws_clients name policy = do
  cluster_exists ← does_cluster_exist c aws_clients name
  from (is_cluster_creation_required cluster_exists name policy)

unfoldable pub config_for :
    {W : Type 0}
    → Cloud W
    → String
    → (secret role region endpoint : Option String) → Exec W ProviderError SdkConfig
config_for c text secret role region endpoint =
    context (λ e. new_with_source_and_context clear text (c.show_error e))
      (aws_config c.environment secret role none region endpoint true)

-- What is known before the state of the cluster is.
pub record Prepared (W : Type 0) : Type 0 where
  pub memo : ProductionMemo
  pub cluster : ClusterConfig
  pub clients : AwsClients W

module _ {W : Type 0} (c : Cloud W) (client : InfoClient W ProductionMemo)
    (spec : Spec EksClusterConfig) where
  unfoldable pub tell : Resources → ProductionMemo → Exec W ProviderError (Unit {0})
  unfolding tried
  tell r memo = tried r "Error sending cluster creation message" (client.send_info memo)

  abbrev policy : CreationPolicy
  policy = unwrap_or default_policy spec.configuration.creation_policy

  unfoldable pub prepare : Exec W ProviderError (Prepared W)
  unfolding tried tell new config_for
  prepare = do
    stored ← tried clear "Unable to get info from client" client.get_info
    let initial : ProductionMemo = record stored {
      current_status = "Initializing agent";
      creation_policy = some policy;
    }
    tell clear initial
    cluster ← new c spec.configuration.config
    tell clear (status initial "Getting AWS secret")
    let secret = get aws_credentials_secret_name spec.secrets
    let filled : ProductionMemo = record initial {
      current_status = "Creating AWS config";
      aws_secret_name = secret;
      assume_role = spec.configuration.assume_role;
    }
    tell clear filled
    let region = some (region_of cluster)
    shared_config ←
        config_for c "Error creating config" secret spec.configuration.assume_role region none
    eks_config ←
        config_for c "Error creating EKS client config" secret spec.configuration.assume_role region
          spec.configuration.eks_service_endpoint
    tell clear (status filled "Determining cluster state")
    pure (record {
      memo = status filled "Determining cluster state";
      cluster = cluster;
      clients = c.clients shared_config eks_config;
    })

  -- the creation with eksctl, where it is required, and the memo after it
  pub provision : ClusterConfig → Bool → ProductionMemo → Exec W ProviderError ProductionMemo
  unfolding tell create_cluster
  provision cluster false memo = pure memo
  provision cluster true memo = do
    let started : ProductionMemo = record memo {
      current_status = "Creating cluster";
      provisioning_started = true;
    }
    tell clear started
    create_cluster c cluster
    tell remaining (status started "Cluster creation complete")
    pure (status started "Cluster creation complete")

  -- the last memo, if the information is complete
  unfoldable pub finish :
      ClusterConfig
      → ProductionMemo
      → Option CreatedCluster
      → Exec W ProviderError (Option CreatedCluster)
  unfolding tried
  finish cluster memo none = pure none
  finish cluster memo (some created) = do
    let done : ProductionMemo = record memo {
      current_status = "Cluster ready";
      cluster_name = some (cluster_name_of cluster);
      region = some (region_of cluster);
    }
    tried remaining "Error sending cluster created message" (client.send_info done)
    pure (some created)

  -- the kubeconfig and the information about the cluster
  unfoldable pub describe :
      ℕ → Prepared W → ProductionMemo → Exec W ProviderError (Option CreatedCluster)
  unfolding tell tried write_kubeconfig created_cluster finish
  describe rounds p memo = do
    let name = cluster_name_of p.cluster
    let region = region_of p.cluster
    let path = concat c.temp_dir "/kubeconfig.yaml"
    tell remaining (status memo "Writing cluster kubeconfig")
    write_kubeconfig c name spec.configuration.eks_service_endpoint region path
    kubeconfig ← tried remaining "Unable to read kubeconfig." (c.read_to_string path)
    let collecting = status memo "Collecting cluster info"
    tell remaining collecting
    created ← created_cluster c p.clients (c.encode kubeconfig) name region rounds
    finish p.cluster collecting created

  unfoldable pub create : ℕ → Exec W ProviderError (Option CreatedCluster)
  unfolding prepare is_eks_cluster_creation_required tell provision describe
  create rounds = do
    p ← prepare
    required ← is_eks_cluster_creation_required c p.clients (cluster_name_of p.cluster) policy
    tell clear (status p.memo required.1)
    memo ← provision p.cluster required.0 (status p.memo required.1)
    describe rounds p memo

module _ {W : Type 0} (c : Cloud W) (client : InfoClient W ProductionMemo) where
  -- the deletion with eksctl; an error of the message is only logged
  unfoldable pub delete : String → ProductionMemo → Exec W ProviderError (Unit {0})
  unfolding tried config_for
  delete cluster_name memo = do
    config ←
        config_for c "Error creating config" memo.aws_secret_name memo.assume_role memo.region none
    let region = unwrap_or default_region memo.region
    status ← tried remaining "Failed to run eksctl delete command" (
        c.run_status "eksctl" ("delete" ∷ "cluster" ∷ "--name" ∷ cluster_name ∷ "-r" ∷ region ∷ []))
    (if status.0
        then attempt (client.send_info (record memo { current_status = "Cluster deleted" }))
          >> pure tt
        else throw (
            new_with_context orphaned
              (concat "Failed to delete cluster with status code " status.1)))

  -- A cluster is deleted if its provisioning was started and its name is known.
  pub destroy_of : ProductionMemo → Bool → Option String → Exec W ProviderError (Unit {0})
  unfolding delete
  destroy_of memo false name = pure tt
  destroy_of memo true none = throw (new_with_context unknown "Unable to obtain cluster name")
  destroy_of memo true (some name) = delete name memo

  unfoldable pub destroy : Exec W ProviderError (Unit {0})
  unfolding tried destroy_of
  destroy = do
    memo ← tried remaining "Unable to get info from client" client.get_info
    destroy_of memo memo.provisioning_started memo.cluster_name
