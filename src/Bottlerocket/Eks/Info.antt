-- ===== src/Bottlerocket/Eks/Info.antt =====
-- bottlerocket/agents/src/bin/eks-resource-agent/eks_provider.rs: the configuration of a cluster and the programs
-- that are run for it.
use Prim.Native.String.{◌++◌ as concat}
use bottlerocket_test_system.Base.{
  String, Option, none, some, List, [], ◌∷◌, unwrap_or, if◌then◌else◌,
}
use bottlerocket_test_system.Base.Result.{Result}
use bottlerocket_test_system.Base.Exec.{Exec, ◌>>=◌, ◌>>◌, pure, throw, read}
use bottlerocket_test_system.Agents.ResourceAgent.ProviderError.{
  clear, remaining, ProviderError, new_with_context,
}
use bottlerocket_test_system.Bottlerocket.AgentConfig.{EksctlConfig, file, args, K8sVersion}
use bottlerocket_test_system.Bottlerocket.AgentConfig.Version.{major_minor_without_v}
use bottlerocket_test_system.Bottlerocket.Provider.{tried, needed}
use bottlerocket_test_system.Bottlerocket.Sonobuoy.{get}
use bottlerocket_test_system.Bottlerocket.Eks.{
  Cloud, ClusterConfig, by_args, config_path, default_region, default_version,
  test_cluster_config_path, done_or, text_at,
}
use bottlerocket_test_system.Bottlerocket.Eks.Fields.{join_with}

abbrev pub from : {W A : Type 0} → Result ProviderError A → Exec W ProviderError A
from r = read λ w. r

-- the endpoint of the service, if there is one
abbrev endpoint_args : Option String → List String
endpoint_args none = []
endpoint_args (some endpoint) = "--endpoint" ∷ endpoint ∷ []

module _ {W : Type 0} (c : Cloud W) where
  -- `ClusterConfig::new`
  unfoldable pub new : EksctlConfig → Exec W ProviderError ClusterConfig
  unfolding tried needed
  new (args name region zones version) =
      pure (by_args name (unwrap_or default_region region) version zones)
  new (file encoded_config) = do
    decoded ←
        from (done_or clear "Unable to decode eksctl configuration." (c.decode encoded_config))
    text ← from (
        done_or clear "Unable to convert decoded config to string."
          (c.environment.from_utf8 decoded))
    config ← from (done_or clear "Unable to serialize eksctl config." (c.from_yaml text))
    tried clear
        (concat "Unable to write eksctl configuration to '" (concat test_cluster_config_path "'"))
        (c.write test_cluster_config_path decoded)
    metadata ← needed clear "Metadata is missing from eksctl config." (get "metadata" config)
    name ← needed clear "The cluster's name was not in the eksctl config." (text_at "name" metadata)
    region ←
        needed clear "The cluster's region was not in the eksctl config."
          (text_at "region" metadata)
    pure (config_path name region)

  abbrev version_arg : Option K8sVersion → String
  version_arg none = default_version
  version_arg (some v) = c.from_codes (major_minor_without_v v)

  -- the arguments of eksctl
  create_args : ClusterConfig → List String
  unfolding join_with
  create_args (by_args name region version zones) =
      "create"
      ∷ "cluster"
      ∷ "-r"
      ∷ region
      ∷ "--zones"
      ∷ join_with "," (unwrap_or [] zones)
      ∷ "--version"
      ∷ version_arg version
      ∷ "-n"
      ∷ name
      ∷ "--nodes"
      ∷ "0"
      ∷ "--managed=false"
      ∷ []
  create_args (config_path name region) =
      "create" ∷ "cluster" ∷ "-f" ∷ test_cluster_config_path ∷ []

  -- `ClusterConfig::create_cluster`
  unfoldable pub create_cluster : ClusterConfig → Exec W ProviderError (Unit {0})
  unfolding tried create_args
  create_cluster config = do
    status ← tried clear "Failed create cluster" (c.run_status "eksctl" (create_args config))
    (if status.0
        then pure tt
        else throw
            (new_with_context clear (concat "Failed create cluster with status code " status.1)))

  -- `write_kubeconfig`
  unfoldable pub write_kubeconfig :
      String → Option String → String → String → Exec W ProviderError (Unit {0})
  unfolding tried
  write_kubeconfig name endpoint region path = do
    let arguments =
        "eks"
        ∷ "update-kubeconfig"
        ∷ "--region"
        ∷ region
        ∷ "--name"
        ∷ name
        ∷ "--kubeconfig"
        ∷ path
        ∷ endpoint_args endpoint
    status ← tried remaining "Failed update kubeconfig" (c.run_status "aws" arguments)
    (if status.0
        then pure tt
        else throw (
            new_with_context remaining
              (concat "Failed update kubeconfig with status code " status.1)))
