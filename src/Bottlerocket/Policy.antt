-- ===== src/Bottlerocket/Policy.antt =====
-- bottlerocket/agents/src/lib.rs: whether a cluster is created.
use Prim.Native.String.{◌++◌ as concat}
use bottlerocket_test_system.Base.{String, Bool, true, false}
use bottlerocket_test_system.Base.Result.{Result, ok, err}
use bottlerocket_test_system.Agents.ResourceAgent.ProviderError.{
  clear, ProviderError, new_with_context,
}
use bottlerocket_test_system.Bottlerocket.AgentConfig.{CreationPolicy, create, if_not_exists, never}

-- `{:?}`
abbrev policy_text : CreationPolicy → String
policy_text create = "Create"
policy_text if_not_exists = "IfNotExists"
policy_text never = "Never"

abbrev creating : CreationPolicy → String → Bool × String
creating p name = (
  true,
  concat "Creation policy is '" (
      concat (policy_text p)
        (concat "' and cluster '" (concat name "' does not exist: creating cluster"))),
)

abbrev not_creating : CreationPolicy → String → Bool × String
not_creating p name = (
  false,
  concat "Creation policy is '" (
      concat (policy_text p)
        (concat "' and cluster '" (concat name "' exists: not creating cluster"))),
)

unfoldable pub is_cluster_creation_required :
    Bool → String → CreationPolicy → Result ProviderError (Bool × String)
is_cluster_creation_required true name create = err (
    new_with_context clear (
      concat "The cluster '" (
        concat name (
          concat "' already exists and creation policy '"
            (concat (policy_text create) "' requires that it does not exist")))))
is_cluster_creation_required false name never = err (
    new_with_context clear (
      concat "The cluster '" (
        concat name (
          concat "' does not exist and creation policy '"
            (concat (policy_text never) "' requires that it exists")))))
is_cluster_creation_required false name create = ok (creating create name)
is_cluster_creation_required false name if_not_exists = ok (creating if_not_exists name)
is_cluster_creation_required true name if_not_exists = ok (not_creating if_not_exists name)
is_cluster_creation_required true name never = ok (not_creating never name)
