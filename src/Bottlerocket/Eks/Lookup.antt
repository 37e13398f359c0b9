-- ===== src/Bottlerocket/Eks/Lookup.antt =====
-- bottlerocket/agents/src/bin/eks-resource-agent/eks_provider.rs: what is read of a cluster that exists. The loop
-- over the pages of stacks has a number of rounds: an answer `none` says that they were not enough.
use Prim.Native.String.{◌++◌ as concat}
use bottlerocket_test_system.Base.{
  ℕ, zero, suc, String, Bool, true, false, Option, none, some, List, [], ◌∷◌, str_eq, ◌||◌,
  if◌then◌else◌,
}
use bottlerocket_test_system.Base.Result.{Result, ok, err}
use bottlerocket_test_system.Base.Exec.{Exec, ◌>>=◌, pure, throw, context, attempt, match_result}
use bottlerocket_test_system.Agents.ResourceAgent.ProviderError.{
  clear, remaining, ProviderError, new_with_context, new_with_source_and_context,
}
use bottlerocket_test_system.Agents.Utils.Ssm.{SdkError, service_error}
use bottlerocket_test_system.Bottlerocket.Provider.{tried, needed}
use bottlerocket_test_system.Bottlerocket.Eks.{CreatedCluster, ListStacks, AwsClients, Cloud}
use bottlerocket_test_system.Bottlerocket.Eks.Fields.{
  cluster_dns_ip, eks_subnet_ids, cluster_sg_of, endpoint_of, certificate_of,
}
use bottlerocket_test_system.Bottlerocket.Eks.Info.{from}

-- Whether the service says that the resource does not exist.
unfoldable pub not_found : {A : Type 0} → Result SdkError A → Bool
not_found (err (service_error (some code) text)) = str_eq code "ResourceNotFoundException"
not_found r = false

-- The first stack whose name is that of a group of nodes.
find_stack : (String → Bool) → List (Option String) → Option String
find_stack p [] = none
find_stack p (none ∷ ss) = find_stack p ss
find_stack p (some s ∷ ss) = let rest = find_stack p ss in if p s then some s else rest

-- the ids that are there
unfoldable pub ids_of : List (Option String) → List String
ids_of [] = []
ids_of (none ∷ is) = ids_of is
ids_of (some i ∷ is) = i ∷ ids_of is

abbrev stack_filter : List String
stack_filter = "CREATE_COMPLETE" ∷ "UPDATE_COMPLETE" ∷ []

module _ {W : Type 0} (c : Cloud W) (aws_clients : AwsClients W) where
  unfoldable pub does_cluster_exist : String → Exec W ProviderError Bool
  unfolding not_found
  does_cluster_exist name = do
    result ← attempt (aws_clients.describe_cluster name)
    (if not_found result
        then pure false
        else match_result result (λ o. pure true)
            (λ e. throw (
              new_with_source_and_context clear
                (concat "Unable to determine if cluster '" (concat name "' exists"))
                (c.show_sdk_error e))))

  abbrev is_nodegroup : String → String → Bool
  is_nodegroup cluster_name name =
      c.starts_with name (concat "eksctl-" (concat cluster_name "-nodegroup"))
      || c.starts_with name (concat cluster_name "-node-group")

  abbrev list_page : Option String → Exec W ProviderError ListStacks
  unfolding tried
  list_page token =
      tried remaining "Unable to list CloudFormation stacks"
        (aws_clients.list_stacks token stack_filter)

  abbrev pub next_page :
      (Option String → Exec W ProviderError (Option String))
      → Option String
      → Option String
      → Exec W ProviderError (Option String)
  next_page again (some name) token = pure (some name)
  next_page again none (some token) = again (some token)
  next_page again none none =
      throw (new_with_context remaining "Could not find nodegroup cloudformation stack for cluster")

  -- the name of the stack, page by page
  unfoldable pub stack_name : String → ℕ → Option String → Exec W ProviderError (Option String)
  unfolding list_page needed find_stack
  stack_name cluster_name zero token = pure none
  stack_name cluster_name (suc rounds) token = do
    page ← list_page token
    summaries ← needed remaining "Missing CloudFormation stack summaries" page.stack_summaries
    next_page (λ t. stack_name cluster_name rounds t)
        (find_stack (is_nodegroup cluster_name) summaries) page.next_token

  abbrev quoted : String → String → String
  quoted text name = concat text (concat name "'")

  -- the role of the nodes, once the stack is known
  unfoldable pub role_of : Option String → Exec W ProviderError (Option String)
  unfolding tried needed
  role_of none = pure none
  role_of (some name) = do
    detail ←
        tried remaining (quoted "Unable to describe CloudFormation stack resources for '" name)
          (aws_clients.describe_stack_resource name "NodeInstanceRole")
    resource ←
        needed remaining (quoted "Missing 'NodeInstanceRole' stack resource for '" name) detail
    id ← needed remaining (quoted "Missing stack outputs in '" name) resource
    pure (some id)

  unfoldable pub nodegroup_iam_role : String → ℕ → Exec W ProviderError (Option String)
  unfolding stack_name role_of
  nodegroup_iam_role cluster_name rounds = do
    name ← stack_name cluster_name rounds none
    role_of name

  unfoldable pub subnet_ids : List String → String → Exec W ProviderError (List String)
  unfolding tried needed ids_of
  subnet_ids ids is_public = do
    described ←
        tried remaining "Unable to get private subnet ids"
          (aws_clients.describe_subnets ids ("map-public-ip-on-launch", is_public ∷ []))
    subnets ← needed remaining "Results missing subnets field" described
    pure (ids_of subnets)

  -- the only profile
  only_profile : String → List (Option String) → Result ProviderError String
  only_profile role [] =
      err (new_with_context remaining (quoted "No instance profile was found for role '" role))
  only_profile role (none ∷ []) = err (
      new_with_context remaining
        (quoted "Received an instance profile object with no arn for role '" role))
  only_profile role (some arn ∷ []) = ok arn
  only_profile role (p ∷ (q ∷ ps)) = err (
      new_with_context remaining
        (quoted "More than one instance profile was found for role '" role))

  unfoldable pub instance_profile_arn : String → Exec W ProviderError String
  unfolding tried needed only_profile
  instance_profile_arn role = do
    listed ←
        tried remaining (quoted "Unable to list instance profiles for role '" role)
          (aws_clients.list_instance_profiles_for_role role)
    profiles ←
        needed remaining
          "Instance profile list is missing from list_instance_profiles_for_role response" listed
    from (only_profile role profiles)

  -- the profile of a role, if the stack was found
  unfoldable pub with_role :
      Option String
      → (String → Exec W ProviderError CreatedCluster)
      → Exec W ProviderError (Option CreatedCluster)
  unfolding instance_profile_arn
  with_role none build = pure none
  with_role (some role) build = do
    arn ← instance_profile_arn role
    created ← build arn
    pure (some created)

  unfoldable pub created_cluster :
      String → String → String → ℕ → Exec W ProviderError (Option CreatedCluster)
  unfolding tried needed subnet_ids nodegroup_iam_role with_role eks_subnet_ids endpoint_of
      certificate_of cluster_dns_ip cluster_sg_of
  created_cluster encoded_kubeconfig name region rounds = do
    described ←
        tried remaining "Unable to get eks describe cluster"
          (context c.show_sdk_error (aws_clients.describe_cluster name))
    cluster ← needed remaining "Response missing cluster field" described
    ids ← from (eks_subnet_ids cluster)
    endpoint ← from (endpoint_of cluster)
    certificate ← from (certificate_of cluster)
    dns_ip ← from (cluster_dns_ip c.show cluster)
    sg ← from (cluster_sg_of cluster)
    public_ids ← subnet_ids ids "true"
    private_ids ← subnet_ids ids "false"
    role ← nodegroup_iam_role name rounds
    with_role role λ arn. pure (record {
      cluster_name = name;
      region = region;
      endpoint = endpoint;
      certificate = certificate;
      cluster_dns_ip = dns_ip;
      public_subnet_ids = public_ids;
      private_subnet_ids = private_ids;
      security_groups = sg ∷ [];
      cluster_sg = sg;
      iam_instance_profile_arn = arn;
      encoded_kubeconfig = encoded_kubeconfig;
    })
