-- ===== src/Bottlerocket/Eks/Quiet.antt =====
-- What the provider of EKS clusters reads of a cluster leaves the stored memo alone.
use bottlerocket_test_system.Base.{ℕ, zero, suc, String, Option, none, some, List}
use bottlerocket_test_system.Base.Result.{Result}
use bottlerocket_test_system.Base.Exec.{Exec}
use bottlerocket_test_system.Base.Exec.Preserves.{
  Preserves, Anything, FailsIn, Preserves-pure, Preserves-throw, Preserves-read, Preserves-context,
  Preserves-attempt, Preserves-bind, Preserves-if, Preserves-match_result,
}
use bottlerocket_test_system.Agents.ResourceAgent.ProviderError.{Resources, ProviderError}
use bottlerocket_test_system.Agents.Utils.Aws.{SdkConfig}
use bottlerocket_test_system.Agents.Utils.Aws.Quiet
use bottlerocket_test_system.Agents.Utils.Aws.Quiet.{aws_config-Preserves}
use bottlerocket_test_system.Bottlerocket.AgentConfig.{EksctlConfig, file, args}
use bottlerocket_test_system.Bottlerocket.Provider.{InfoClient, tried, needed}
use bottlerocket_test_system.Bottlerocket.Provider.Keeps.{Stored}
use bottlerocket_test_system.Bottlerocket.Eks.{ProductionMemo, CreatedCluster, Cloud, ClusterConfig}
use bottlerocket_test_system.Bottlerocket.Eks.Info.{from, new, create_cluster, write_kubeconfig}
use bottlerocket_test_system.Bottlerocket.Eks.Lookup.{
  does_cluster_exist, stack_name, next_page, role_of, nodegroup_iam_role, subnet_ids,
  instance_profile_arn, with_role, created_cluster,
}
use bottlerocket_test_system.Bottlerocket.Eks.Create.{config_for}

-- No call but those of the info client changes the memo that is stored, nor does a message that fails; a
-- message that succeeds stores a memo with the property if its memo has it.
pub record IsQuiet {W : Type 0} (P : ProductionMemo → Type 0) (c : Cloud W)
    (client : InfoClient W ProductionMemo) : Type 0 where
  pub get : Preserves (Stored P client) Anything client.get_info
  pub send : (m : ProductionMemo) → P m → Preserves (Stored P client) Anything (client.send_info m)
  pub send_fails : (m : ProductionMemo) → FailsIn (Stored P client) (client.send_info m)
  pub environment : Quiet.IsQuiet (Stored P client) c.environment
  pub run_status :
      (program : String) (arguments : List String)
      → Preserves (Stored P client) Anything (c.run_status program arguments)
  pub write :
      (path : String) (bytes : List ℕ) → Preserves (Stored P client) Anything (c.write path bytes)
  pub read_to_string :
      (path : String) → Preserves (Stored P client) Anything (c.read_to_string path)
  pub cluster :
      (a b : SdkConfig) (name : String)
      → Preserves (Stored P client) Anything ((c.clients a b).describe_cluster name)
  pub subnets :
      (a b : SdkConfig) (ids : List String) (filter : String × List String)
      → Preserves (Stored P client) Anything ((c.clients a b).describe_subnets ids filter)
  pub profiles :
      (a b : SdkConfig) (role : String)
      → Preserves (Stored P client) Anything ((c.clients a b).list_instance_profiles_for_role role)
  pub stacks :
      (a b : SdkConfig) (token : Option String) (filter : List String)
      → Preserves (Stored P client) Anything ((c.clients a b).list_stacks token filter)
  pub stack_resource :
      (a b : SdkConfig) (name id : String)
      → Preserves (Stored P client) Anything ((c.clients a b).describe_stack_resource name id)

module _ {W : Type 0} {P : ProductionMemo → Type 0} {c : Cloud W}
    {client : InfoClient W ProductionMemo} (q : IsQuiet P c client) where
  -- a call keeps that the stored memo has the property
  abbrev pub Kept : {E A : Type 0} → Exec W E A → Type 0
  Kept m = Preserves (Stored P client) Anything m

  pub tried-Kept :
      {A : Type 0} (r : Resources) (text : String) {m : Exec W String A}
      → Kept m
      → Kept (tried r text m)
  unfolding tried
  tried-Kept r text k = Preserves-context _ k

  needed-Kept :
      {A : Type 0} (r : Resources) (text : String) (o : Option A) → Kept (needed {W = W} r text o)
  unfolding needed
  needed-Kept r text none = Preserves-throw _
  needed-Kept r text (some a) = Preserves-pure a tt

  pub from-Kept : {A : Type 0} (r : Result ProviderError A) → Kept (from {W = W} r)
  from-Kept r = Preserves-read _ λ w a h. tt

  pub config_for-Kept :
      (text : String) (secret role region endpoint : Option String)
      → Kept (config_for c text secret role region endpoint)
  unfolding config_for
  config_for-Kept text secret role region endpoint =
      Preserves-context _
        (aws_config-Preserves c.environment q.environment secret role none region endpoint _)

  pub new-Kept : (config : EksctlConfig) → Kept (new c config)
  unfolding new
  new-Kept (args name region zones version) = Preserves-pure _ tt
  new-Kept (file encoded) = Preserves-bind (from-Kept _) λ a _. Preserves-bind (from-Kept _) λ b _.
      Preserves-bind (from-Kept _) λ d _. Preserves-bind (tried-Kept _ _ (q.write _ _)) λ _ _.
        Preserves-bind (needed-Kept _ _ _) λ m _.
          Preserves-bind (needed-Kept _ _ _)
            λ n _. Preserves-bind (needed-Kept _ _ _) λ r _. Preserves-pure _ tt

  pub create_cluster-Kept : (config : ClusterConfig) → Kept (create_cluster c config)
  unfolding create_cluster
  create_cluster-Kept config =
      Preserves-bind (tried-Kept _ _ (q.run_status _ _))
        λ s _. Preserves-if _ (Preserves-pure _ tt) (Preserves-throw _)

  pub write_kubeconfig-Kept :
      (name : String) (endpoint : Option String) (region path : String)
      → Kept (write_kubeconfig c name endpoint region path)
  unfolding write_kubeconfig
  write_kubeconfig-Kept name endpoint region path =
      Preserves-bind (tried-Kept _ _ (q.run_status _ _))
        λ s _. Preserves-if _ (Preserves-pure _ tt) (Preserves-throw _)

  module _ (a b : SdkConfig) where
    pub does_cluster_exist-Kept : (name : String) → Kept (does_cluster_exist c (c.clients a b) name)
    unfolding does_cluster_exist
    does_cluster_exist-Kept name = Preserves-bind (Preserves-attempt (q.cluster a b name)) λ r _.
        Preserves-if _ (Preserves-pure _ tt)
          (Preserves-match_result r (λ o. Preserves-pure _ tt) (λ e. Preserves-throw _))

    next_page-Kept :
        (again : Option String → Exec W ProviderError (Option String)) (name token : Option String)
        → ((t : Option String) → Kept (again t))
        → Kept (next_page c (c.clients a b) again name token)
    next_page-Kept again (some name) token k = Preserves-pure _ tt
    next_page-Kept again none (some token) k = k (some token)
    next_page-Kept again none none k = Preserves-throw _

    stack_name-Kept :
        (name : String) (rounds : ℕ) (token : Option String)
        → Kept (stack_name c (c.clients a b) name rounds token)
    unfolding stack_name
    stack_name-Kept name zero token = Preserves-pure _ tt
    stack_name-Kept name (suc rounds) token =
        Preserves-bind (tried-Kept _ _ (q.stacks a b _ _)) λ page _.
          Preserves-bind (needed-Kept _ _ _)
            λ summaries _. next_page-Kept _ _ _ (λ t. stack_name-Kept name rounds t)

    role_of-Kept : (name : Option String) → Kept (role_of c (c.clients a b) name)
    unfolding role_of
    role_of-Kept none = Preserves-pure _ tt
    role_of-Kept (some name) = Preserves-bind (tried-Kept _ _ (q.stack_resource a b _ _)) λ d _.
        Preserves-bind (needed-Kept _ _ _)
          λ r _. Preserves-bind (needed-Kept _ _ _) λ i _. Preserves-pure _ tt

    subnet_ids-Kept : (ids : List String) (t : String) → Kept (subnet_ids c (c.clients a b) ids t)
    unfolding subnet_ids
    subnet_ids-Kept ids t =
        Preserves-bind (tried-Kept _ _ (q.subnets a b _ _))
          λ d _. Preserves-bind (needed-Kept _ _ _) λ s _. Preserves-pure _ tt

    with_role-Kept :
        (role : Option String) (build : String → Exec W ProviderError CreatedCluster)
        → ((arn : String) → Kept (build arn))
        → Kept (with_role c (c.clients a b) role build)
    unfolding with_role instance_profile_arn
    with_role-Kept none build k = Preserves-pure _ tt
    with_role-Kept (some role) build k =
        Preserves-bind
          (Preserves-bind (tried-Kept _ _ (q.profiles a b _))
            λ l _. Preserves-bind (needed-Kept _ _ _) λ p _. from-Kept _)
          λ arn _. Preserves-bind (k arn) λ r _. Preserves-pure _ tt

    pub created_cluster-Kept :
        (kubeconfig name region : String) (rounds : ℕ)
        → Kept (created_cluster c (c.clients a b) kubeconfig name region rounds)
    unfolding created_cluster nodegroup_iam_role
    created_cluster-Kept kubeconfig name region rounds =
        Preserves-bind (tried-Kept _ _ (Preserves-context _ (q.cluster a b name))) λ d _.
          Preserves-bind (needed-Kept _ _ _) λ cluster _. Preserves-bind (from-Kept _) λ ids _.
            Preserves-bind (from-Kept _) λ e _. Preserves-bind (from-Kept _) λ x _.
              Preserves-bind (from-Kept _) λ y _. Preserves-bind (from-Kept _) λ sg _.
                Preserves-bind (subnet_ids-Kept _ _) λ p _.
                  Preserves-bind (subnet_ids-Kept _ _) λ r _.
                    Preserves-bind
                      (Preserves-bind (stack_name-Kept _ rounds none) λ n _. role_of-Kept n)
                      λ role _. with_role-Kept role _ (λ arn. Preserves-pure _ tt)
