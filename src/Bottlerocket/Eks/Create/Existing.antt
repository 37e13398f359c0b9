-- ===== src/Bottlerocket/Eks/Create/Existing.antt =====
-- An EKS cluster that existed before is not deleted.
use bottlerocket_test_system.Base.{
  ℕ, String, Bool, true, false, Option, none, some, ◌≡◌, refl, ◌∙◌, arith,
}
use bottlerocket_test_system.Base.Result.{ok, ok-injective}
use bottlerocket_test_system.Base.Exec.{Exec, ◌>>◌, pure, attempt}
use bottlerocket_test_system.Base.Exec.Runs.{bind-agree}
use bottlerocket_test_system.Base.Exec.Preserves.{
  Preserves, Anything, Preserves-pure, Preserves-throw, Preserves-read, Preserves-bind,
  Preserves-match_result,
}
use bottlerocket_test_system.Agents.ResourceAgent.ProviderError.{remaining, ProviderError}
use bottlerocket_test_system.Agents.Utils.Aws.{SdkConfig}
use bottlerocket_test_system.Bottlerocket.AgentConfig.{
  CreationPolicy, create as create_policy, if_not_exists, never, EksClusterConfig,
}
use bottlerocket_test_system.Bottlerocket.Provider.{Spec, InfoClient, tried}
use bottlerocket_test_system.Bottlerocket.Provider.Keeps.{Stored, tried-ok}
use bottlerocket_test_system.Bottlerocket.Policy.{is_cluster_creation_required}
use bottlerocket_test_system.Bottlerocket.Eks.{
  ProductionMemo, CreatedCluster, AwsClients, Cloud, ClusterConfig, cluster_name_of, region_of,
}
use bottlerocket_test_system.Bottlerocket.Eks.Lookup.{
  not_found, does_cluster_exist, created_cluster,
}
use bottlerocket_test_system.Bottlerocket.Eks.Quiet.{
  IsQuiet, tried-Kept, write_kubeconfig-Kept, created_cluster-Kept,
}
use bottlerocket_test_system.Bottlerocket.Eks.Create.{
  Prepared, status, is_eks_cluster_creation_required, provision, finish, describe, create, destroy,
  destroy_of,
}
use bottlerocket_test_system.Bottlerocket.Eks.Create.Steps.{tell-Kept, prepare-Kept}

-- the provisioning was not started
abbrev pub NotStarted : ProductionMemo → Type 0
NotStarted m = m.provisioning_started ≡ false

-- The service never says that it does not find a cluster.
pub record IsFound {W : Type 0} (c : Cloud W) : Type 0 where
  pub found :
      (a b : SdkConfig) (name : String) (w : W)
      → not_found ((c.clients a b).describe_cluster name w).0 ≡ false

-- a destruction that only reads the memo
pub only_read : {W : Type 0} → InfoClient W ProductionMemo → Exec W ProviderError (Unit {0})
only_read client = tried remaining "Unable to get info from client" client.get_info >> pure tt

module _ {W : Type 0} (c : Cloud W) (client : InfoClient W ProductionMemo)
    (q : IsQuiet NotStarted c client) (spec : Spec EksClusterConfig) where
  Kept : {A : Type 0} → (A → Type 0) → Exec W ProviderError A → Type 0
  Kept Q m = Preserves (Stored NotStarted client) Q m

  -- for a cluster that exists, no policy requires a creation
  required_for :
      (name : String) (p : CreationPolicy) (r : Bool × String)
      → is_cluster_creation_required true name p ≡ ok r
      → r.0 ≡ false
  unfolding is_cluster_creation_required
  required_for name create_policy r h = absurd (cc)
  required_for name if_not_exists r h = ground (arith, h)
  required_for name never r h = ground (arith, h)

  exists-Kept :
      (f : IsFound c) (a b : SdkConfig) (name : String)
      → Kept (λ x. x ≡ true) (does_cluster_exist c (c.clients a b) name)
  unfolding does_cluster_exist attempt Kept
  exists-Kept f a b name =
      Preserves-bind {Q = λ r. not_found r ≡ false}
        (record {
          at = (q.cluster a b name).at;
          yields = λ w p r h. let e = ok-injective h in rw (← e) (f.found a b name w);
        })
        λ r t. rw t (Preserves-match_result r (λ o. Preserves-pure _ refl) (λ e. Preserves-throw _))

  required-Kept :
      (f : IsFound c) (a b : SdkConfig) (clients : AwsClients W) (name : String)
      (p : CreationPolicy)
      → clients ≡ c.clients a b
      → Kept (λ r. r.0 ≡ false) (is_eks_cluster_creation_required c clients name p)
  unfolding is_eks_cluster_creation_required Kept
  required-Kept f a b clients name p e = rw e (
      Preserves-bind (exists-Kept f a b name)
        λ x t. Preserves-read _ λ w r h. required_for name p r (rw t at h))

  finish-Kept :
      (cluster : ClusterConfig) (m : ProductionMemo) (o : Option CreatedCluster)
      → NotStarted m
      → Kept Anything (finish c client spec cluster m o)
  unfolding finish Kept
  finish-Kept cluster m none u = Preserves-pure _ tt
  finish-Kept cluster m (some created) u =
      Preserves-bind (tried-Kept q _ _ (q.send _ u)) λ _ _. Preserves-pure _ tt

  describe-Kept :
      (rounds : ℕ) (a b : SdkConfig) (p : Prepared W) (m : ProductionMemo)
      → NotStarted m
      → p.clients ≡ c.clients a b
      → Kept Anything (describe c client spec rounds p m)
  unfolding describe Kept
  describe-Kept rounds a b p m u e = Preserves-bind (tell-Kept q spec _ _ u) λ _ _.
      Preserves-bind (write_kubeconfig-Kept q _ _ _ _) λ _ _.
        Preserves-bind (tried-Kept q _ _ (q.read_to_string _)) λ k _.
          Preserves-bind (tell-Kept q spec _ _ u) λ _ _.
            Preserves-bind (known k)
              λ o _. finish-Kept p.cluster (status m "Collecting cluster info") o u
    where
      known :
          (k : String)
          → Preserves (Stored NotStarted client) Anything (
              created_cluster c p.clients
                (c.encode k)
                (cluster_name_of p.cluster)
                (region_of p.cluster)
                rounds)
      known k = rw e (created_cluster-Kept q a b _ _ _ rounds)

  provision-Kept :
      (cluster : ClusterConfig) (b : Bool) (m : ProductionMemo)
      → b ≡ false
      → NotStarted m
      → Kept NotStarted (provision c client spec cluster b m)
  unfolding provision Kept
  provision-Kept cluster true m e u = absurd (cc)
  provision-Kept cluster false m e u = Preserves-pure _ u

  create-Kept : (rounds : ℕ) → IsFound c → Kept Anything (create c client spec rounds)
  unfolding create Kept
  create-Kept rounds f = Preserves-bind (prepare-Kept q spec (λ m n e g u. g ∙ u)) λ p k.
      Preserves-bind (required-Kept f k.1 k.2 p.clients _ _ k.3) λ r n.
        Preserves-bind (tell-Kept q spec _ _ k.0) λ _ _.
          Preserves-bind (provision-Kept p.cluster r.0 (status p.memo r.1) n k.0)
            λ m u. describe-Kept rounds k.1 k.2 p m u k.3

  destroy-only_read : (w : W) → Stored NotStarted client w → destroy c client w ≡ only_read client w
  unfolding destroy only_read destroy_of
  destroy-only_read w u =
      bind-agree (tried remaining _ client.get_info) _ _ w
        λ memo h v. let e = u.holds memo (tried-ok remaining _ client.get_info w h) in rw e refl

  -- The service never says that it does not find a cluster, the memo of the info client does not say that provisioning was
  -- started, and no call but the info client's own changes it. Then, however the creation ends, a
  -- destruction that follows only reads the memo: the cluster is not deleted.
  pub create-destroy_existing :
      (rounds : ℕ) (w : W)
      → IsFound c
      → Stored NotStarted client w
      → destroy c client (create c client spec rounds w).1
        ≡ only_read client (create c client spec rounds w).1
  unfolding Kept
  create-destroy_existing rounds w f u =
      destroy-only_read (create c client spec rounds w).1 ((create-Kept rounds f).at w u)
