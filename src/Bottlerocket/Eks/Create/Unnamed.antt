-- ===== src/Bottlerocket/Eks/Create/Unnamed.antt =====
-- The destruction of an EKS cluster after a creation that failed.
use bottlerocket_test_system.Base.{
  ℕ, String, Bool, true, false, Option, none, some, ◌≡◌, refl, ◌∙◌, if◌then◌else◌,
}
use bottlerocket_test_system.Base.Result.{err}
use bottlerocket_test_system.Base.Exec.{Exec, ◌>>=◌, pure, throw}
use bottlerocket_test_system.Base.Exec.Runs.{bind-agree}
use bottlerocket_test_system.Base.Exec.Preserves.{
  Preserves, Anything, FailsIn, Preserves-pure, Preserves-bind, FailsIn-context, FailsIn-bind,
  FailsIn-last, Preserves-FailsIn,
}
use bottlerocket_test_system.Agents.ResourceAgent.ProviderError.{
  remaining, unknown, ProviderError, new_with_context,
}
use bottlerocket_test_system.Agents.Utils.Aws.{SdkConfig}
use bottlerocket_test_system.Bottlerocket.AgentConfig.{EksClusterConfig}
use bottlerocket_test_system.Bottlerocket.Provider.{Spec, InfoClient, tried}
use bottlerocket_test_system.Bottlerocket.Provider.Keeps.{Stored, tried-ok}
use bottlerocket_test_system.Bottlerocket.Eks.{
  ProductionMemo, CreatedCluster, Cloud, ClusterConfig, cluster_name_of, region_of,
}
use bottlerocket_test_system.Bottlerocket.Eks.Create.{
  Prepared, status, provision, finish, describe, create, destroy, destroy_of,
}
use bottlerocket_test_system.Bottlerocket.Eks.Create.Steps.{tell-Kept, prepare-Kept, required-Kept}
use bottlerocket_test_system.Bottlerocket.Eks.Lookup.{created_cluster}
use bottlerocket_test_system.Bottlerocket.Eks.Quiet.{
  IsQuiet, tried-Kept, create_cluster-Kept, write_kubeconfig-Kept, created_cluster-Kept,
}

-- the memo names no cluster
abbrev pub Unnamed : ProductionMemo → Type 0
Unnamed m = m.cluster_name ≡ none

-- a destruction without a name: nothing is run
unfoldable pub nothing_deleted :
    {W : Type 0} → InfoClient W ProductionMemo → Exec W ProviderError (Unit {0})
nothing_deleted client = do
  memo ← tried remaining "Unable to get info from client" client.get_info
  (if memo.provisioning_started
      then throw (new_with_context unknown "Unable to obtain cluster name")
      else pure tt)

module _ {W : Type 0} (c : Cloud W) (client : InfoClient W ProductionMemo)
    (q : IsQuiet Unnamed c client) (spec : Spec EksClusterConfig) where
  Kept : {A : Type 0} → (A → Type 0) → Exec W ProviderError A → Type 0
  Kept Q m = Preserves (Stored Unnamed client) Q m

  carry :
      (m n : ProductionMemo)
      → n.cluster_name ≡ m.cluster_name
      → n.provisioning_started ≡ m.provisioning_started
      → Unnamed m
      → Unnamed n
  carry m n e f u = e ∙ u

  provision-Kept :
      (cluster : ClusterConfig) (b : Bool) (m : ProductionMemo)
      → Unnamed m
      → Kept Unnamed (provision c client spec cluster b m)
  unfolding provision Kept
  provision-Kept cluster false m u = Preserves-pure _ u
  provision-Kept cluster true m u = Preserves-bind (tell-Kept q spec _ _ u) λ _ _.
      Preserves-bind (create_cluster-Kept q cluster)
        λ _ _. Preserves-bind (tell-Kept q spec _ _ u) λ _ _. Preserves-pure _ u

  finish-FailsIn :
      (cluster : ClusterConfig) (m : ProductionMemo) (o : Option CreatedCluster)
      → Unnamed m
      → FailsIn (Stored Unnamed client) (finish c client spec cluster m o)
  unfolding finish tried
  finish-FailsIn cluster m none u = Preserves-FailsIn {Q = Anything} (Preserves-pure _ tt)
  finish-FailsIn cluster m (some created) u =
      FailsIn-last (λ _. some created) (FailsIn-context _ (q.send_fails _))

  describe-FailsIn :
      (rounds : ℕ) (a b : SdkConfig) (p : Prepared W) (m : ProductionMemo)
      → Unnamed m
      → p.clients ≡ c.clients a b
      → FailsIn (Stored Unnamed client) (describe c client spec rounds p m)
  unfolding describe Kept
  describe-FailsIn rounds a b p m u e = FailsIn-bind (tell-Kept q spec _ _ u) λ _ _.
      FailsIn-bind (write_kubeconfig-Kept q _ _ _ _) λ _ _.
        FailsIn-bind (tried-Kept q _ _ (q.read_to_string _)) λ k _.
          FailsIn-bind (tell-Kept q spec _ _ u) λ _ _.
            FailsIn-bind (known k)
              λ o _. finish-FailsIn p.cluster (status m "Collecting cluster info") o u
    where
      known :
          (k : String)
          → Preserves (Stored Unnamed client) Anything (
              created_cluster c p.clients
                (c.encode k)
                (cluster_name_of p.cluster)
                (region_of p.cluster)
                rounds)
      known k = rw e (created_cluster-Kept q a b _ _ _ rounds)

  create-FailsIn : (rounds : ℕ) → FailsIn (Stored Unnamed client) (create c client spec rounds)
  unfolding create Kept
  create-FailsIn rounds = FailsIn-bind (prepare-Kept q spec carry) λ p k.
      FailsIn-bind (required-Kept q spec k.1 k.2 p.clients _ _ k.3) λ r _.
        FailsIn-bind (tell-Kept q spec _ _ k.0) λ _ _.
          FailsIn-bind (provision-Kept p.cluster r.0 _ k.0)
            λ m u. describe-FailsIn rounds k.1 k.2 p m u k.3

  destroy-nothing :
      (w : W) → Stored Unnamed client w → destroy c client w ≡ nothing_deleted client w
  unfolding destroy nothing_deleted destroy_of
  destroy-nothing w u = bind-agree (tried remaining _ client.get_info) _ _ w λ memo h v.
      by_name memo memo.provisioning_started
        (u.holds memo (tried-ok remaining _ client.get_info w h)) v
    where
      by_name :
          (memo : ProductionMemo) (b : Bool) (e : memo.cluster_name ≡ none) (v : W)
          → destroy_of c client memo b memo.cluster_name v
            ≡ (if b
                  then throw (new_with_context unknown "Unable to obtain cluster name")
                  else pure tt)
                v
      by_name memo true e v = rw e refl
      by_name memo false e v = refl

  -- The info client holds no memo that names a cluster, as before the first creation, and no call but
  -- its own changes the memo it holds. If the creation fails, at whatever call, also after eksctl has
  -- made the cluster, then a destruction that follows never runs eksctl: it does nothing or fails.
  pub create-destroy-Unnamed :
      (rounds : ℕ) (w : W) (e : ProviderError)
      → Stored Unnamed client w
      → (create c client spec rounds w).0 ≡ err e
      → destroy c client (create c client spec rounds w).1
        ≡ nothing_deleted client (create c client spec rounds w).1
  create-destroy-Unnamed rounds w e u h =
      destroy-nothing (create c client spec rounds w).1 ((create-FailsIn rounds).at w u e h)
