-- ===== src/Bottlerocket/Eks/Create/Steps.antt =====
-- The steps of the creation of an EKS cluster keep a property of the memo that is stored, if it does not
-- depend on more than the name of the cluster and whether its provisioning was started.
use bottlerocket_test_system.Base.{String, ◌≡◌, refl}
use bottlerocket_test_system.Base.Exec.Preserves.{
  Preserves, Anything, Preserves-pure, Preserves-context, Preserves-bind,
}
use bottlerocket_test_system.Agents.ResourceAgent.ProviderError.{Resources}
use bottlerocket_test_system.Agents.Utils.Aws.{SdkConfig}
use bottlerocket_test_system.Bottlerocket.AgentConfig.{CreationPolicy, EksClusterConfig}
use bottlerocket_test_system.Bottlerocket.Provider.{Spec, InfoClient, tried}
use bottlerocket_test_system.Bottlerocket.Provider.Keeps.{Stored}
use bottlerocket_test_system.Bottlerocket.Eks.{ProductionMemo, AwsClients, Cloud}
use bottlerocket_test_system.Bottlerocket.Eks.Create.{
  prepare, is_eks_cluster_creation_required, tell,
}
use bottlerocket_test_system.Bottlerocket.Eks.Quiet.{
  IsQuiet, tried-Kept, from-Kept, config_for-Kept, new-Kept, does_cluster_exist-Kept,
}

module _ {W : Type 0} {P : ProductionMemo → Type 0} {c : Cloud W}
    {client : InfoClient W ProductionMemo} (q : IsQuiet P c client)
    (spec : Spec EksClusterConfig) where
  pub tell-Kept :
      (r : Resources) (m : ProductionMemo)
      → P m
      → Preserves (Stored P client) Anything (tell c client spec r m)
  unfolding tell
  tell-Kept r m u = tried-Kept q _ _ (q.send m u)

  get-Kept :
      (r : Resources) (text : String) → Preserves (Stored P client) P (tried r text client.get_info)
  unfolding tried
  get-Kept r text = Preserves-context _ record { at = q.get.at; yields = λ w p m h. p.holds m h }

  pub prepare-Kept :
      ((m n : ProductionMemo)
        → n.cluster_name ≡ m.cluster_name
        → n.provisioning_started ≡ m.provisioning_started
        → P m
        → P n)
      → Preserves
          (Stored P client)
          (λ p. P p.memo × (a : SdkConfig) × (b : SdkConfig) × (p.clients ≡ c.clients a b))
          (prepare c client spec)
  unfolding prepare
  prepare-Kept carry = Preserves-bind (get-Kept _ _) λ stored u.
      Preserves-bind (tell-Kept _ _ (carry stored _ refl refl u)) λ _ _.
        Preserves-bind (new-Kept q _) λ cluster _.
          Preserves-bind (tell-Kept _ _ (carry stored _ refl refl u)) λ _ _.
            Preserves-bind (tell-Kept _ _ (carry stored _ refl refl u)) λ _ _.
              Preserves-bind (config_for-Kept q _ _ _ _ _) λ a _.
                Preserves-bind (config_for-Kept q _ _ _ _ _) λ b _.
                  Preserves-bind (tell-Kept _ _ (carry stored _ refl refl u))
                    λ _ _. Preserves-pure _ (carry stored _ refl refl u, a, b, refl)

  pub required-Kept :
      (a b : SdkConfig) (clients : AwsClients W) (name : String) (p : CreationPolicy)
      → clients ≡ c.clients a b
      → Preserves (Stored P client) Anything (is_eks_cluster_creation_required c clients name p)
  unfolding is_eks_cluster_creation_required
  required-Kept a b clients name p e =
      rw e (Preserves-bind (does_cluster_exist-Kept q a b name) λ x _. from-Kept q _)
