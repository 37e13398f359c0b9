-- ===== src/Bottlerocket/Ecs/Leaks.antt =====
-- The creation of an ECS cluster fails after the cluster was made: the destruction does not find it.
use bottlerocket_test_system.Base.{ℕ, String, Option, none, some, ◌≡◌, refl}
use bottlerocket_test_system.Base.Result.{ok, err}
use bottlerocket_test_system.Base.Exec.{Exec, ◌>>=◌, pure}
use bottlerocket_test_system.Base.Exec.Preserves.{
  Preserves, Anything, FailsIn, Preserves-pure, Preserves-throw, Preserves-context,
  Preserves-attempt, Preserves-bind, Preserves-if, FailsIn-context, FailsIn-bind, FailsIn-last,
}
use bottlerocket_test_system.Base.Exec.Runs.{bind-agree}
use bottlerocket_test_system.Agents.ResourceAgent.ProviderError.{
  Resources, remaining, ProviderError,
}
use bottlerocket_test_system.Agents.Utils.Aws.{SdkConfig}
use bottlerocket_test_system.Agents.Utils.Aws.Quiet
use bottlerocket_test_system.Agents.Utils.Aws.Quiet.{aws_config-Preserves}
use bottlerocket_test_system.Bottlerocket.AgentConfig.{EcsClusterConfig}
use bottlerocket_test_system.Bottlerocket.Provider.{Spec, InfoClient, tried, needed}
use bottlerocket_test_system.Bottlerocket.Provider.Keeps.{tried-ok}
use bottlerocket_test_system.Bottlerocket.Ecs.{Memo, Cloud, EcsClient, Filter}
use bottlerocket_test_system.Bottlerocket.Ecs.Cluster.{
  config_of, instance_profile_arn, create_iam_instance_profile, created_cluster, default_vpc,
  vpc_or_default, subnet_ids, SubnetType,
}
use bottlerocket_test_system.Bottlerocket.Ecs.Create.{
  prepare, describe, create, delete, destroy, profile_of,
}

-- the memo names no cluster
abbrev Unnamed : Memo → Type 0
Unnamed m = m.cluster_name ≡ none

-- The info client holds no memo that names a cluster.
pub record IsUnnamed {W : Type 0} (client : InfoClient W Memo) (w : W) : Type 0 where
  pub unnamed : (m : Memo) → (client.get_info w).0 ≡ ok m → m.cluster_name ≡ none

-- No call of AWS changes the memo that the info client holds, nor does a message that fails; a message
-- that succeeds stores no name that its memo has not.
pub record IsQuiet {W : Type 0} (c : Cloud W) (client : InfoClient W Memo) : Type 0 where
  pub get : Preserves (IsUnnamed client) Anything client.get_info
  pub send :
      (m : Memo)
      → m.cluster_name ≡ none
      → Preserves (IsUnnamed client) Anything (client.send_info m)
  pub send_fails : (m : Memo) → FailsIn (IsUnnamed client) (client.send_info m)
  pub environment : Quiet.IsQuiet (IsUnnamed client) c.environment
  pub create_cluster :
      (config : SdkConfig) (name : String)
      → Preserves (IsUnnamed client) Anything ((c.ecs config).create_cluster name)
  pub get_profile :
      (config : SdkConfig) (name : String)
      → Preserves (IsUnnamed client) Anything ((c.iam config).get_instance_profile name)
  pub create_role :
      (config : SdkConfig) (name document : String)
      → Preserves (IsUnnamed client) Anything ((c.iam config).send_create_role name document)
  pub attach_role :
      (config : SdkConfig) (name arn : String)
      → Preserves (IsUnnamed client) Anything ((c.iam config).send_attach_role_policy name arn)
  pub create_profile :
      (config : SdkConfig) (name : String)
      → Preserves (IsUnnamed client) Anything ((c.iam config).send_create_instance_profile name)
  pub add_role :
      (config : SdkConfig) (profile role : String)
      → Preserves
          (IsUnnamed client)
          Anything
          ((c.iam config).send_add_role_to_instance_profile profile role)
  pub vpcs :
      (config : SdkConfig) (f : Filter)
      → Preserves (IsUnnamed client) Anything ((c.ec2 config).describe_vpcs f)
  pub subnets :
      (config : SdkConfig) (f : Filter)
      → Preserves (IsUnnamed client) Anything ((c.ec2 config).describe_subnets f)

-- a destruction that reads the memo and makes a configuration, and nothing else
unfoldable pub nothing_deleted :
    {W : Type 0} → Cloud W → InfoClient W Memo → Exec W ProviderError (Unit {0})
nothing_deleted c client = do
  memo ← tried remaining "Unable to get info from client" client.get_info
  config ← config_of c memo.aws_secret_name memo.assume_role memo.region
  pure tt

module _ {W : Type 0} (c : Cloud W) (client : InfoClient W Memo) (q : IsQuiet c client) where
  Kept : {E A : Type 0} → (A → Type 0) → Exec W E A → Type 0
  Kept Q m = Preserves (IsUnnamed client) Q m

  tell-Kept :
      (r : Resources) (text : String) (m : Memo)
      → Unnamed m
      → Kept Anything (tried r text (client.send_info m))
  unfolding tried Kept
  tell-Kept r text m u = Preserves-context _ (q.send m u)

  tried-Kept :
      {A : Type 0} (r : Resources) (text : String) {m : Exec W String A}
      → Preserves (IsUnnamed client) Anything m
      → Kept Anything (tried r text m)
  unfolding tried Kept
  tried-Kept r text k = Preserves-context _ k

  needed-Kept :
      {A : Type 0} (r : Resources) (text : String) (o : Option A)
      → Kept Anything (needed {W = W} r text o)
  unfolding needed Kept
  needed-Kept r text none = Preserves-throw _
  needed-Kept r text (some a) = Preserves-pure a tt

  -- what is read from the info client names no cluster
  get-Kept : (r : Resources) (text : String) → Kept Unnamed (tried r text client.get_info)
  unfolding tried Kept
  get-Kept r text = Preserves-context _ record { at = q.get.at; yields = λ w p m h. p.unnamed m h }

  config_of-Kept :
      (secret role region : Option String) → Kept Anything (config_of c secret role region)
  unfolding Kept
  config_of-Kept secret role region =
      Preserves-context _
        (aws_config-Preserves c.environment q.environment secret role none region none _)

  prepare-Kept : (spec : Spec EcsClusterConfig) → Kept (λ p. Unnamed p.0) (prepare c client spec)
  unfolding prepare Kept
  prepare-Kept spec = Preserves-bind (get-Kept _ _) λ stored u.
      Preserves-bind (tell-Kept _ _ _ u) λ _ _. Preserves-bind (tell-Kept _ _ _ u) λ _ _.
        Preserves-bind (tell-Kept _ _ _ u) λ _ _.
          Preserves-bind (config_of-Kept _ _ _)
            λ config _. Preserves-bind (tell-Kept _ _ _ u) λ _ _. Preserves-pure _ u

  arn-Kept :
      (config : SdkConfig) (name : String)
      → Kept Anything (instance_profile_arn c (c.iam config) name)
  unfolding instance_profile_arn Kept
  arn-Kept config name =
      Preserves-bind (tried-Kept _ _ (Preserves-context _ (q.get_profile config name)))
        λ p _. needed-Kept _ _ _

  create_profile-Kept :
      (config : SdkConfig) → Kept Anything (create_iam_instance_profile c (c.iam config))
  unfolding create_iam_instance_profile Kept
  create_profile-Kept config = Preserves-bind (Preserves-attempt (q.get_profile config _)) λ r _.
      Preserves-bind
        (Preserves-if _ (Preserves-pure _ tt) (
          Preserves-bind (tried-Kept _ _ (q.create_role config _ _)) λ _ _.
            Preserves-bind (tried-Kept _ _ (q.attach_role config _ _)) λ _ _.
              Preserves-bind (tried-Kept _ _ (q.attach_role config _ _)) λ _ _.
                Preserves-bind (tried-Kept _ _ (q.create_profile config _))
                  λ _ _. tried-Kept _ _ (q.add_role config _ _)))
        λ _ _. arn-Kept config _

  profile_of-Kept :
      (config : SdkConfig) (name : Option String) (m : Memo)
      → Unnamed m
      → Kept (λ r. Unnamed r.1) (profile_of c client config name m)
  unfolding profile_of Kept
  profile_of-Kept config (some name) m u =
      Preserves-bind (Preserves-context _ (arn-Kept config name)) λ arn _. Preserves-pure _ u
  profile_of-Kept config none m u =
      Preserves-bind (tell-Kept _ _ _ u)
        λ _ _. Preserves-bind (create_profile-Kept config) λ arn _. Preserves-pure _ u

  vpc-Kept :
      (config : SdkConfig) (vpc : Option String)
      → Kept Anything (vpc_or_default c (c.ec2 config) vpc)
  unfolding default_vpc Kept
  vpc-Kept config none = Preserves-bind (tried-Kept _ _ (q.vpcs config _)) λ v _. needed-Kept _ _ _
  vpc-Kept config (some vpc) = Preserves-pure _ tt

  subnet_ids-Kept :
      (config : SdkConfig) (t : SubnetType) (vpc : String)
      → Kept Anything (subnet_ids c (c.ec2 config) t vpc)
  unfolding subnet_ids Kept
  subnet_ids-Kept config t vpc =
      Preserves-bind (tried-Kept _ _ (q.subnets config _))
        λ d _. Preserves-bind (needed-Kept _ _ _) λ s _. Preserves-pure _ tt

  created_cluster-Kept :
      (config : SdkConfig) (name region : String) (vpc : Option String) (arn : String)
      → Kept Anything (created_cluster c config name region vpc arn)
  unfolding created_cluster Kept
  created_cluster-Kept config name region vpc arn = Preserves-bind (vpc-Kept config vpc) λ v _.
      Preserves-bind (subnet_ids-Kept config SubnetType.public_subnet v) λ a _.
        Preserves-bind (subnet_ids-Kept config SubnetType.private_subnet v)
          λ b _. Preserves-pure _ tt

  describe-FailsIn :
      (spec : Spec EcsClusterConfig) (config : SdkConfig) (m : Memo)
      → Unnamed m
      → FailsIn (IsUnnamed client) (describe c client spec config m)
  unfolding describe Kept
  describe-FailsIn spec config m u = FailsIn-bind (tell-Kept _ _ _ u) λ _ _.
      FailsIn-bind (profile_of-Kept config _ _ u) λ profile v.
        FailsIn-bind (tell-Kept _ _ _ v) λ _ _.
          FailsIn-bind (created_cluster-Kept config _ _ _ _) λ created _.
            FailsIn-last (λ _. created) (unfold tried in FailsIn-context _ (q.send_fails _))

  create-FailsIn :
      (spec : Spec EcsClusterConfig) → FailsIn (IsUnnamed client) (create c client spec)
  unfolding create Kept
  create-FailsIn spec = FailsIn-bind (prepare-Kept spec) λ p u.
      FailsIn-bind (tried-Kept _ _ (q.create_cluster p.1 _)) λ _ _. describe-FailsIn spec p.1 p.0 u

  destroy-nothing :
      (rounds : ℕ) (w : W)
      → IsUnnamed client w
      → destroy c client rounds w ≡ nothing_deleted c client w
  unfolding destroy nothing_deleted delete
  destroy-nothing rounds w u = bind-agree (tried remaining _ client.get_info) _ _ w λ memo h v.
      bind-agree (config_of c memo.aws_secret_name memo.assume_role memo.region) _ _ v λ config _ x.
        kept memo (c.ecs config) (u.unnamed memo (tried-ok remaining _ client.get_info w h)) x
    where
      kept :
          (memo : Memo) (ecs_client : EcsClient W) (e : memo.cluster_name ≡ none) (x : W)
          → delete c client ecs_client rounds memo.cluster_name memo x
            ≡ pure {E = ProviderError} tt x
      kept memo ecs_client e x = rw e refl

  -- The info client holds no memo that names a cluster, as before the first creation, and calls of AWS
  -- leave the memo alone. If the creation fails, at whatever call, also after the cluster was made,
  -- then a destruction that follows deletes nothing: it only reads the memo and makes a configuration.
  pub create-nothing_deleted :
      (spec : Spec EcsClusterConfig) (rounds : ℕ) (w : W) (e : ProviderError)
      → IsUnnamed client w
      → (create c client spec w).0 ≡ err e
      → destroy c client rounds (create c client spec w).1
        ≡ nothing_deleted c client (create c client spec w).1
  create-nothing_deleted spec rounds w e u h =
      destroy-nothing rounds (create c client spec w).1 ((create-FailsIn spec).at w u e h)
