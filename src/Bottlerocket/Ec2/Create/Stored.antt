-- ===== src/Bottlerocket/Ec2/Create/Stored.antt =====
-- The memo that a creation of EC2 instances leaves.
use bottlerocket_test_system.Base.{String, List, ◌≡◌, refl}
use bottlerocket_test_system.Base.Result.{ok}
use bottlerocket_test_system.Base.Exec.{pure}
use bottlerocket_test_system.Base.Exec.Runs.{
  Ensures, Yields, Ensures-after, Ensures-bind, Ensures-pure,
}
use bottlerocket_test_system.Base.Maps.{get}
use bottlerocket_test_system.Bottlerocket.AgentConfig.{Ec2Config}
use bottlerocket_test_system.Bottlerocket.Provider.{Spec, InfoClient, aws_credentials_secret_name}
use bottlerocket_test_system.Bottlerocket.Provider.Keeps.{Keeps, Ensures-sent}
use bottlerocket_test_system.Bottlerocket.Ec2.{
  ProductionMemo, CreatedEc2Instances, Ec2Client, Cloud,
}
use bottlerocket_test_system.Bottlerocket.Ec2.Launch.Memos.{run_instances-Holds}
use bottlerocket_test_system.Bottlerocket.Ec2.Create.{Limits, prepare, finish, create}

-- The memo has the specification's values.
pub record IsFilled (spec : Spec Ec2Config) (memo : ProductionMemo) : Type 0 where
  pub secret : memo.aws_secret_name ≡ get aws_credentials_secret_name spec.secrets
  pub role : memo.assume_role ≡ spec.configuration.assume_role
  pub cluster_type : memo.cluster_type ≡ spec.configuration.cluster_type
  pub cluster_name : memo.cluster_name ≡ spec.configuration.cluster_name

-- The info client holds the memo of the instances that were created.
pub record IsStored {W : Type 0} (client : InfoClient W ProductionMemo) (spec : Spec Ec2Config)
    (created : CreatedEc2Instances) (w : W) : Type 0 where
  pub memo : ProductionMemo
  pub read_back : (client.get_info w).0 ≡ ok memo
  pub same_ids : memo.instance_ids ≡ created.ids
  pub same_region : memo.region ≡ spec.configuration.region
  pub filled : IsFilled spec memo

module _ {W : Type 0} (c : Cloud W) (client : InfoClient W ProductionMemo)
    (spec : Spec Ec2Config) where
  prepare-IsFilled :
      (limits : Limits) → Yields (λ p. IsFilled spec p.0) (prepare c client limits spec)
  unfolding prepare
  prepare-IsFilled limits = Ensures-bind _ _ λ stored. Ensures-bind _ _ λ u. Ensures-bind _ _ λ _.
      Ensures-bind _ _ λ _. Ensures-bind _ _ λ _. Ensures-bind _ _ λ config. Ensures-bind _ _ λ _.
        Ensures-pure _
          λ w. record { secret = refl; role = refl; cluster_type = refl; cluster_name = refl }

  status-IsFilled :
      (m : ProductionMemo) (text : String)
      → IsFilled spec m
      → IsFilled spec (record m { current_status = text })
  status-IsFilled m text h = record {
    secret = h.secret;
    role = h.role;
    cluster_type = h.cluster_type;
    cluster_name = h.cluster_name;
  }

  finish-IsStored :
      (limits : Limits) (ec2_client : Ec2Client W) (ids : List String) (m : ProductionMemo)
      → Keeps client
      → IsFilled spec m
      → Ensures (IsStored client spec) (finish c client limits spec ec2_client ids m)
  unfolding finish pure
  finish-IsStored limits ec2_client ids m k h = Ensures-bind _ _ λ _. Ensures-bind _ _ λ _.
      Ensures-sent client k _ _ _ _ λ w e. record {
        memo = _;
        read_back = e;
        same_ids = refl;
        same_region = refl;
        filled = record {
          secret = h.secret;
          role = h.role;
          cluster_type = h.cluster_type;
          cluster_name = h.cluster_name;
        };
      }

  -- If the creation of EC2 instances succeeds, then the info client holds a memo with the ids that are
  -- answered, with the region, the role, the type and the name of the cluster of the specification, and
  -- with its secret of AWS credentials.
  pub create-IsStored :
      (limits : Limits) (w : W) (created : CreatedEc2Instances)
      → Keeps client
      → (create c client limits spec w).0 ≡ ok created
      → IsStored client spec created (create c client limits spec w).1
  unfolding create
  create-IsStored limits w created k h =
      let run : Ensures (IsStored client spec) (create c client limits spec) =
        Ensures-after _ _ (λ p. IsFilled spec p.0) (prepare-IsFilled limits)
          λ p f.
            Ensures-after _ _ (λ r. IsFilled spec r.1)
              (run_instances-Holds c client (IsFilled spec) status-IsFilled (c.ec2 p.1.1)
                spec.configuration p.1.0 limits.launch p.0 f)
              λ l g.
                Ensures-bind _ _
                  λ is. Ensures-bind _ _ λ ids. finish-IsStored limits (c.ec2 p.1.1) ids l.1 k g in
      run.at w created h
