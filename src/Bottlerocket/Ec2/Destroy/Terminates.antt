-- ===== src/Bottlerocket/Ec2/Destroy/Terminates.antt =====
-- A destruction of EC2 instances that succeeds has terminated them.
use mathlib.Core.Path.{subst}
use bottlerocket_test_system.Base.{String, Option, none, List, ◌∷◌, ◌≡◌, refl, ◌∙◌, ap, sym}
use bottlerocket_test_system.Base.Result.{ok, map_err-ok, ok-injective}
use bottlerocket_test_system.Base.Exec.{◌>>=◌, context}
use bottlerocket_test_system.Base.Exec.Runs.{
  Ensures, Yields, Ensures-after, Ensures-bind, Ensures-pure, Ensures-context, Ensures-first,
  chain-ok,
}
use bottlerocket_test_system.Agents.Utils.Aws.{SdkConfig, aws_config}
use bottlerocket_test_system.Bottlerocket.AgentConfig.{Ec2Config}
use bottlerocket_test_system.Bottlerocket.Provider.{Spec, InfoClient, tried}
use bottlerocket_test_system.Bottlerocket.Provider.Keeps.{Keeps}
use bottlerocket_test_system.Bottlerocket.Ec2.{ProductionMemo, CreatedEc2Instances, Cloud}
use bottlerocket_test_system.Bottlerocket.Ec2.Create.{Limits, config_for, create}
use bottlerocket_test_system.Bottlerocket.Ec2.Create.Stored.{create-IsStored}
use bottlerocket_test_system.Bottlerocket.Ec2.Destroy.{known_ids, find_ids, terminate, destroy}

-- The service of a region was asked to terminate instances, and said that it does.
pub record IsTerminated {W : Type 0} (c : Cloud W) (region : String) (ids : List String)
    : Type 0 where
  pub config : SdkConfig
  pub in_region : config.region ≡ region
  pub world : W
  pub said : ((c.ec2 config).terminate_instances ids world).0 ≡ ok tt

module _ {W : Type 0} (c : Cloud W) (client : InfoClient W ProductionMemo) (limits : Limits) where
  config_for-region :
      (secret role : Option String) (region : String)
      → Yields (λ config. config.region ≡ region) (config_for c secret role region)
  unfolding config_for aws_config
  config_for-region secret role region =
      Ensures-context _ _ (Ensures-bind _ _ λ b. Ensures-bind _ _ λ u. Ensures-pure _ λ w. refl)

  terminate-IsTerminated :
      (config : SdkConfig) (i : String) (is : List String) (memo : ProductionMemo)
      → config.region ≡ memo.region
      → Ensures
          (λ u w. IsTerminated c memo.region (i ∷ is))
          (terminate c client limits config (i ∷ is) memo)
  unfolding terminate tried context
  terminate-IsTerminated config i is memo r = Ensures-bind _ _ λ u. record {
    at = λ w a h.
        let s = (Ensures-first _ _).at w a h in
        record {
          config = config;
          in_region = r;
          world = s.0;
          said = map_err-ok _ ((c.ec2 config).terminate_instances (i ∷ is) s.0).0 s.2;
        };
  }

  find_ids-known :
      (config : SdkConfig) (i : String) (is ids : List String) (memo : ProductionMemo)
      → ids ≡ i ∷ is
      → Yields (λ found. found ≡ i ∷ is) (find_ids c client limits (c.ec2 config) ids memo)
  unfolding find_ids
  find_ids-known config i is ids memo e = rw e (Ensures-pure _ λ w. refl)

  found :
      (resource : Option CreatedEc2Instances) (memo : ProductionMemo) (i : String)
      (is : List String)
      → known_ids resource memo ≡ i ∷ is
      → (config : SdkConfig) → config.region ≡ memo.region
      → Ensures
          (λ u w. IsTerminated c memo.region (i ∷ is))
          (find_ids c client limits (c.ec2 config) (known_ids resource memo) memo >>= λ ids.
            terminate c client limits config ids memo)
  found resource memo i is e config r =
      Ensures-after _ _ (λ ids. ids ≡ i ∷ is) (find_ids-known config i is _ memo e)
        λ ids same. rw same (terminate-IsTerminated config i is memo r)

  destroy-found :
      (resource : Option CreatedEc2Instances) (memo : ProductionMemo) (i : String)
      (is : List String)
      → known_ids resource memo ≡ i ∷ is
      → Ensures
          (λ u w. IsTerminated c memo.region (i ∷ is))
          (config_for c memo.aws_secret_name memo.assume_role memo.region >>= λ config.
            find_ids c client limits (c.ec2 config) (known_ids resource memo) memo >>= λ ids.
            terminate c client limits config ids memo)
  destroy-found resource memo i is e =
      Ensures-after _ _ (λ config. config.region ≡ memo.region)
        (config_for-region memo.aws_secret_name memo.assume_role memo.region)
        λ config r. found resource memo i is e config r

  -- If the destruction of EC2 instances succeeds, and the resource, or without one the memo, has at least
  -- one id, then the termination of all these ids was requested of the service in the memo's region,
  -- which accepted it.
  destroy-IsTerminated :
      (resource : Option CreatedEc2Instances) (memo : ProductionMemo) (i : String)
      (is : List String) (w : W)
      → (client.get_info w).0 ≡ ok memo
      → known_ids resource memo ≡ i ∷ is
      → (destroy c client limits resource w).0 ≡ ok tt
      → IsTerminated c memo.region (i ∷ is)
  unfolding destroy tried context
  destroy-IsTerminated resource memo i is w e k h =
      let s = chain-ok _ _ w tt h in
      let read = map_err-ok _ (client.get_info w).0 s.1 in
      let same : s.0 ≡ memo = ok-injective {E = String} (sym read ∙ e) in
      let known : known_ids resource s.0 ≡ i ∷ is = ap (known_ids resource) same ∙ k in
      let done = (destroy-found resource s.0 i is known).at _ tt s.3 in
      subst (λ m. IsTerminated c m.region (i ∷ is)) same done

  -- Let a read of the info client answer the memo that was sent last. If the creation of EC2 instances
  -- succeeds with at least one id, then a destruction that starts where it ended, that is not given the
  -- resource and that succeeds has requested the termination of all the ids that the creation answered,
  -- in the region of the specification.
  pub create-destroy :
      (spec : Spec Ec2Config) (created : CreatedEc2Instances) (i : String) (is : List String)
      (w : W)
      → Keeps client
      → (create c client limits spec w).0 ≡ ok created
      → created.ids ≡ i ∷ is
      → (destroy c client limits none (create c client limits spec w).1).0 ≡ ok tt
      → IsTerminated c spec.configuration.region (i ∷ is)
  unfolding known_ids
  create-destroy spec created i is w k h e d =
      let s = create-IsStored c client spec limits w created k h in
      let known =
        destroy-IsTerminated none s.memo i is (create c client limits spec w).1 s.read_back
          (s.same_ids ∙ e) d in
      rw s.same_region at known
