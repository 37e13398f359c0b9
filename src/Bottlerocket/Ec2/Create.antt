-- ===== src/Bottlerocket/Ec2/Create.antt =====
-- bottlerocket/agents/src/bin/ec2-resource-agent/ec2_provider.rs: `create` of `Ec2Creator`.
pub mod Stored
pub mod Cleared
use bottlerocket_test_system.Base.{ℕ, String, false, Option, none, some, List, [], ◌∷◌}
use bottlerocket_test_system.Base.Result.{Result, ok, err}
use bottlerocket_test_system.Base.Exec.{Exec, ◌>>=◌, ◌>>◌, pure, throw, context}
use bottlerocket_test_system.Base.Maps.{get}
use bottlerocket_test_system.Agents.ResourceAgent.ProviderError.{
  Resources, unknown, clear, remaining, ProviderError, new_with_context,
  new_with_source_and_context,
}
use bottlerocket_test_system.Agents.Utils.Aws.{SdkConfig, aws_config}
use bottlerocket_test_system.Bottlerocket.AgentConfig.{Ec2Config}
use bottlerocket_test_system.Bottlerocket.Provider.{
  Spec, InfoClient, aws_credentials_secret_name, tried, needed, in_time,
}
use bottlerocket_test_system.Bottlerocket.Ec2.{
  ProductionMemo, CreatedEc2Instances, Ec2Client, Cloud, Instance, resources_situation, insert,
}
use bottlerocket_test_system.Bottlerocket.Ec2.Launch.{RunInstancesOutput, run_instances}
use bottlerocket_test_system.Bottlerocket.Ec2.Instances.{running, wait_for_conforming_instances}

-- How many rounds of each wait fit into its time limit.
pub record Limits : Type 0 where
  pub launch : ℕ
  pub running : ℕ
  pub terminated : ℕ
  pub deregistered : ℕ

-- a status, and its message to the info client
abbrev pub status : ProductionMemo → String → ProductionMemo
status memo text = record memo { current_status = text }

-- the ids of the instances that were launched; each has to have one
unfoldable pub checked_ids : List String → List Instance → Result ProviderError (List String)
unfolding insert
checked_ids ids [] = ok ids
checked_ids ids (none ∷ is) = err (new_with_context remaining "Instance missing instance_id field")
checked_ids ids (some i ∷ is) = checked_ids (insert i ids) is

-- the configuration of the AWS client, with an error shown as a text
unfoldable pub config_for :
    {W : Type 0} → Cloud W → (secret role : Option String) → String → Exec W ProviderError SdkConfig
config_for c secret role region =
    context (λ e. new_with_source_and_context clear "Error creating config" (c.show_error e))
      (aws_config c.environment secret role none (some region) none false)

module _ {W : Type 0} (c : Cloud W) (client : InfoClient W ProductionMemo) (limits : Limits) where
  abbrev tell : Resources → ProductionMemo → Exec W ProviderError (Unit {0})
  unfolding tried
  tell r memo = tried r "Error sending cluster creation message" (client.send_info memo)

  abbrev fresh_uuid : Exec W ProviderError String
  fresh_uuid w = let u = c.new_v4 w in (ok u.0, u.1)

  -- up to the status "Launching instance(s)", with the uuid, the memo and the configuration
  unfoldable pub prepare :
      Spec Ec2Config → Exec W ProviderError (ProductionMemo × (String × SdkConfig))
  unfolding tried tell config_for resources_situation
  prepare spec = do
    stored ← tried unknown "Unable to get info from info client" client.get_info
    instance_uuid ← fresh_uuid
    let tagged : ProductionMemo = record stored { uuid_tag = some instance_uuid }
    tried (resources_situation tagged) "Error storing uuid in info client" (client.send_info tagged)
    let getting = status tagged "Getting AWS secret"
    tell clear getting
    let secret = get aws_credentials_secret_name spec.secrets
    let filled : ProductionMemo = record getting {
      current_status = "Creating AWS config";
      aws_secret_name = secret;
      assume_role = spec.configuration.assume_role;
      cluster_type = spec.configuration.cluster_type;
      cluster_name = spec.configuration.cluster_name;
    }
    tell clear filled
    shared_config ← config_for c secret spec.configuration.assume_role spec.configuration.region
    let launching = status filled "Launching instance(s)"
    tell clear launching
    pure (launching, (instance_uuid, shared_config))

  -- the wait for the instances, and the memo with them
  unfoldable pub finish :
      Spec Ec2Config
      → Ec2Client W
      → List String
      → ProductionMemo
      → Exec W ProviderError CreatedEc2Instances
  unfolding tried tell in_time wait_for_conforming_instances resources_situation
  finish spec ec2_client instance_ids memo = do
    let waiting = status memo "Waiting for instance(s)"
    tell remaining waiting
    in_time (resources_situation waiting)
        "Timed-out waiting for instances to reach the `running` state."
        (wait_for_conforming_instances ec2_client c.sleep instance_ids running waiting
          limits.running)
    let done : ProductionMemo = record waiting {
      current_status = "Instance(s) created";
      region = spec.configuration.region;
      instance_ids = instance_ids;
    }
    tried (resources_situation done) "Error sending final creation message" (client.send_info done)
    pure (record { ids = instance_ids })

  unfoldable pub create : Spec Ec2Config → Exec W ProviderError CreatedEc2Instances
  unfolding prepare run_instances needed checked_ids finish
  create spec = do
    prepared ← prepare spec
    let ec2_client = c.ec2 prepared.1.1
    launched ←
        run_instances c ec2_client client spec.configuration prepared.1.0 limits.launch prepared.0
    instances ← needed remaining "Results missing instances field" launched.0
    instance_ids ← λ w. (checked_ids [] instances, w)
    finish spec ec2_client instance_ids launched.1
