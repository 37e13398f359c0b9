-- ===== src/Bottlerocket/Ec2/Destroy.antt =====
-- bottlerocket/agents/src/bin/ec2-resource-agent/ec2_provider.rs: `destroy` of `Ec2Destroyer`.
pub mod Terminates
use bottlerocket_test_system.Base.{
  ℕ, String, Option, none, some, List, [], ◌∷◌, is_empty, if◌then◌else◌,
}
use bottlerocket_test_system.Base.Exec.{Exec, ◌>>=◌, ◌>>◌, pure}
use bottlerocket_test_system.Agents.ResourceAgent.ProviderError.{unknown, clear, ProviderError}
use bottlerocket_test_system.Agents.Utils.Aws.{SdkConfig}
use bottlerocket_test_system.Bottlerocket.AgentConfig.{ClusterType}
use bottlerocket_test_system.Bottlerocket.Provider.{InfoClient, tried, in_time}
use bottlerocket_test_system.Bottlerocket.Ec2.{
  ProductionMemo, CreatedEc2Instances, Ec2Client, Cloud, resources_situation, remove,
}
use bottlerocket_test_system.Bottlerocket.Ec2.Instances.{
  terminated, wait_for_conforming_instances, get_instances_by_uuid,
  deregister_ecs_container_instances,
}
use bottlerocket_test_system.Bottlerocket.Ec2.Create.{Limits, config_for}

-- the ids of the resource, or else of the memo
pub known_ids : Option CreatedEc2Instances → ProductionMemo → List String
known_ids (some resource) memo = resource.ids
known_ids none memo = memo.instance_ids

-- the memo without the ids
pub without : List String → List String → List String
unfolding remove
without held [] = held
without held (i ∷ is) = without (remove held i) is

module _ {W : Type 0} (c : Cloud W) (client : InfoClient W ProductionMemo) (limits : Limits) where
  -- the instances with the uuid of the memo
  abbrev by_uuid : Ec2Client W → Option String → ProductionMemo → Exec W ProviderError (List String)
  unfolding get_instances_by_uuid
  by_uuid ec2_client none memo = pure []
  by_uuid ec2_client (some uuid) memo = get_instances_by_uuid ec2_client uuid memo

  -- the ids that are known, or else those with the uuid
  pub find_ids : Ec2Client W → List String → ProductionMemo → Exec W ProviderError (List String)
  unfolding by_uuid
  find_ids ec2_client [] memo = by_uuid ec2_client memo.uuid_tag memo
  find_ids ec2_client (i ∷ is) memo = pure (i ∷ is)

  -- Instances of an ECS cluster are deregistered first.
  leave_cluster : ClusterType → SdkConfig → ProductionMemo → Exec W ProviderError (Unit {0})
  unfolding deregister_ecs_container_instances
  leave_cluster ClusterType.eks config memo = pure tt
  leave_cluster ClusterType.ecs config memo =
      deregister_ecs_container_instances (c.ecs config) c.sleep memo limits.deregistered

  pub terminate : SdkConfig → List String → ProductionMemo → Exec W ProviderError (Unit {0})
  unfolding leave_cluster tried in_time without wait_for_conforming_instances resources_situation
  terminate config [] memo = pure tt
  terminate config (i ∷ is) memo = do
    let ids = i ∷ is
    leave_cluster memo.cluster_type config memo
    tried (resources_situation memo) "Failed to terminate instances"
        ((c.ec2 config).terminate_instances ids)
    let deleted : ProductionMemo = record memo {
      current_status = "Instances deleted";
      instance_ids = without memo.instance_ids ids;
    }
    tried (resources_situation deleted) "Error sending final destruction message"
        (client.send_info deleted)
    in_time (resources_situation deleted)
        "Timed-out waiting for instances to reach the `terminated` state."
        (wait_for_conforming_instances (c.ec2 config) c.sleep ids terminated deleted
          limits.terminated)

  unfoldable pub destroy : Option CreatedEc2Instances → Exec W ProviderError (Unit {0})
  unfolding tried config_for known_ids find_ids terminate
  destroy resource = do
    memo ← tried unknown "Unable to get info from client" client.get_info
    shared_config ← config_for c memo.aws_secret_name memo.assume_role memo.region
    ids ← find_ids (c.ec2 shared_config) (known_ids resource memo) memo
    terminate shared_config ids memo
