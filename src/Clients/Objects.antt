-- ===== src/Clients/Objects.antt =====
-- model/src/clients/test_client.rs and resource_client.rs: new objects, and the status of an agent.
use bottlerocket_test_system.Base.{String, Option, none, some, List}
use bottlerocket_test_system.Base.Result.{Result, map_ok}
use bottlerocket_test_system.Model.Constants.{namespace}
use bottlerocket_test_system.Model.Meta.{ObjectMeta}
use bottlerocket_test_system.Model.Resource.{Resource, ResourceSpec}
use bottlerocket_test_system.Model.Test.{
  Test, TestSpec, TestStatus, AgentStatus, default_test_status,
}
use bottlerocket_test_system.Clients.Error.{ClientError}
use bottlerocket_test_system.Clients.CrdClient.{CrdClient, get}

-- the metadata of a new object
new_meta : String → Option (List (String × String)) → ObjectMeta
new_meta name labels = record {
  name = some name;
  namespace = some namespace;
  uid = none;
  labels = labels;
  finalizers = none;
  deletion_timestamp = none;
  resource_version = none;
}

unfoldable pub create_test_crd : String → Option (List (String × String)) → TestSpec → Test
unfolding new_meta
create_test_crd name labels spec = record {
  metadata = new_meta name labels;
  spec = spec;
  status = none;
}

unfoldable pub create_resource_crd :
    String → Option (List (String × String)) → ResourceSpec → Resource
unfolding new_meta
create_resource_crd name labels spec = record {
  metadata = new_meta name labels;
  spec = spec;
  status = none;
}

unfoldable pub get_agent_status :
    {W : Type 0} → CrdClient W Test → String → W → Result ClientError AgentStatus
get_agent_status c name w =
    map_ok
      (λ t. TestStatus.agent (elim (Test.status t) [ none ↦ default_test_status | some s ↦ s ]))
      (get c name w)
