-- ===== src/Agents/TestAgent/DefaultClient/Specs.antt =====
-- agent/test-agent/src/k8s_client.rs, `DefaultClient::spec`: what a test agent is told of its test.
use bottlerocket_test_system.Base.{String, List, [], unwrap_or}
use bottlerocket_test_system.Base.Result.{Result, ok, map_err, ◌>>=◌}
use bottlerocket_test_system.Model.Json.{Fields, no_entry}
use bottlerocket_test_system.Model.Resource.{Resource}
use bottlerocket_test_system.Model.Test.{Test}
use bottlerocket_test_system.Clients.CrdClient.{CrdClient, get}
use bottlerocket_test_system.Clients.Templates.{Captures, resolve_templated_config}
use bottlerocket_test_system.Agents.TestAgent.DefaultClient.{
  DefaultError, k8s, resolve_config, deserialization,
}

-- `Spec`
pub record Spec (C : Type 0) : Type 0 where
  pub name : String
  pub configuration : C
  pub secrets : List (String × String)
  pub results_dir : String

-- `from_value` reads a configuration from a map; a resource client can always be had.
unfoldable pub spec :
    {W C : Type 0}
    → CrdClient W Test
    → CrdClient W Resource
    → Captures
    → (Fields → Result String C)
    → (name dir : String) → W
    → Result DefaultError (Spec C)
spec c resources captures from_value name dir w = do
  test_data ← map_err k8s (get c name w)
  resolved_config ← map_err resolve_config (
      resolve_templated_config resources captures w
        (unwrap_or no_entry test_data.spec.agent.configuration))
  configuration ← map_err deserialization (from_value resolved_config)
  ok (record {
    name = name;
    configuration = configuration;
    secrets = unwrap_or [] test_data.spec.agent.secrets;
    results_dir = dir;
  })
