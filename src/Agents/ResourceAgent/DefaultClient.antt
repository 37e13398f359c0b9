-- ===== src/Agents/ResourceAgent/DefaultClient.antt =====
-- agent/resource-agent/src/clients/implementation.rs: the client that a resource agent uses in a
-- cluster. It knows the name of its resource.
pub mod Statuses
use bottlerocket_test_system.Base.{String, List, [], unwrap_or}
use bottlerocket_test_system.Base.Result.{Result, ok, map_err, map_ok, ◌>>=◌}
use bottlerocket_test_system.Base.Exec.{Exec, read}
use bottlerocket_test_system.Model.Json.{Fields, no_entry}
use bottlerocket_test_system.Model.Agent.{TaskState}
use bottlerocket_test_system.Model.Resource.{
  Resource, ResourceAction, ResourceError, ErrorResources,
}
use bottlerocket_test_system.Clients.Error.{ClientError as ModelError}
use bottlerocket_test_system.Clients.CrdClient.{CrdClient, get}
use bottlerocket_test_system.Clients.ResourceClient.{
  send_agent_info, send_creation_success, send_error, send_task_state,
}
use bottlerocket_test_system.Clients.Templates.{
  Captures, Configuration, resolve_templated_config, get_agent_info, get_created_resource,
}
use bottlerocket_test_system.Agents.ResourceAgent.{AgentClient}
use bottlerocket_test_system.Agents.ResourceAgent.ProviderError.{
  ProviderError, display, from_resources,
}

-- `ClientError` of clients/error.rs. Errors of other crates are kept as texts.
pub data ClientError : Type 0 where
  initialization_failed request_failed : ModelError → ClientError
  missing_data serialization secrets_error : String → ClientError

-- `Spec` of the provider
pub record Spec (C : Type 0) : Type 0 where
  pub configuration : C
  pub secrets : List (String × String)

module _ {W : Type 0} (c : CrdClient W Resource) (captures : Captures) (name : String) where
  -- a call whose answer is dropped
  unfoldable pub sent : Exec W ModelError Resource → Exec W ClientError (Unit {0})
  sent m w = let r = m w in (map_err request_failed (map_ok (λ _. tt) r.0), r.1)

  abbrev provider_failure : ProviderError → ResourceError
  provider_failure e = record { error = display e; error_resources = from_resources e.resources }

  unfoldable pub send_init_error : ResourceAction → String → Exec W ClientError (Unit {0})
  unfolding sent
  send_init_error action e =
      sent
        (send_error c name action (record { error = e; error_resources = ErrorResources.unknown }))

  pub get_spec : {C : Type 0} → Configuration C → W → Result ClientError (Spec C)
  get_spec t w = do
    resource ← map_err request_failed (get c name w)
    resolved ← map_err request_failed (
        resolve_templated_config c captures w
          (unwrap_or no_entry resource.spec.agent.configuration))
    config ← map_err serialization (t.from_map resolved)
    ok (record { configuration = config; secrets = unwrap_or [] resource.spec.agent.secrets })

  -- `DefaultInfoClient`
  unfoldable pub get_info : {C : Type 0} → Configuration C → W → Result ClientError C
  get_info t w = map_err request_failed (get_agent_info c name w t)

  unfoldable pub send_info : Fields → Exec W ClientError (Unit {0})
  unfolding sent
  send_info info = sent (send_agent_info c name info)

  -- `to_map` is how the resource becomes a map.
  unfoldable pub agent_client :
      {C R : Type 0}
      → Configuration C
      → Configuration R
      → (R → Fields)
      → AgentClient W ClientError ProviderError (Spec C) R
  unfolding sent get_spec
  agent_client t u to_map = record {
    get_spec = read (get_spec t);
    get_created_resource = read (λ w. map_err request_failed (get_created_resource c name w u));
    send_create_starting = sent (send_task_state c name ResourceAction.create TaskState.running);
    send_create_succeeded = λ r. sent (send_creation_success c name (to_map r));
    send_create_failed = λ e. sent (send_error c name ResourceAction.create (provider_failure e));
    send_destroy_starting = sent (send_task_state c name ResourceAction.destroy TaskState.running);
    send_destroy_succeeded =
        sent (send_task_state c name ResourceAction.destroy TaskState.completed);
    send_destroy_failed = λ e. sent (send_error c name ResourceAction.destroy (provider_failure e));
    get_keep_running =
        read (λ w. map_err request_failed (map_ok (λ r. r.spec.agent.keep_running) (get c name w)));
  }
