-- ===== src/Clients/ResourceClient.antt =====
-- model/src/clients/resource_client.rs: the client of the resource objects.
use bottlerocket_test_system.Base.{String, List, [], ◌∷◌}
use bottlerocket_test_system.Base.Exec.{Exec}
use bottlerocket_test_system.Model.Json.{Fields}
use bottlerocket_test_system.Model.Agent.{TaskState, completed, error}
use bottlerocket_test_system.Model.Resource.{Resource, ResourceAction, ResourceError}
use bottlerocket_test_system.Kube.{Token, key, Payload}
use bottlerocket_test_system.Clients.Error.{ClientError}
use bottlerocket_test_system.Clients.JsonPatch.{new_add_operation, new_timestamp}
use bottlerocket_test_system.Clients.CrdClient.{CrdClient, patch_status}

-- `/status/creation` or `/status/destruction`, and a field of it
abbrev action_path : ResourceAction → String → List Token
action_path ResourceAction.create field = key "status" ∷ key "creation" ∷ key field ∷ []
action_path ResourceAction.destroy field = key "status" ∷ key "destruction" ∷ key field ∷ []

module _ {W : Type 0} (c : CrdClient W Resource) where
  unfoldable pub send_agent_info : String → Fields → Exec W ClientError Resource
  unfolding patch_status
  send_agent_info name info w =
      patch_status c name
        (new_timestamp (c.now w)
          ∷ new_add_operation (key "status" ∷ key "agentInfo" ∷ []) (Payload.map info)
          ∷ [])
        "send agent info" w

  unfoldable pub send_creation_success : String → Fields → Exec W ClientError Resource
  unfolding patch_status
  send_creation_success name created w =
      patch_status c name
        (new_timestamp (c.now w)
          ∷ new_add_operation (action_path ResourceAction.create "taskState")
              (Payload.task_state completed)
          ∷ new_add_operation (key "status" ∷ key "createdResource" ∷ []) (Payload.map created)
          ∷ [])
        "send creation success" w

  unfoldable pub send_error : String → ResourceAction → ResourceError → Exec W ClientError Resource
  unfolding patch_status
  send_error name action e w =
      patch_status c name
        (new_timestamp (c.now w)
          ∷ new_add_operation (action_path action "error") (Payload.resource_error e)
          ∷ new_add_operation (action_path action "taskState") (Payload.task_state error)
          ∷ [])
        "send error" w

  unfoldable pub send_task_state : String → ResourceAction → TaskState → Exec W ClientError Resource
  unfolding patch_status
  send_task_state name op state w =
      patch_status c name
        (new_timestamp (c.now w)
          ∷ new_add_operation (action_path op "taskState") (Payload.task_state state)
          ∷ [])
        "send task state" w
