-- ===== src/Clients/TestClient.antt =====
-- model/src/clients/test_client.rs: the client of the test objects.
use bottlerocket_test_system.Base.{String, Bool, List, [], ◌∷◌}
use bottlerocket_test_system.Base.Exec.{Exec}
use bottlerocket_test_system.Model.Agent.{TaskState, completed, error}
use bottlerocket_test_system.Model.Test.{Test, TestResults}
use bottlerocket_test_system.Kube.{Token, key, past_end, Payload}
use bottlerocket_test_system.Clients.Error.{ClientError}
use bottlerocket_test_system.Clients.JsonPatch.{
  new_add_operation, new_replace_operation, new_remove_operation, new_timestamp,
}
use bottlerocket_test_system.Clients.CrdClient.{CrdClient, patch, patch_status}

-- a field of `/status/agent`
abbrev agent_path : String → List Token
agent_path field = key "status" ∷ key "agent" ∷ key field ∷ []

abbrev results_end_path : List Token
results_end_path = key "status" ∷ key "agent" ∷ key "results" ∷ past_end ∷ []

module _ {W : Type 0} (c : CrdClient W Test) where
  unfoldable pub send_keep_running : String → Bool → Exec W ClientError Test
  unfolding patch
  send_keep_running name keep_running =
      patch c name
        (new_replace_operation (key "spec" ∷ key "agent" ∷ key "keepRunning" ∷ [])
            (Payload.flag keep_running)
          ∷ [])
        "set 'keep running'"

  unfoldable pub send_resource_error : String → String → Exec W ClientError Test
  unfolding patch_status
  send_resource_error name e w =
      patch_status c name
        (new_timestamp (c.now w)
          ∷ new_add_operation (key "status" ∷ key "controller" ∷ key "resourceError" ∷ [])
              (Payload.text e)
          ∷ [])
        "send resource error" w

  unfoldable pub send_agent_task_state : String → TaskState → Exec W ClientError Test
  unfolding patch_status
  send_agent_task_state name state w =
      patch_status c name
        (new_timestamp (c.now w)
          ∷ new_add_operation (agent_path "taskState") (Payload.task_state state)
          ∷ [])
        "send agent task state" w

  unfoldable pub send_test_results : String → TestResults → Exec W ClientError Test
  unfolding patch_status
  send_test_results name results w =
      patch_status c name
        (new_timestamp (c.now w)
          ∷ new_remove_operation (agent_path "currentTest")
          ∷ new_add_operation results_end_path (Payload.test_results results)
          ∷ [])
        "send test results" w

  unfoldable pub send_test_update : String → TestResults → Exec W ClientError Test
  unfolding patch_status
  send_test_update name results w =
      patch_status c name
        (new_timestamp (c.now w)
          ∷ new_add_operation (agent_path "currentTest") (Payload.test_results results)
          ∷ [])
        "update test results" w

  unfoldable pub send_test_completed : String → TestResults → Exec W ClientError Test
  unfolding patch_status
  send_test_completed name results w =
      patch_status c name
        (new_timestamp (c.now w)
          ∷ new_add_operation (agent_path "taskState") (Payload.task_state completed)
          ∷ new_add_operation results_end_path (Payload.test_results results)
          ∷ [])
        "send test completion results" w

  unfoldable pub send_agent_error : String → String → Exec W ClientError Test
  unfolding patch_status
  send_agent_error name e w =
      patch_status c name
        (new_timestamp (c.now w)
          ∷ new_add_operation (agent_path "taskState") (Payload.task_state error)
          ∷ new_add_operation (agent_path "error") (Payload.text e)
          ∷ [])
        "send agent error" w
