-- ===== src/Agents/TestAgent/DefaultClient.antt =====
-- agent/test-agent/src/k8s_client.rs: the client that a test agent uses in a cluster. It knows the
-- name of its test and a directory for results. How an error is shown is left to the crates that
-- derive it, so the function `show` is a parameter.
pub mod Patches
pub mod Specs
use bottlerocket_test_system.Base.{String, unwrap_or}
use bottlerocket_test_system.Base.Result.{map_err, map_ok}
use bottlerocket_test_system.Base.Exec.{Exec, pure, context, read, ◌>>=◌}
use bottlerocket_test_system.Model.Agent.{TaskState}
use bottlerocket_test_system.Model.Constants.{testsys_results_file}
use bottlerocket_test_system.Model.Test.{Test}
use bottlerocket_test_system.Clients.Error.{ClientError}
use bottlerocket_test_system.Clients.CrdClient.{CrdClient, get}
use bottlerocket_test_system.Clients.TestClient.{
  send_agent_task_state, send_test_results, send_test_update, send_agent_error,
}
use bottlerocket_test_system.Agents.TestAgent.{Error, Client}

-- `InnerError`; errors of other crates are kept as texts
pub data DefaultError : Type 0 where
  k8s resource_client_create resolve_config : ClientError → DefaultError
  deserialization temp_dir_create : String → DefaultError

module _ {W F : Type 0} (c : CrdClient W Test) (show : Error DefaultError F → String)
    (name dir : String) where
  -- a call of the test client whose answer is dropped
  unfoldable pub sent : Exec W ClientError Test → Exec W DefaultError (Unit {0})
  sent m = do answer ← context k8s m; pure tt

  -- a field of the test on the server
  field_of : {A : Type 0} → (Test → A) → Exec W DefaultError A
  field_of f = read (λ w. map_err k8s (map_ok f (get c name w)))

  unfoldable pub default_client : Client W DefaultError F
  unfolding sent field_of
  default_client = record {
    send_test_starting = sent (send_agent_task_state c name TaskState.running);
    send_test_update = λ results. sent (send_test_update c name results);
    send_test_results = λ results. sent (send_test_results c name results);
    send_error = λ e. sent (send_agent_error c name (show e));
    send_test_completed = sent (send_agent_task_state c name TaskState.completed);
    retries = field_of (λ t. unwrap_or 0 t.spec.retries);
    keep_running = field_of (λ t. t.spec.agent.keep_running);
    results_directory = pure dir;
    results_file = pure testsys_results_file;
  }
