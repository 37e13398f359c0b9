-- ===== src/Controller/Test/Reconcile.antt =====
-- controller/src/test_controller/reconcile.rs and context.rs: the calls that carry an action out.
-- Logging is left out.
pub mod Finalizers
use Prim.Native.String.{String}
use bottlerocket_test_system.Base.{[], ◌∷◌}
use bottlerocket_test_system.Base.Exec.{Exec, pure, context, read, attempt, ◌>>=◌, ◌>>◌}
use bottlerocket_test_system.Model.Agent.{TaskState}
use bottlerocket_test_system.Model.Constants.{finalizer_main, finalizer_test_job, env_test_name}
use bottlerocket_test_system.Model.Test.{Test}
use bottlerocket_test_system.Clients.CrdClient.{initialize_status, add_finalizer, remove_finalizer}
use bottlerocket_test_system.Clients.Error.{ClientError}
use bottlerocket_test_system.Clients.TestClient.{
  send_resource_error, send_agent_task_state, send_agent_error,
}
use bottlerocket_test_system.Controller.Error.{Error, client, job}
use bottlerocket_test_system.Controller.Requeue.{RequeueAction, requeue, requeue_slow, no_requeue}
use bottlerocket_test_system.Controller.Job.{archive_logs, delete_job}
use bottlerocket_test_system.Controller.Job.Builder.{JobType, deploy}
use bottlerocket_test_system.Controller.Cluster.{Cluster, quote}
use bottlerocket_test_system.Controller.Test.Action.{Action, error_text, name, determine_action}

module _ {W : Type 0} (k : Cluster W) (t : Test) where
  create_job : Exec W Error (Unit {0})
  unfolding deploy name
  create_job = do
    created ←
        context (λ e. Error.context (quote "Unable to create job " (name t) "") (job e))
          (deploy k.jobs (record {
            agent = t.spec.agent;
            job_name = name t;
            job_type = JobType.test_agent;
            environment_variables = (env_test_name, name t) ∷ [];
          }))
    pure tt

  -- a failure to archive the logs is only logged
  delete_test_job : Exec W Error (Unit {0})
  unfolding archive_logs delete_job name
  delete_test_job = do
    archived ← attempt (archive_logs k.archive (name t))
    context (λ e. Error.context (quote "Unable to delete job for test " (name t) "") (job e))
        (delete_job k.jobs (name t))

  -- a call of the test client with the context of its error
  client_call : String → Exec W ClientError Test → Exec W Error (Unit {0})
  client_call what m = do result ← context (λ e. Error.context what (client e)) m; pure tt

  unfoldable pub do_action : Action → Exec W Error RequeueAction
  unfolding client_call create_job delete_test_job error_text name
  do_action Action.initialize = do
    client_call (quote "Unable to initialize status for " (name t) "")
        (initialize_status k.test_client (name t))
    pure requeue
  do_action Action.add_main_finalizer = do
    client_call (quote "Unable to add main finalizer for " (name t) "")
        (add_finalizer k.test_client finalizer_main t)
    pure requeue
  do_action Action.wait_for_resources = pure requeue
  do_action (Action.register_resource_creation_error msg) = do
    client_call (quote "Unable to register creation error " msg (quote " for " (name t) ""))
        (send_resource_error k.test_client (name t) msg)
    pure requeue
  do_action (Action.wait_for_dependency d) = pure requeue
  do_action Action.add_job_finalizer = do
    client_call (quote "Unable to add job finalizer for " (name t) "")
        (add_finalizer k.test_client finalizer_test_job t)
    pure requeue
  do_action Action.start_test = do create_job; pure requeue
  do_action Action.wait_for_test = pure requeue
  do_action Action.delete_job = do delete_test_job; pure requeue
  do_action Action.remove_job_finalizer = do
    client_call (quote "Unable to remove job finalizer for " (name t) "")
        (remove_finalizer k.test_client finalizer_test_job t)
    pure requeue
  do_action Action.remove_main_finalizer = do
    client_call (quote "Unable to remove main finalizer for " (name t) "")
        (remove_finalizer k.test_client finalizer_main t)
    pure no_requeue
  do_action Action.test_done = pure requeue_slow
  do_action (Action.error state) = do
    client_call (quote "Unable to send error task state for " (name t) "")
        (send_agent_task_state k.test_client (name t) TaskState.error)
    client_call (quote "Unable to send error message for " (name t) "")
        (send_agent_error k.test_client (name t) (error_text state))
    pure requeue_slow

unfoldable pub reconcile : {W : Type 0} → Cluster W → Test → Exec W Error RequeueAction
unfolding determine_action do_action
reconcile k t = do a ← read (determine_action k t); do_action k t a
