-- ===== src/Controller/Resource/Reconcile.antt =====
-- controller/src/resource_controller/mod.rs: the calls that carry an action out. Logging is left out.
pub mod Effects
pub mod Finalizers
use Prim.Native.String.{String, ◌++◌}
use bottlerocket_test_system.Base.{Option, none, some, [], ◌∷◌, is_none, if◌then◌else◌}
use bottlerocket_test_system.Base.Result.{Result, ok, err}
use bottlerocket_test_system.Base.Exec.{Exec, pure, context, read, attempt, ◌>>=◌, ◌>>◌}
use bottlerocket_test_system.Model.Constants.{
  finalizer_creation_job, finalizer_main, finalizer_resource, finalizer_cleanup_required,
  env_resource_action, env_resource_name,
}
use bottlerocket_test_system.Model.Resource.{
  Resource, ResourceAction, create, destroy, ErrorResources,
}
use bottlerocket_test_system.Model.Resource
use bottlerocket_test_system.Clients.CrdClient.{
  initialize_status, add_finalizer, remove_finalizer, delete,
}
use bottlerocket_test_system.Clients.Error.{ClientError}
use bottlerocket_test_system.Clients.ResourceClient.{send_error}
use bottlerocket_test_system.Controller.Error.{Error, client, job, JobError, already_exists}
use bottlerocket_test_system.Controller.Job.{archive_logs, delete_job}
use bottlerocket_test_system.Controller.Job.Builder.{Job, JobType, deploy}
use bottlerocket_test_system.Controller.Requeue.{RequeueAction, requeue}
use bottlerocket_test_system.Controller.Cluster.{Cluster, quote}
use bottlerocket_test_system.Controller.Resource.Interface.{
  ResourceInterface, name, job_name_of, new,
}
use bottlerocket_test_system.Controller.Resource.Action.{
  Action, creation, destruction, DestructionAction, action,
}
use bottlerocket_test_system.Controller.Resource.Action.Waits.{ErrorState, CreationAction}

-- `Display` of `ResourceAction`
abbrev action_text : ResourceAction → String
action_text create = "create"
action_text destroy = "destroy"

-- the end of an error's message; a zombie has none
error_text : ErrorState → Option String
error_text ErrorState.job_start = some "Timeout before resource started"
error_text ErrorState.job_exited = some "Container exited before it was done"
error_text ErrorState.job_failed = some "Container exited with an error"
error_text ErrorState.job_removed = some "Container was killed before it was done"
error_text ErrorState.task_failed = some "Task failed"
error_text ErrorState.job_timeout = some "Job did not complete within time limit"
error_text ErrorState.zombie = none

error_start : ResourceAction → String
error_start create = "Creation"
error_start destroy = "Destruction"

-- a job that exists already is no error
started : String → Result JobError Job → Result Error (Unit {0})
started n (ok j) = ok tt
started n (err (already_exists e)) = ok tt
started n (err e) = err (Error.context (quote "Unable to deploy job " n "") (job e))

module _ {W : Type 0} (k : Cluster W) (r : ResourceInterface) where
  pub start_job : ResourceAction → Exec W Error (Unit {0})
  unfolding started deploy name job_name_of
  start_job op w =
      let n = job_name_of r op in
      let result =
        deploy k.jobs
          (record {
            agent = r.resource.spec.agent;
            job_name = n;
            job_type = JobType.resource_agent;
            environment_variables =
                (env_resource_action, action_text op) ∷ (env_resource_name, name r) ∷ [];
          })
          w in
      (started n result.0, result.1)

  -- a failure to archive the logs is only logged
  remove_job : ResourceAction → Exec W Error (Unit {0})
  unfolding archive_logs delete_job job_name_of
  remove_job op = do
    archived ← attempt (archive_logs k.archive (job_name_of r op))
    context (λ e. Error.context (quote "Unable to remove job " (job_name_of r op) "") (job e))
        (delete_job k.jobs (job_name_of r op))

  -- a call of the resource client with the context of its error
  client_call : {A : Type 0} → String → Exec W ClientError A → Exec W Error (Unit {0})
  client_call what m = do result ← context (λ e. Error.context what (client e)) m; pure tt

  pub handle_error_state : ResourceAction → ErrorState → Exec W Error (Unit {0})
  unfolding error_text error_start client_call send_error name
  handle_error_state a e = elim (error_text e) [
    | none ↦ pure tt
    | some t ↦
        let message = error_start a ++ quote " error state for resource " (name r) (": " ++ t) in
        if is_none (Resource.error r.resource a)
        then client_call (quote "Unable to send error for job " (name r) (": " ++ message)) (
            send_error k.resource_client (name r) a
              (record { error = message; error_resources = ErrorResources.unknown }))
        else pure tt
  ]

  pub do_creation_action : CreationAction → Exec W Error (Unit {0})
  unfolding client_call start_job handle_error_state name initialize_status add_finalizer
  do_creation_action CreationAction.initialize =
      client_call (quote "Unable to initialize " (name r) "")
        (initialize_status k.resource_client (name r))
  do_creation_action CreationAction.add_main_finalizer =
      client_call (quote "Unable to add main finalizer to " (name r) "")
        (add_finalizer k.resource_client finalizer_main r.resource)
  do_creation_action CreationAction.add_job_finalizer =
      client_call (quote "Unable to creation job finalizer to " (name r) "")
        (add_finalizer k.resource_client finalizer_creation_job r.resource)
  do_creation_action CreationAction.add_cleanup_finalizer =
      client_call (quote "Unable to add resource finalizer to " (name r) "")
        (add_finalizer k.resource_client finalizer_cleanup_required r.resource)
  do_creation_action CreationAction.start_job = start_job create
  do_creation_action CreationAction.wait_for_creation = pure tt
  do_creation_action (CreationAction.wait_for_dependency d) = pure tt
  do_creation_action (CreationAction.wait_for_conflict c) = pure tt
  do_creation_action CreationAction.wait_for_dependent = pure tt
  do_creation_action CreationAction.add_resource_finalizer =
      client_call (quote "Unable to add resource finalizer to " (name r) "")
        (add_finalizer k.resource_client finalizer_resource r.resource)
  do_creation_action CreationAction.done = pure tt
  do_creation_action (CreationAction.error e) = handle_error_state create e

  pub do_destruction_action : DestructionAction → Exec W Error (Unit {0})
  unfolding client_call start_job remove_job handle_error_state name delete remove_finalizer
  do_destruction_action DestructionAction.start_resource_deletion = do
    deleted ← context client (delete k.resource_client (name r))
    pure tt
  do_destruction_action DestructionAction.remove_creation_job = remove_job create
  do_destruction_action DestructionAction.remove_creation_job_finalizer =
      client_call (quote "Unable to remove creation job finalizer from " (name r) "")
        (remove_finalizer k.resource_client finalizer_creation_job r.resource)
  do_destruction_action DestructionAction.start_destruction_job = start_job destroy
  do_destruction_action DestructionAction.wait = pure tt
  do_destruction_action DestructionAction.remove_destruction_job = remove_job destroy
  do_destruction_action DestructionAction.remove_cleanup_finalizer =
      client_call (quote "Unable to cleanup resource finalizer from " (name r) "")
        (remove_finalizer k.resource_client finalizer_cleanup_required r.resource)
  do_destruction_action DestructionAction.remove_resource_finalizer =
      client_call (quote "Unable to remove resource finalizer from " (name r) "")
        (remove_finalizer k.resource_client finalizer_resource r.resource)
  do_destruction_action DestructionAction.remove_main_finalizer =
      client_call (quote "Unable to remove main finalizer from " (name r) "")
        (remove_finalizer k.resource_client finalizer_main r.resource)
  do_destruction_action (DestructionAction.error e) = handle_error_state destroy e

  unfoldable pub do_action : Action → Exec W Error (Unit {0})
  unfolding do_creation_action do_destruction_action
  do_action (creation a) = do_creation_action a
  do_action (destruction a) = do_destruction_action a

pub reconcile : {W : Type 0} → Cluster W → Resource → Exec W Error RequeueAction
unfolding new action do_action
reconcile k resource = do
  a ← read (action k (new resource))
  do_action k (new resource) a
  pure requeue
