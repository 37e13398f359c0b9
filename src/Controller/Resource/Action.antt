-- ===== src/Controller/Resource/Action.antt =====
-- controller/src/resource_controller/action.rs: the action that a resource needs next.
pub mod Waits
use bottlerocket_test_system.Base.{
  String, Bool, true, false, not, ◌&&◌, ◌||◌, is_none, if◌then◌else◌,
}
use mathlib.Core.Option
use bottlerocket_test_system.Base.Result.{Result, ok, err, ◌>>=◌}
use bottlerocket_test_system.Base.Duration.{ℤ, at_least}
use bottlerocket_test_system.Model.Agent.{TaskState, task_state_eq}
use bottlerocket_test_system.Model.Constants.{
  finalizer_creation_job, finalizer_main, finalizer_resource, finalizer_cleanup_required,
}
use bottlerocket_test_system.Model.Meta.{has_finalizer, has_finalizers, is_delete_requested}
use bottlerocket_test_system.Model.Resource.{
  Resource, ResourceAction, DestructionPolicy, creation_task_state, destruction_task_state,
}
use bottlerocket_test_system.Controller.Error.{Error}
use bottlerocket_test_system.Controller.Job.{
  JobState, absent, unknown, failed, exited, running, is_absent, test_start_time_limit,
}
use bottlerocket_test_system.Controller.Cluster.{Cluster, exceeds_timeout}
use bottlerocket_test_system.Controller.Resource.Interface.{ResourceInterface, job_state}
use Waits.{
  ErrorState, job_start, job_exited, job_failed, job_removed, job_timeout, task_failed, zombie,
  CreationAction, initialize, add_main_finalizer, add_job_finalizer, add_cleanup_finalizer,
  start_job, wait_for_creation, add_resource_finalizer, done, dependency_wait_action,
  conflicting_wait_action, dependent_wait_action, is_deletion_required,
}

pub data DestructionAction : Type 0 where
  start_resource_deletion remove_creation_job remove_creation_job_finalizer : DestructionAction
  start_destruction_job wait remove_destruction_job remove_cleanup_finalizer : DestructionAction
  remove_resource_finalizer remove_main_finalizer : DestructionAction
  error : ErrorState → DestructionAction

pub data Action : Type 0 where
  creation : CreationAction → Action
  destruction : DestructionAction → Action

-- what the state of the creation job asks for
creation_job_action : Bool → Resource → JobState → CreationAction
creation_job_action is_running r absent =
    if not is_running then start_job else CreationAction.error job_removed
creation_job_action is_running r unknown = wait_for_creation
creation_job_action is_running r (running Option.none) = wait_for_creation
creation_job_action is_running r (running (Option.some d)) =
    if exceeds_timeout r.spec.agent.timeout d
    then CreationAction.error job_timeout
    else if task_state_eq (creation_task_state r) TaskState.unknown
        && at_least d test_start_time_limit
    then CreationAction.error job_start
    else wait_for_creation
creation_job_action is_running r failed = CreationAction.error job_failed
creation_job_action is_running r exited = CreationAction.error job_exited

-- what the state of the destruction job asks for
destruction_job_action : Bool → Resource → JobState → DestructionAction
destruction_job_action is_running r absent =
    if not is_running then start_destruction_job else error job_removed
destruction_job_action is_running r unknown = wait
destruction_job_action is_running r (running Option.none) = wait
destruction_job_action is_running r (running (Option.some d)) =
    if exceeds_timeout r.spec.agent.timeout d
    then error job_timeout
    else if task_state_eq (destruction_task_state r) TaskState.unknown
        && at_least d test_start_time_limit
    then error job_start
    else wait
destruction_job_action is_running r failed = error job_failed
destruction_job_action is_running r exited = error job_exited

unfoldable pub creation_completed_action : Resource → CreationAction
creation_completed_action r =
    if not (has_finalizer r.metadata finalizer_resource) then add_resource_finalizer else done

-- which finalizer stands between a finished destruction and the end
next_removal : Resource → DestructionAction
next_removal r =
    if has_finalizer r.metadata finalizer_cleanup_required
    then remove_cleanup_finalizer
    else remove_resource_finalizer

module _ {W : Type 0} (k : Cluster W) (r : ResourceInterface) (w : W) where
  unfoldable pub creation_not_done_action : Bool → Result Error CreationAction
  unfolding creation_job_action
  creation_not_done_action is_running =
      if not is_running && not (has_finalizer r.resource.metadata finalizer_creation_job)
      then ok add_job_finalizer
      else if not (has_finalizer r.resource.metadata finalizer_cleanup_required)
      then ok add_cleanup_finalizer
      else job_state k r ResourceAction.create w >>= λ s.
          ok (creation_job_action is_running r.resource s)

  creation_task_action : TaskState → Result Error CreationAction
  unfolding creation_not_done_action creation_completed_action
  creation_task_action TaskState.unknown = creation_not_done_action false
  creation_task_action TaskState.running = creation_not_done_action true
  creation_task_action TaskState.completed = ok (creation_completed_action r.resource)
  creation_task_action TaskState.error = ok (CreationAction.error task_failed)

  -- the first wait that is wanted, or else the action
  or_wait :
      Result Error (Option.Option CreationAction)
      → Result Error CreationAction
      → Result Error CreationAction
  or_wait first rest = elim first [
    | ok o ↦ elim o [ Option.none ↦ rest | Option.some a ↦ ok a ]
    | err e ↦ err e
  ]

  unfoldable pub creation_action : Result Error CreationAction
  unfolding creation_task_action or_wait
  creation_action =
      if is_none r.resource.status
      then ok initialize
      else if not (has_finalizers r.resource.metadata)
      then ok add_main_finalizer
      else or_wait (dependency_wait_action k r w) (
          or_wait (conflicting_wait_action k r w) (
            or_wait (dependent_wait_action k r w)
              (creation_task_action (creation_task_state r.resource))))

  unfoldable pub creation_cleanup_action : Result Error (Option.Option DestructionAction)
  creation_cleanup_action =
      if not (has_finalizer r.resource.metadata finalizer_creation_job)
      then ok Option.none
      else job_state k r ResourceAction.create w >>= λ s.
          ok (
            Option.some
              (if is_absent s then remove_creation_job_finalizer else remove_creation_job))

  unfoldable pub destruction_not_done_action : Bool → Result Error DestructionAction
  unfolding destruction_job_action
  destruction_not_done_action is_running = job_state k r ResourceAction.destroy w >>= λ s.
      ok (destruction_job_action is_running r.resource s)

  destruction_task_action : TaskState → Result Error DestructionAction
  unfolding destruction_not_done_action next_removal
  destruction_task_action TaskState.unknown = destruction_not_done_action false
  destruction_task_action TaskState.running = destruction_not_done_action true
  destruction_task_action TaskState.completed = job_state k r ResourceAction.destroy w >>= λ s.
      ok (if is_absent s then next_removal r.resource else remove_destruction_job)
  destruction_task_action TaskState.error = ok (error task_failed)

  policy_action : DestructionPolicy → Result Error DestructionAction
  unfolding destruction_task_action next_removal
  policy_action DestructionPolicy.never = ok (next_removal r.resource)
  policy_action _ = destruction_task_action (destruction_task_state r.resource)

  unfoldable pub destruction_action_with_resources : Result Error DestructionAction
  unfolding policy_action
  destruction_action_with_resources = policy_action r.resource.spec.destruction_policy

  unfoldable pub destruction_action_without_resources : Result Error DestructionAction
  destruction_action_without_resources = job_state k r ResourceAction.destroy w >>= λ s. ok (
      if not (is_absent s)
      then remove_destruction_job
      else if has_finalizer r.resource.metadata finalizer_main
      then remove_main_finalizer
      else error zombie)

  -- the action of a resource whose deletion was requested
  after_cleanup : Option.Option DestructionAction → Result Error DestructionAction
  unfolding destruction_action_with_resources destruction_action_without_resources
  after_cleanup (Option.some a) = ok a
  after_cleanup Option.none =
      if has_finalizer r.resource.metadata finalizer_resource
        || has_finalizer r.resource.metadata finalizer_cleanup_required
      then destruction_action_with_resources
      else destruction_action_without_resources

  unfoldable pub destruction_action : Result Error DestructionAction
  unfolding after_cleanup creation_cleanup_action
  destruction_action =
      if not (is_delete_requested r.resource.metadata)
      then ok start_resource_deletion
      else creation_cleanup_action >>= after_cleanup

  unfoldable pub action : Result Error Action
  unfolding creation_action destruction_action
  action = do
    wanted ←
        (if is_delete_requested r.resource.metadata then ok true else is_deletion_required k r w)
    if wanted
        then (do a ← destruction_action; ok (destruction a))
        else (do a ← creation_action; ok (creation a))
