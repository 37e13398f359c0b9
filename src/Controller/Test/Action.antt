-- ===== src/Controller/Test/Action.antt =====
-- controller/src/test_controller/action.rs: the action that a test needs next.
use bottlerocket_test_system.Base.{
  String, Bool, true, false, not, ◌&&◌, is_none, is_some, unwrap_or, if◌then◌else◌,
}
use mathlib.Core.Option
use bottlerocket_test_system.Base.Result.{Result, ok, map_err, ◌>>=◌}
use bottlerocket_test_system.Base.Duration.{ℤ, at_least}
use bottlerocket_test_system.Model.Agent.{TaskState, task_state_eq}
use bottlerocket_test_system.Model.Constants.{finalizer_main, finalizer_test_job}
use bottlerocket_test_system.Model.Meta.{object_name, has_finalizer, is_delete_requested}
use bottlerocket_test_system.Model.Test.{Test, agent_status, agent_error, resource_error_of}
use bottlerocket_test_system.Controller.Error.{Error, job, context}
use bottlerocket_test_system.Controller.Job.{
  JobState, absent, unknown, failed, exited, running, is_absent, test_start_time_limit,
  get_job_state,
}
use bottlerocket_test_system.Controller.Cluster.{Cluster, exceeds_timeout, quote}
use bottlerocket_test_system.Controller.Test.Readiness.{
  Resources, not_ready, ready, resource_readiness, dependency_wait_action,
}

pub data ErrorState : Type 0 where
  resource_error_exists test_error : String → ErrorState
  zombie job_failure job_start job_exit_before_done job_timeout : ErrorState
  handle_job_removed_before_done : ErrorState

pub data Action : Type 0 where
  initialize add_main_finalizer wait_for_resources add_job_finalizer start_test : Action
  register_resource_creation_error wait_for_dependency : String → Action
  wait_for_test delete_job remove_job_finalizer remove_main_finalizer test_done : Action
  error : ErrorState → Action

-- `Display` of `ErrorState`
unfoldable pub error_text : ErrorState → String
error_text (resource_error_exists e) = e
error_text zombie = "The main finalizer has been removed but the object still exists"
error_text (test_error e) = e
error_text job_failure = "The job failed"
error_text job_start = "The job failed to start in time"
error_text job_exit_before_done = "The test agent exited before marking the test complete"
error_text job_timeout = "The test agent did not finish within the specified time"
error_text handle_job_removed_before_done = "The job was removed before the test completed"

-- the action for the readiness of the resources; `next` is the dependency to wait for
ready_action : Test → Resources → Option.Option String → Action
ready_action t not_ready next = wait_for_resources
ready_action t (Resources.error s) next =
    if is_some (resource_error_of t)
    then register_resource_creation_error s
    else error (resource_error_exists s)
ready_action t ready Option.none = start_test
ready_action t ready (Option.some d) = wait_for_dependency d

running_action : Test → ℤ → Action
running_action t d =
    if exceeds_timeout t.spec.agent.timeout d
    then error job_timeout
    else if task_state_eq (agent_status t).task_state TaskState.unknown
        && at_least d test_start_time_limit
    then error job_start
    else wait_for_test

unfoldable pub name : Test → String
unfolding object_name
name t = object_name t.metadata

module _ {W : Type 0} (k : Cluster W) (t : Test) (w : W) where
  unfoldable pub job_state : Result Error JobState
  unfolding name
  job_state =
      map_err (λ e. context (quote "Unable to get job state for test " (name t) "") (job e))
        (get_job_state k.jobs k.now (name t) w)

  job_action : Bool → JobState → Result Error Action
  unfolding ready_action running_action
  job_action is_running absent =
      if not is_running
      then (resource_readiness k w t.spec.resources >>= λ s.
          ok (ready_action t s (dependency_wait_action k w t)))
      else ok (error handle_job_removed_before_done)
  job_action is_running unknown = ok wait_for_test
  job_action is_running (running Option.none) = ok wait_for_test
  job_action is_running (running (Option.some d)) = ok (running_action t d)
  job_action is_running failed = ok (error job_failure)
  job_action is_running exited = ok (error job_exit_before_done)

  unfoldable pub task_not_done_action : Bool → Result Error Action
  unfolding job_action job_state
  task_not_done_action is_running =
      if not is_running && not (has_finalizer t.metadata finalizer_test_job)
      then ok add_job_finalizer
      else job_state >>= job_action is_running

  unfoldable pub determine_delete_action : Result Error Action
  unfolding job_state
  determine_delete_action = job_state >>= λ s. ok (
      if not (is_absent s)
      then delete_job
      else if has_finalizer t.metadata finalizer_test_job
      then remove_job_finalizer
      else if has_finalizer t.metadata finalizer_main
      then remove_main_finalizer
      else error zombie)

  task_action : TaskState → Result Error Action
  unfolding task_not_done_action
  task_action TaskState.unknown = task_not_done_action false
  task_action TaskState.running = task_not_done_action true
  task_action TaskState.completed = ok test_done
  task_action TaskState.error = ok (error (test_error (unwrap_or "Unknown error" (agent_error t))))

  unfoldable pub determine_action : Result Error Action
  unfolding determine_delete_action task_action
  determine_action =
      if is_delete_requested t.metadata
      then determine_delete_action
      else if is_none t.status
      then ok initialize
      else if not (has_finalizer t.metadata finalizer_main)
      then ok add_main_finalizer
      else task_action (agent_status t).task_state
