-- ===== src/Examples/Effects.antt =====
-- The theorems on what a reconciliation does, and on the objects, at concrete objects.
use bottlerocket_test_system.Base.{
  ◌≤◌, inr, ℕ, String, ◌≡◌, refl, Option, none, some, List, [], ◌∷◌,
}
use bottlerocket_test_system.Base.Result.{ok}
use bottlerocket_test_system.Model.Json.{no_entry}
use bottlerocket_test_system.Model.Agent.{TaskState}
use bottlerocket_test_system.Model.Constants.{
  finalizer_main, finalizer_resource, finalizer_cleanup_required, finalizer_creation_job,
}
use bottlerocket_test_system.Model.Meta.{
  has_finalizer, has_finalizers, is_delete_requested, object_name,
}
use bottlerocket_test_system.Model.Resource.{
  Resource, DestructionPolicy, creation_task_state, destruction_task_state,
}
use bottlerocket_test_system.Model.Test.{Test, TestStatus, default_test_status, agent_status}
use bottlerocket_test_system.Clients.HttpStatusCode.{is_status_code}
use bottlerocket_test_system.Clients.CrdClient.{get, get_all}
use bottlerocket_test_system.Clients.CrdClient.Finalizers.{Removes}
use bottlerocket_test_system.Controller.Error.{get_error}
use bottlerocket_test_system.Controller.Job.{get_job_state}
use bottlerocket_test_system.Controller.Requeue.{requeue}
use bottlerocket_test_system.Controller.Resource.Interface.{name, new, job_state}
use bottlerocket_test_system.Controller.Resource.Action.{
  action, creation, creation_action, destruction_action, remove_cleanup_finalizer,
  creation_completed_action, creation_cleanup_action,
}
use bottlerocket_test_system.Controller.Resource.Action.Waits.{
  CreationAction, is_deletion_required, dependency_wait_action, conflicting_wait_action,
  dependent_wait_action,
}
use bottlerocket_test_system.Controller.Resource.Progress.{IsOver, Leaves, IsOver-Leaves}
use bottlerocket_test_system.Controller.Resource.Reconcile.{reconcile, do_destruction_action}
use bottlerocket_test_system.Controller.Test.Reconcile.{do_action}
use bottlerocket_test_system.Controller.Resource.Reconcile.Effects.{reconcile-idle}
use bottlerocket_test_system.Controller.Resource.Reconcile.Finalizers.{destruction_action-Removes}
use bottlerocket_test_system.Controller.Test.Action.{
  Action, determine_action, determine_delete_action,
}
use bottlerocket_test_system.Controller.Test.Action as Tested
use bottlerocket_test_system.Controller.Test.Reconcile.Finalizers.{determine_action-Removes}
use bottlerocket_test_system.Examples.Server.{Server, cluster, meta, agent}

-- a resource that was created, and whose destruction has the given state
abbrev resource : List String → Option String → TaskState → Resource
resource finalizers deletion destroyed = record {
  metadata = meta "r" (some finalizers) deletion;
  spec = record {
    depends_on = none;
    conflicts_with = none;
    agent = agent none;
    destruction_policy = DestructionPolicy.on_deletion;
  };
  status = some (record {
    creation = record { task_state = TaskState.completed; error = none };
    destruction = record { task_state = destroyed; error = none };
    agent_info = none;
    created_resource = some no_entry;
    last_update = none;
  });
}

abbrev test : List String → Option String → TestStatus → Test
test finalizers deletion status = record {
  metadata = meta "t" (some finalizers) deletion;
  spec = record { resources = "r" ∷ []; depends_on = none; agent = agent none; retries = none };
  status = some status;
}

abbrev world : Resource → Server
world r = record { resources = r ∷ []; tests = test [] none default_test_status ∷ []; jobs = [] }

-- what a run of the actions computes with
reads : Unit {0}
unfolding creation_action creation_completed_action destruction_action creation_cleanup_action
    action is_deletion_required has_finalizers has_finalizer is_delete_requested
    dependency_wait_action conflicting_wait_action dependent_wait_action get get_all name
    object_name creation_task_state destruction_task_state job_state get_job_state is_status_code
    get_error determine_action determine_delete_action agent_status Tested.job_state Tested.name new
reads = tt

abbrev done : Resource
done = resource (finalizer_main ∷ finalizer_resource ∷ []) none TaskState.unknown

is_done : action cluster (new done) (world done) ≡ ok (creation CreationAction.done)
unfolding reads
is_done = refl

reconcile-idle_example : reconcile cluster done (world done) ≡ (ok requeue, world done)
reconcile-idle_example =
    reconcile-idle cluster done (world done) (creation CreationAction.done) is_done refl

abbrev destroyed : Resource
destroyed =
    resource (finalizer_main ∷ finalizer_cleanup_required ∷ []) (some "2022-01-01T00:00:00Z")
      TaskState.completed

cleans : destruction_action cluster (new destroyed) (world destroyed) ≡ ok remove_cleanup_finalizer
unfolding reads
cleans = refl

destruction_action-Removes_example :
    Removes cluster.resource_client destroyed finalizer_cleanup_required
      (world destroyed)
      (do_destruction_action cluster (new destroyed) remove_cleanup_finalizer)
unfolding new
destruction_action-Removes_example =
    destruction_action-Removes cluster (new destroyed) (world destroyed) (λ x. refl)
      remove_cleanup_finalizer finalizer_cleanup_required cleans refl

abbrev leaving : Resource
leaving =
    resource
      (finalizer_main ∷ finalizer_creation_job ∷ finalizer_cleanup_required ∷ finalizer_resource
        ∷ [])
      (some "2022-01-01T00:00:00Z") TaskState.completed

leaving-IsOver : IsOver cluster (world leaving) (new leaving)
unfolding reads
leaving-IsOver = record {
  requested = refl;
  main = refl;
  no_creation = refl;
  no_destruction = refl;
  done = inr refl;
}

IsOver-Leaves_example : (n : ℕ) × (n ≤ 3) × Leaves cluster (world leaving) (new leaving) n
IsOver-Leaves_example = IsOver-Leaves cluster (world leaving) (new leaving) leaving-IsOver

abbrev created : Resource
created = resource (finalizer_main ∷ []) none TaskState.unknown

adds :
    creation_action cluster (new created) (world created) ≡ ok CreationAction.add_resource_finalizer
unfolding reads
adds = refl

abbrev released : Test
released = test (finalizer_main ∷ []) (some "2022-01-01T00:00:00Z") default_test_status

releases : determine_action cluster released (world done) ≡ ok Action.remove_main_finalizer
unfolding reads
releases = refl

determine_action-Removes_example :
    Removes cluster.test_client released finalizer_main
      (world done)
      (do_action cluster released Action.remove_main_finalizer)
determine_action-Removes_example =
    determine_action-Removes cluster released (world done) (λ x. refl) Action.remove_main_finalizer
      finalizer_main releases refl

abbrev fresh : Test
fresh = record (test [] none default_test_status) { metadata = meta "t" none none }

begins : determine_action cluster fresh (world done) ≡ ok Action.add_main_finalizer
unfolding reads
begins = refl
