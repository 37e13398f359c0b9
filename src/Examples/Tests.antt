-- ===== src/Examples/Tests.antt =====
-- The theorems on the test controller and on jobs, at concrete tests.
use bottlerocket_test_system.Base.{
  String, ◌≡◌, refl, true, Option, none, some, List, [], ◌∷◌, is_some, contains,
}
use bottlerocket_test_system.Base.Result.{ok}
use bottlerocket_test_system.Model.Json.{no_entry}
use bottlerocket_test_system.Model.Agent.{TaskState}
use bottlerocket_test_system.Model.Constants.{finalizer_main, finalizer_test_job}
use bottlerocket_test_system.Model.Meta.{has_finalizer, is_delete_requested, object_name}
use bottlerocket_test_system.Model.Resource.{
  Resource, DestructionPolicy, creation_error, creation_task_state,
}
use bottlerocket_test_system.Model.Test.{
  Test, TestStatus, agent_status, resource_error_of, default_test_status,
}
use bottlerocket_test_system.Clients.HttpStatusCode.{
  is_status_code, result_is_status_code, kube_error_status,
}
use bottlerocket_test_system.Clients.CrdClient.{get}
use bottlerocket_test_system.Controller.Error.{get_error, delete_error}
use bottlerocket_test_system.Controller.Job.{absent, get_job_state}
use bottlerocket_test_system.Controller.Cluster.{quote}
use bottlerocket_test_system.Controller.Test.Readiness.{
  ready, readiness_of, resource_readiness, dependency_wait_action,
}
use bottlerocket_test_system.Controller.Test.Action.{
  start_test, register_resource_creation_error, add_job_finalizer, remove_main_finalizer, name,
  job_state, determine_action, determine_delete_action, task_not_done_action,
}
use bottlerocket_test_system.Controller.Test.Start.{
  MayStart, determine_action-start_test, determine_action-register,
}
use bottlerocket_test_system.Controller.Test.Removal.{IsReleased, determine_action-remove_main}
use bottlerocket_test_system.Examples.Server.{Server, cluster, meta, agent}

-- a resource that was created
abbrev created : Resource
created = record {
  metadata = meta "r" none none;
  spec = record {
    depends_on = none;
    conflicts_with = none;
    agent = agent none;
    destruction_policy = DestructionPolicy.on_deletion;
  };
  status = some (record {
    creation = record { task_state = TaskState.completed; error = none };
    destruction = record { task_state = TaskState.unknown; error = none };
    agent_info = none;
    created_resource = some no_entry;
    last_update = none;
  });
}

abbrev test : Option (List String) → Option String → Option TestStatus → Test
test finalizers deletion status = record {
  metadata = meta "t" finalizers deletion;
  spec = record { resources = "r" ∷ []; depends_on = none; agent = agent none; retries = none };
  status = status;
}

abbrev world : List Resource → Server
world rs = record { resources = rs; tests = []; jobs = [] }

-- what a run of the actions computes with
reads : Unit {0}
unfolding determine_action determine_delete_action contains task_not_done_action has_finalizer
    is_delete_requested agent_status resource_error_of name object_name job_state get_job_state
    get_error delete_error is_status_code result_is_status_code resource_readiness readiness_of
    dependency_wait_action creation_error creation_task_state get
reads = tt

is_ready : resource_readiness cluster (world (created ∷ [])) ("r" ∷ []) ≡ ok ready
unfolding reads
is_ready = refl

abbrev starting : Test
starting = test (some (finalizer_main ∷ finalizer_test_job ∷ [])) none (some default_test_status)

starts : determine_action cluster starting (world (created ∷ [])) ≡ ok start_test
unfolding reads
starts = refl

determine_action-start_test_example : MayStart cluster starting (world (created ∷ []))
determine_action-start_test_example =
    (determine_action-start_test cluster starting (world (created ∷ []))).0 starts

-- a resource is missing, and the status has a resource error already
abbrev failing : Test
failing =
    test (some (finalizer_main ∷ finalizer_test_job ∷ [])) none
      (some (record default_test_status { controller = record { resource_error = some "before" } }))

registers :
    determine_action cluster failing (world [])
    ≡ ok (register_resource_creation_error (quote "Resource " "r" " not found"))
unfolding reads
registers = refl

determine_action-register_example : is_some (resource_error_of failing) ≡ true
determine_action-register_example =
    determine_action-register cluster failing (world []) (quote "Resource " "r" " not found")
      registers

abbrev released : Test
released =
    test (some (finalizer_main ∷ [])) (some "2022-01-01T00:00:00Z") (some default_test_status)

releases : determine_action cluster released (world []) ≡ ok remove_main_finalizer
unfolding reads
releases = refl

determine_action-remove_main_example : IsReleased cluster released (world [])
determine_action-remove_main_example =
    (determine_action-remove_main cluster released (world [])).0 releases

abbrev fresh : Test
fresh = test (some (finalizer_main ∷ [])) none (some default_test_status)

adds : determine_action cluster fresh (world []) ≡ ok add_job_finalizer
unfolding reads
adds = refl

no_job : get_job_state cluster.jobs cluster.now "j" (world []) ≡ ok absent
unfolding reads
no_job = refl
