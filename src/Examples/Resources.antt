-- ===== src/Examples/Resources.antt =====
-- The theorems on the resource controller, at concrete resources.
mod Running
use bottlerocket_test_system.Base.{
  String, ◌≡◌, refl, ◌⊎◌, inl, true, false, Option, none, some, List, [], ◌∷◌,
}
use bottlerocket_test_system.Base.Result.{ok}
use bottlerocket_test_system.Base.Duration.{pos}
use bottlerocket_test_system.Model.Json.{no_entry}
use bottlerocket_test_system.Model.Agent.{TaskState}
use bottlerocket_test_system.Model.Constants.{
  finalizer_creation_job, finalizer_main, finalizer_resource, finalizer_cleanup_required,
}
use bottlerocket_test_system.Model.Meta.{
  ObjectMeta, has_finalizer, has_finalizers, is_delete_requested, object_name,
}
use bottlerocket_test_system.Model.Resource.{
  Resource, ResourceAction, ResourceStatus, DestructionPolicy, creation_task_state,
  destruction_task_state, default_resource_status, created_resource,
}
use bottlerocket_test_system.Model.Test.{Test, default_test_status}
use bottlerocket_test_system.Clients.HttpStatusCode.{is_status_code}
use bottlerocket_test_system.Clients.CrdClient.{get, get_all}
use bottlerocket_test_system.Controller.Error.{get_error}
use bottlerocket_test_system.Controller.Job.{absent, running, get_job_state}
use bottlerocket_test_system.Controller.Job.Builder.{Job}
use bottlerocket_test_system.Controller.Resource.Interface.{ResourceInterface, name, job_state}
use bottlerocket_test_system.Controller.Resource.Action.{
  creation, creation_action, creation_not_done_action, destruction_action,
  destruction_not_done_action, creation_cleanup_action, destruction_action_with_resources, action,
  destruction, start_resource_deletion, start_destruction_job, remove_cleanup_finalizer,
  remove_main_finalizer,
}
use bottlerocket_test_system.Controller.Resource.Action.Waits.{
  CreationAction, start_job, add_job_finalizer, job_timeout, job_start, is_deletion_required,
  dependency_wait_action, conflicting_wait_action, dependent_wait_action,
}
use bottlerocket_test_system.Controller.Resource.Action
use bottlerocket_test_system.Controller.Resource.Creation.{MayCreate, action-start_job}
use bottlerocket_test_system.Controller.Resource.Removal.{
  IsReleased, MayDestroy, destruction_action-remove_main, destruction_action-removed,
  destruction_action-keeps_resource, destruction_action-start_job,
}
use bottlerocket_test_system.Controller.Resource.Policy.{
  MustDelete, is_deletion_required_iff, action-start_deletion,
}
use bottlerocket_test_system.Controller.Resource.Guards.{creation_action-added}
use bottlerocket_test_system.Controller.Resource.Limits.{
  Limits, creation_not_done_action-Limits, destruction_not_done_action-Limits,
}
use bottlerocket_test_system.Examples.Server.{Server, cluster, meta, agent}

abbrev resource : ObjectMeta → Option ResourceStatus → DestructionPolicy → Resource
resource m status policy = record {
  metadata = m;
  spec = record {
    depends_on = none;
    conflicts_with = none;
    agent = agent (some "1m");
    destruction_policy = policy;
  };
  status = status;
}

-- a test that requires the resource
abbrev requiring : Test
requiring = record {
  metadata = meta "t" none none;
  spec = record { resources = "r" ∷ []; depends_on = none; agent = agent none; retries = none };
  status = some default_test_status;
}

abbrev status : TaskState → TaskState → ResourceStatus
status created destroyed = record {
  creation = record { task_state = created; error = none };
  destruction = record { task_state = destroyed; error = none };
  agent_info = none;
  created_resource = some no_entry;
  last_update = none;
}

abbrev interface : Resource → ResourceInterface
interface r = record {
  resource = r;
  creation_job = "r-creation";
  destruction_job = "r-destruction";
}

abbrev world : Resource → List Job → Server
world r jobs = record { resources = r ∷ []; tests = requiring ∷ []; jobs = jobs }

-- a job that has been running for a time: the clock of the server stands at 100 seconds
abbrev job_since : String → Job
job_since n = record {
  name = some n;
  namespace = none;
  labels = none;
  spec = none;
  status = some (record {
    active = some 1;
    succeeded = none;
    failed = none;
    start_time = some 30_000_000_000;
  });
}

abbrev starting : Resource
starting =
    resource
      (meta "r" (some (finalizer_main ∷ finalizer_creation_job ∷ finalizer_cleanup_required ∷ []))
        none)
      (some default_resource_status) DestructionPolicy.on_deletion

-- deleted, with the finalizers of a list
abbrev deleted : List String → TaskState → Resource
deleted fs destroyed =
    resource (meta "r" (some fs) (some "2022-01-01T00:00:00Z"))
      (some (status TaskState.completed destroyed)) DestructionPolicy.on_deletion

abbrev kept : Resource
kept =
    resource (meta "r" (some (finalizer_main ∷ [])) none)
      (some (status TaskState.completed TaskState.unknown)) DestructionPolicy.on_test_success

-- what a run of the actions computes with
reads : Unit {0}
unfolding creation_action creation_not_done_action destruction_action creation_cleanup_action action
    is_deletion_required has_finalizers has_finalizer is_delete_requested dependency_wait_action
    conflicting_wait_action dependent_wait_action get get_all name object_name creation_task_state
    destruction_task_state created_resource job_state get_job_state is_status_code get_error
reads = tt

starts : action cluster (interface starting) (world starting []) ≡ ok (creation start_job)
unfolding reads
starts = refl

action-start_job_example : MayCreate cluster (interface starting) (world starting [])
action-start_job_example =
    (action-start_job cluster (interface starting) (world starting [])).0 starts

abbrev released : Resource
released = deleted (finalizer_main ∷ []) TaskState.completed

releases :
    destruction_action cluster (interface released) (world released []) ≡ ok remove_main_finalizer
unfolding reads
releases = refl

destruction_action-remove_main_example : IsReleased cluster (interface released) (world released [])
destruction_action-remove_main_example =
    (destruction_action-remove_main cluster (interface released) (world released [])).0 releases

abbrev destroyed : Resource
destroyed = deleted (finalizer_main ∷ finalizer_cleanup_required ∷ []) TaskState.completed

cleans :
    destruction_action cluster (interface destroyed) (world destroyed [])
    ≡ ok remove_cleanup_finalizer
unfolding reads
cleans = refl

destruction_action-keeps_resource_example :
    (has_finalizer destroyed.metadata finalizer_creation_job ≡ false)
    × ((destroyed.spec.destruction_policy ≡ DestructionPolicy.never)
        ⊎ ((destruction_task_state destroyed ≡ TaskState.completed)
            × (job_state cluster (interface destroyed) ResourceAction.destroy (world destroyed [])
                ≡ ok absent)))
destruction_action-keeps_resource_example =
    destruction_action-keeps_resource cluster (interface destroyed) (world destroyed [])
      remove_cleanup_finalizer cleans (inl refl)

abbrev undestroyed : Resource
undestroyed = deleted (finalizer_main ∷ finalizer_resource ∷ []) TaskState.unknown

destroys :
    destruction_action cluster (interface undestroyed) (world undestroyed [])
    ≡ ok start_destruction_job
unfolding reads
destroys = refl

destruction_action-start_job_example :
    MayDestroy cluster (interface undestroyed) (world undestroyed [])
destruction_action-start_job_example =
    (destruction_action-start_job cluster (interface undestroyed) (world undestroyed [])).0 destroys

-- without a test that requires the resource
abbrev quiet_world : Server
quiet_world = record { resources = kept ∷ []; tests = []; jobs = [] }

is_required : is_deletion_required cluster (interface kept) quiet_world ≡ ok true
unfolding reads
is_required = refl

is_deletion_required_iff_example : MustDelete cluster (interface kept) quiet_world
is_deletion_required_iff_example =
    (is_deletion_required_iff cluster (interface kept) quiet_world).0 is_required

not_requested : is_delete_requested kept.metadata ≡ false
unfolding reads
not_requested = refl

abbrev fresh : Resource
fresh =
    resource (meta "r" (some (finalizer_main ∷ [])) none) (some default_resource_status)
      DestructionPolicy.on_deletion

adds : creation_action cluster (interface fresh) (world fresh []) ≡ ok add_job_finalizer
unfolding reads
adds = refl
