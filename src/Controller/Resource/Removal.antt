-- ===== src/Controller/Resource/Removal.antt =====
-- When the controller lets go of a resource: the removal of its finalizers and of its jobs.
use bottlerocket_test_system.Base.{
  String, ◌≡◌, ◌≢◌, ◌↔◌, ◌⊎◌, inl, inr, true, false, Option, none, some, arith,
}
use bottlerocket_test_system.Base.Result.{ok}
use bottlerocket_test_system.Model.Agent.{TaskState}
use bottlerocket_test_system.Model.Constants.{
  finalizer_creation_job, finalizer_main, finalizer_resource, finalizer_cleanup_required,
}
use bottlerocket_test_system.Model.Meta.{has_finalizer, is_delete_requested}
use bottlerocket_test_system.Model.Resource.{
  ResourceAction, DestructionPolicy, destruction_task_state,
}
use bottlerocket_test_system.Controller.Job.{absent}
use bottlerocket_test_system.Controller.Cluster.{Cluster}
use bottlerocket_test_system.Controller.Resource.Interface.{ResourceInterface, job_state}
use bottlerocket_test_system.Controller.Resource.Action.{
  DestructionAction, start_destruction_job, remove_creation_job_finalizer, remove_cleanup_finalizer,
  remove_resource_finalizer, remove_main_finalizer, destruction_action, creation_cleanup_action,
  destruction_action_with_resources,
}

-- the finalizer that an action removes
abbrev pub removed : DestructionAction → Option String
removed remove_creation_job_finalizer = some finalizer_creation_job
removed remove_cleanup_finalizer = some finalizer_cleanup_required
removed remove_resource_finalizer = some finalizer_resource
removed remove_main_finalizer = some finalizer_main
removed _ = none

module _ {W : Type 0} (k : Cluster W) (r : ResourceInterface) (w : W) where
  -- Nothing of the resource is left: neither a job nor what a job created.
  pub record IsReleased : Type 0 where
    pub requested : is_delete_requested r.resource.metadata ≡ true
    pub no_job_finalizer : has_finalizer r.resource.metadata finalizer_creation_job ≡ false
    pub no_resource_finalizer : has_finalizer r.resource.metadata finalizer_resource ≡ false
    pub no_cleanup_finalizer : has_finalizer r.resource.metadata finalizer_cleanup_required ≡ false
    pub no_job : job_state k r ResourceAction.destroy w ≡ ok absent
    pub main_finalizer : has_finalizer r.resource.metadata finalizer_main ≡ true

  remove_main-IsReleased : destruction_action k r w ≡ ok remove_main_finalizer → IsReleased
  unfolding destruction_action creation_cleanup_action
  remove_main-IsReleased h = ground arith

  IsReleased-remove_main : IsReleased → destruction_action k r w ≡ ok remove_main_finalizer
  unfolding destruction_action creation_cleanup_action
  IsReleased-remove_main i = ground arith

  -- The main finalizer is removed exactly when the deletion was requested, no other finalizer of the
  -- controller is left, the server has no destruction job, and the main finalizer is set.
  pub destruction_action-remove_main :
      (destruction_action k r w ≡ ok remove_main_finalizer) ↔ IsReleased
  destruction_action-remove_main = (remove_main-IsReleased, IsReleased-remove_main)

  -- A destruction action removes a finalizer only if the resource has it, and only after the
  -- deletion was requested.
  pub destruction_action-removed :
      (a : DestructionAction) (f : String)
      → destruction_action k r w ≡ ok a
      → removed a ≡ some f
      → (has_finalizer r.resource.metadata f ≡ true)
        × (is_delete_requested r.resource.metadata ≡ true)
  unfolding destruction_action creation_cleanup_action
  destruction_action-removed a f h e = ground arith

  -- The finalizers that stand for what a job may have created are removed only if the policy keeps
  -- the resource for good, or the destruction task is complete and its job is gone. In both cases the
  -- creation job's finalizer is gone before.
  pub destruction_action-keeps_resource :
      (a : DestructionAction)
      → destruction_action k r w ≡ ok a
      → (a ≡ remove_cleanup_finalizer) ⊎ (a ≡ remove_resource_finalizer)
      → (has_finalizer r.resource.metadata finalizer_creation_job ≡ false)
        × ((r.resource.spec.destruction_policy ≡ DestructionPolicy.never)
            ⊎ ((destruction_task_state r.resource ≡ TaskState.completed)
                × (job_state k r ResourceAction.destroy w ≡ ok absent)))
  unfolding destruction_action creation_cleanup_action
  destruction_action-keeps_resource a h (inl e) = ground arith
  destruction_action-keeps_resource a h (inr e) = ground arith

  -- What has to be the case before the destruction job runs.
  pub record MayDestroy : Type 0 where
    pub requested : is_delete_requested r.resource.metadata ≡ true
    pub no_job_finalizer : has_finalizer r.resource.metadata finalizer_creation_job ≡ false
    pub resources :
        (has_finalizer r.resource.metadata finalizer_resource ≡ true)
        ⊎ (has_finalizer r.resource.metadata finalizer_cleanup_required ≡ true)
    pub destroys : r.resource.spec.destruction_policy ≢ DestructionPolicy.never
    pub unknown_task : destruction_task_state r.resource ≡ TaskState.unknown
    pub no_job : job_state k r ResourceAction.destroy w ≡ ok absent

  start_destruction-MayDestroy : destruction_action k r w ≡ ok start_destruction_job → MayDestroy
  unfolding destruction_action creation_cleanup_action destruction_action_with_resources
  start_destruction-MayDestroy h = ground arith

  MayDestroy-start_destruction : MayDestroy → destruction_action k r w ≡ ok start_destruction_job
  unfolding destruction_action creation_cleanup_action destruction_action_with_resources
  MayDestroy-start_destruction m = ground arith

  -- The controller starts the destruction job exactly when the deletion was requested, the creation
  -- job's finalizer is gone, a finalizer says that resources may exist, the policy is not to keep
  -- them for good, the destruction task is in its initial state, and there is no destruction job.
  pub destruction_action-start_job :
      (destruction_action k r w ≡ ok start_destruction_job) ↔ MayDestroy
  destruction_action-start_job = (start_destruction-MayDestroy, MayDestroy-start_destruction)
