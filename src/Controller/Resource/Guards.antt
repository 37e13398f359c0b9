-- ===== src/Controller/Resource/Guards.antt =====
-- The creation side adds a finalizer only where it is missing.
use bottlerocket_test_system.Base.{String, ◌≡◌, false, Option, none, some, List, [], ◌∷◌, arith}
use bottlerocket_test_system.Base.Result.{ok}
use bottlerocket_test_system.Model.Constants.{
  finalizer_creation_job, finalizer_main, finalizer_resource, finalizer_cleanup_required,
}
use bottlerocket_test_system.Model.Meta.{has_finalizer}
use bottlerocket_test_system.Model.Meta.Finalizers.{has_finalizers-has_finalizer}
use bottlerocket_test_system.Controller.Cluster.{Cluster}
use bottlerocket_test_system.Controller.Resource.Interface.{ResourceInterface}
use bottlerocket_test_system.Controller.Resource.Action.{
  creation_action, creation_not_done_action, creation_completed_action,
}
use bottlerocket_test_system.Controller.Resource.Action.Waits.{
  CreationAction, add_main_finalizer, add_job_finalizer, add_cleanup_finalizer,
  add_resource_finalizer, first_missing, first_conflict, dependency_wait_action,
  conflicting_wait_action, dependent_wait_action,
}

-- the finalizer that an action adds
abbrev pub added : CreationAction → Option String
added add_main_finalizer = some finalizer_main
added add_job_finalizer = some finalizer_creation_job
added add_cleanup_finalizer = some finalizer_cleanup_required
added add_resource_finalizer = some finalizer_resource
added _ = none

module _ {W : Type 0} (k : Cluster W) (r : ResourceInterface) (w : W) where
  -- Waits add nothing.
  added-first_missing :
      (a : CreationAction) (ns : List String)
      → first_missing k r w ns ≡ ok (some a)
      → added a ≡ none
  unfolding first_missing
  added-first_missing a [] h = cc
  added-first_missing a (n ∷ ns) h = ground (arith, added-first_missing a ns)

  added-first_conflict :
      (a : CreationAction) (ns : List String)
      → first_conflict k r w ns ≡ ok (some a)
      → added a ≡ none
  unfolding first_conflict
  added-first_conflict a [] h = cc
  added-first_conflict a (n ∷ ns) h = ground (arith, added-first_conflict a ns)

  added-dependency_wait_action :
      (a : CreationAction) → dependency_wait_action k r w ≡ ok (some a) → added a ≡ none
  unfolding dependency_wait_action
  added-dependency_wait_action a h = grind (arith, added-first_missing)

  added-conflicting_wait_action :
      (a : CreationAction) → conflicting_wait_action k r w ≡ ok (some a) → added a ≡ none
  unfolding conflicting_wait_action
  added-conflicting_wait_action a h = grind (arith, added-first_conflict)

  added-dependent_wait_action :
      (a : CreationAction) → dependent_wait_action k r w ≡ ok (some a) → added a ≡ none
  unfolding dependent_wait_action
  added-dependent_wait_action a h = ground arith

  -- A creation action adds a finalizer only if the resource does not have it.
  pub creation_action-added :
      (a : CreationAction) (f : String)
      → creation_action k r w ≡ ok a
      → added a ≡ some f
      → has_finalizer r.resource.metadata f ≡ false
  unfolding creation_action creation_not_done_action creation_completed_action
  creation_action-added a f h e = ground (
    arith,
    added-dependency_wait_action a,
    added-conflicting_wait_action a,
    added-dependent_wait_action a,
    has_finalizers-has_finalizer r.resource.metadata f,
  )
