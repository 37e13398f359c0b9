-- ===== src/Controller/Resource/Start.antt =====
-- When the controller starts the job that creates a resource.
use bottlerocket_test_system.Base.{
  String, ◌≡◌, refl, ◌≢◌, ◌↔◌, ◌⊎◌, true, false, Option, none, some, List, [], ◌∷◌, All, inl, inr,
  is_none, Option-cases, arith,
}
use bottlerocket_test_system.Base.Result.{ok}
use bottlerocket_test_system.Model.Agent.{TaskState}
use bottlerocket_test_system.Model.Constants.{finalizer_creation_job, finalizer_cleanup_required}
use bottlerocket_test_system.Model.Meta.{has_finalizer}
use bottlerocket_test_system.Model.Meta.Finalizers.{has_finalizers-has_finalizer}
use bottlerocket_test_system.Model.Resource.{
  Resource, ResourceAction, created_resource, creation_task_state,
}
use bottlerocket_test_system.Model.Test.{Test}
use bottlerocket_test_system.Clients.HttpStatusCode.{allow_not_found}
use bottlerocket_test_system.Clients.Error.{client_error_status}
use bottlerocket_test_system.Clients.CrdClient.{get, get_all}
use bottlerocket_test_system.Controller.Job.{absent}
use bottlerocket_test_system.Controller.Cluster.{Cluster}
use bottlerocket_test_system.Controller.Resource.Interface.{ResourceInterface, name, job_state}
use bottlerocket_test_system.Controller.Resource.Action.{
  creation_action, creation_not_done_action, creation_completed_action,
}
use bottlerocket_test_system.Controller.Resource.Action.Waits.{
  start_job, first_missing, first_conflict, dependency_wait_action, conflicting_wait_action,
  dependent_wait_action, any_depends_on, any_requires,
}

-- the names that an optional field of a specification lists
abbrev pub names : Option (List String) → List String
names none = []
names (some ns) = ns

module _ {W : Type 0} (k : Cluster W) (w : W) where
  -- The server has a resource of the name, and it was created.
  abbrev pub IsCreated : String → Type 0
  IsCreated n =
      (found : Resource) × (get k.resource_client n w ≡ ok found)
      × (is_none (created_resource found) ≡ false)

  -- The server says that it has no resource of the name.
  abbrev IsGone : String → Type 0
  IsGone n = allow_not_found (get k.resource_client n w) ≡ ok none

  -- Some resource depends on the name, or some test requires it.
  abbrev pub IsWanted : String → Type 0
  IsWanted n =
      (rs : List Resource) × (get_all k.resource_client w ≡ ok rs)
      × ((any_depends_on n rs ≡ true)
          ⊎ ((ts : List Test) × (get_all k.test_client w ≡ ok ts) × (any_requires n ts ≡ true)))

module _ {W : Type 0} (k : Cluster W) (r : ResourceInterface) (w : W) where
  first_missing-none :
      (ns : List String) → first_missing k r w ns ≡ ok none → All (IsCreated k w) ns
  unfolding first_missing
  first_missing-none [] h = tt
  first_missing-none (n ∷ ns) h = ground (arith, first_missing-none ns)

  none-first_missing :
      (ns : List String) → All (IsCreated k w) ns → first_missing k r w ns ≡ ok none
  unfolding first_missing
  none-first_missing [] h = refl
  none-first_missing (n ∷ ns) h = ground (arith, none-first_missing ns h.1)

  first_conflict-none : (ns : List String) → first_conflict k r w ns ≡ ok none → All (IsGone k w) ns
  unfolding first_conflict
  first_conflict-none [] h = tt
  first_conflict-none (n ∷ ns) h = ground (arith, first_conflict-none ns)

  none-first_conflict : (ns : List String) → All (IsGone k w) ns → first_conflict k r w ns ≡ ok none
  unfolding first_conflict
  none-first_conflict [] h = refl
  none-first_conflict (n ∷ ns) h = ground (arith, none-first_conflict ns h.1)

  dependency_wait_action-none :
      (dependency_wait_action k r w ≡ ok none)
      ↔ All (IsCreated k w) (names r.resource.spec.depends_on)
  unfolding dependency_wait_action
  dependency_wait_action-none = elim (Option-cases r.resource.spec.depends_on) [
    | inl e ↦ rw e (λ _. tt, λ _. refl)
    | inr (ds, e) ↦ rw e (first_missing-none ds, none-first_missing ds)
  ]

  conflicting_wait_action-none :
      (conflicting_wait_action k r w ≡ ok none)
      ↔ All (IsGone k w) (names r.resource.spec.conflicts_with)
  unfolding conflicting_wait_action
  conflicting_wait_action-none = elim (Option-cases r.resource.spec.conflicts_with) [
    | inl e ↦ rw e (λ _. tt, λ _. refl)
    | inr (cs, e) ↦ rw e (first_conflict-none cs, none-first_conflict cs)
  ]

  dependent_wait_action-none : dependent_wait_action k r w ≡ ok none → IsWanted k w (name r)
  unfolding dependent_wait_action
  dependent_wait_action-none h = ground arith

  none-dependent_wait_action : IsWanted k w (name r) → dependent_wait_action k r w ≡ ok none
  unfolding dependent_wait_action
  none-dependent_wait_action (rs, e, inl d) = ground arith
  none-dependent_wait_action (rs, e, inr (ts, f, q)) = ground arith

  -- What has to be the case before the creation job runs.
  pub record MayStart : Type 0 where
    pub has_status : is_none r.resource.status ≡ false
    pub dependencies : All (IsCreated k w) (names r.resource.spec.depends_on)
    pub conflicts : All (IsGone k w) (names r.resource.spec.conflicts_with)
    pub wanted : IsWanted k w (name r)
    pub unknown_task : creation_task_state r.resource ≡ TaskState.unknown
    pub job_finalizer : has_finalizer r.resource.metadata finalizer_creation_job ≡ true
    pub cleanup_finalizer : has_finalizer r.resource.metadata finalizer_cleanup_required ≡ true
    pub no_job : job_state k r ResourceAction.create w ≡ ok absent

  -- No wait starts a job.
  first_missing-waits : (ns : List String) → first_missing k r w ns ≢ ok (some start_job)
  unfolding first_missing
  first_missing-waits [] h = cc
  first_missing-waits (n ∷ ns) h = ground (arith, first_missing-waits ns)

  first_conflict-waits : (ns : List String) → first_conflict k r w ns ≢ ok (some start_job)
  unfolding first_conflict
  first_conflict-waits [] h = cc
  first_conflict-waits (n ∷ ns) h = ground (arith, first_conflict-waits ns)

  dependency_wait_action-waits : dependency_wait_action k r w ≢ ok (some start_job)
  unfolding dependency_wait_action
  dependency_wait_action-waits h = grind (arith, first_missing-waits)

  conflicting_wait_action-waits : conflicting_wait_action k r w ≢ ok (some start_job)
  unfolding conflicting_wait_action
  conflicting_wait_action-waits h = grind (arith, first_conflict-waits)

  dependent_wait_action-waits : dependent_wait_action k r w ≢ ok (some start_job)
  unfolding dependent_wait_action
  dependent_wait_action-waits h = ground arith

  start-waits :
      creation_action k r w ≡ ok start_job
      → (dependency_wait_action k r w ≡ ok none)
        × (conflicting_wait_action k r w ≡ ok none)
        × (dependent_wait_action k r w ≡ ok none)
  unfolding creation_action
  start-waits h = ground (
    arith, dependency_wait_action-waits, conflicting_wait_action-waits, dependent_wait_action-waits,
  )

  start-guards :
      creation_action k r w ≡ ok start_job
      → (is_none r.resource.status ≡ false)
        × (creation_task_state r.resource ≡ TaskState.unknown)
        × (has_finalizer r.resource.metadata finalizer_creation_job ≡ true)
        × (has_finalizer r.resource.metadata finalizer_cleanup_required ≡ true)
        × (job_state k r ResourceAction.create w ≡ ok absent)
  unfolding creation_action creation_not_done_action creation_completed_action
  start-guards h = ground (
    arith, dependency_wait_action-waits, conflicting_wait_action-waits, dependent_wait_action-waits,
  )

  MayStart-start_job : MayStart → creation_action k r w ≡ ok start_job
  unfolding creation_action creation_not_done_action creation_completed_action
  MayStart-start_job m = ground (
    arith,
    dependency_wait_action-none.1 m.dependencies,
    conflicting_wait_action-none.1 m.conflicts,
    none-dependent_wait_action m.wanted,
    has_finalizers-has_finalizer r.resource.metadata finalizer_creation_job,
    m.has_status,
    m.unknown_task,
    m.job_finalizer,
    m.cleanup_finalizer,
    m.no_job,
  )

  start_job-MayStart : creation_action k r w ≡ ok start_job → MayStart
  start_job-MayStart h =
      let waits = start-waits h in
      let guards = start-guards h in
      record {
        has_status = guards.0;
        dependencies = dependency_wait_action-none.0 waits.0;
        conflicts = conflicting_wait_action-none.0 waits.1;
        wanted = dependent_wait_action-none waits.2;
        unknown_task = guards.1;
        job_finalizer = guards.2;
        cleanup_finalizer = guards.3;
        no_job = guards.4;
      }

  -- Of a resource that is not to be deleted: the creation job is started exactly when the status is there, every dependency was
  -- created, every conflicting resource is gone, some resource or test wants the resource, the
  -- creation task is in its initial state, both finalizers that guard a creation are set, and the
  -- server has no creation job.
  pub creation_action-start_job : (creation_action k r w ≡ ok start_job) ↔ MayStart
  creation_action-start_job = (start_job-MayStart, MayStart-start_job)
