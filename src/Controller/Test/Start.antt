-- ===== src/Controller/Test/Start.antt =====
-- When the controller starts the agent of a test, and what it does about failed resources.
use bottlerocket_test_system.Base.{
  String, ◌≡◌, ◌↔◌, refl, true, false, none, some, inl, inr, List, [], ◌∷◌, All, is_none, is_some,
  get_last?, Option-cases, arith,
}
use bottlerocket_test_system.Base.Result.{ok}
use bottlerocket_test_system.Model.Agent.{TaskState}
use bottlerocket_test_system.Model.Constants.{finalizer_main, finalizer_test_job}
use bottlerocket_test_system.Model.Meta.{has_finalizer, is_delete_requested}
use bottlerocket_test_system.Model.Test.{
  Test, TestResults, Outcome, agent_status, resource_error_of,
}
use bottlerocket_test_system.Clients.CrdClient.{get}
use bottlerocket_test_system.Controller.Job.{absent}
use bottlerocket_test_system.Controller.Cluster.{Cluster}
use bottlerocket_test_system.Controller.Resource.Start.{names}
use bottlerocket_test_system.Controller.Test.Readiness.{
  ready, resource_readiness, first_not_passed, dependency_wait_action,
}
use bottlerocket_test_system.Controller.Test.Retry.{IsReady, resource_readiness-ready}
use bottlerocket_test_system.Controller.Test.Action.{
  start_test, register_resource_creation_error, job_state, determine_action,
  determine_delete_action,
}

module _ {W : Type 0} (k : Cluster W) (w : W) where
  -- The server has a test of the name, and its last results passed.
  abbrev HasPassed : String → Type 0
  HasPassed n =
      (t : Test) × (get k.test_client n w ≡ ok t)
      × (x : TestResults) × (get_last? (agent_status t).results ≡ some x)
      × (x.outcome ≡ Outcome.pass)

  first_not_passed-HasPassed :
      (ns : List String) → first_not_passed k w ns ≡ none → All HasPassed ns
  unfolding first_not_passed
  first_not_passed-HasPassed [] h = tt
  first_not_passed-HasPassed (n ∷ ns) h = ground (arith, first_not_passed-HasPassed ns)

  HasPassed-first_not_passed :
      (ns : List String) → All HasPassed ns → first_not_passed k w ns ≡ none
  unfolding first_not_passed
  HasPassed-first_not_passed [] h = refl
  HasPassed-first_not_passed (n ∷ ns) h = ground (arith, HasPassed-first_not_passed ns h.1)

  dependency_wait_action-none :
      (t : Test) → (dependency_wait_action k w t ≡ none) ↔ All HasPassed (names t.spec.depends_on)
  unfolding dependency_wait_action
  dependency_wait_action-none t = elim (Option-cases t.spec.depends_on) [
    | inl e ↦ rw e (λ _. tt, λ _. refl)
    | inr (ds, e) ↦ rw e (first_not_passed-HasPassed ds, HasPassed-first_not_passed ds)
  ]

module _ {W : Type 0} (k : Cluster W) (t : Test) (w : W) where
  -- What has to be the case before the test agent runs.
  pub record MayStart : Type 0 where
    pub not_deleted : is_delete_requested t.metadata ≡ false
    pub has_status : is_none t.status ≡ false
    pub main_finalizer : has_finalizer t.metadata finalizer_main ≡ true
    pub job_finalizer : has_finalizer t.metadata finalizer_test_job ≡ true
    pub unknown_task : (agent_status t).task_state ≡ TaskState.unknown
    pub no_job : job_state k t w ≡ ok absent
    pub resources : All (IsReady k w) t.spec.resources
    pub dependencies : All (HasPassed k w) (names t.spec.depends_on)

  start-parts :
      determine_action k t w ≡ ok start_test
      → (is_delete_requested t.metadata ≡ false)
        × (is_none t.status ≡ false)
        × (has_finalizer t.metadata finalizer_main ≡ true)
        × (has_finalizer t.metadata finalizer_test_job ≡ true)
        × ((agent_status t).task_state ≡ TaskState.unknown)
        × (job_state k t w ≡ ok absent)
        × (resource_readiness k w t.spec.resources ≡ ok ready)
        × (dependency_wait_action k w t ≡ none)
  unfolding determine_action determine_delete_action
  start-parts h = ground arith

  start-MayStart : determine_action k t w ≡ ok start_test → MayStart
  start-MayStart h =
      let (d, s, m, f, u, j, q, p) = start-parts h in
      record {
        not_deleted = d;
        has_status = s;
        main_finalizer = m;
        job_finalizer = f;
        unknown_task = u;
        no_job = j;
        resources = (resource_readiness-ready k w t.spec.resources).0 q;
        dependencies = (dependency_wait_action-none k w t).0 p;
      }

  MayStart-start : MayStart → determine_action k t w ≡ ok start_test
  unfolding determine_action
  MayStart-start m = ground (
    arith,
    m.not_deleted,
    m.has_status,
    m.main_finalizer,
    m.job_finalizer,
    m.unknown_task,
    m.no_job,
    (resource_readiness-ready k w t.spec.resources).1 m.resources,
    (dependency_wait_action-none k w t).1 m.dependencies,
  )

  -- The controller starts the test agent exactly when the test is not being deleted, its status and
  -- both finalizers are there, its task is in its initial state, the server has no job, every
  -- resource was created without an error, and the last results of every test that it depends on
  -- passed.
  pub determine_action-start_test : (determine_action k t w ≡ ok start_test) ↔ MayStart
  determine_action-start_test = (start-MayStart, MayStart-start)

  -- A resource error is registered in the status only if one was registered there before.
  pub determine_action-register :
      (s : String)
      → determine_action k t w ≡ ok (register_resource_creation_error s)
      → is_some (resource_error_of t) ≡ true
  unfolding determine_action determine_delete_action
  determine_action-register s h = ground arith
