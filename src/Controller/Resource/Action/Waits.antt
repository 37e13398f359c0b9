-- ===== src/Controller/Resource/Action/Waits.antt =====
-- controller/src/resource_controller/action.rs: what a creation waits for, and whether the
-- destruction policy asks for a deletion.
use bottlerocket_test_system.Base.{
  String, Bool, true, false, not, ◌&&◌, ◌||◌, Option, none, some, List, [], ◌∷◌, contains, is_none,
  if◌then◌else◌,
}
use bottlerocket_test_system.Base.Result.{Result, ok, map_err, ◌>>=◌}
use bottlerocket_test_system.Model.Agent.{TaskState, task_state_eq}
use bottlerocket_test_system.Model.Resource.{
  Resource, DestructionPolicy, on_test_success, on_test_completion, created_resource,
}
use bottlerocket_test_system.Model.Test.{Test, TestUserState, agent_status, test_user_state}
use bottlerocket_test_system.Clients.HttpStatusCode.{allow_not_found}
use bottlerocket_test_system.Clients.Error.{client_error_status}
use bottlerocket_test_system.Clients.CrdClient.{get, get_all}
use bottlerocket_test_system.Controller.Error.{Error, client}
use bottlerocket_test_system.Controller.Cluster.{Cluster, name_any}
use bottlerocket_test_system.Controller.Resource.Interface.{ResourceInterface, name}

pub data ErrorState : Type 0 where
  job_start job_exited job_failed job_removed job_timeout task_failed zombie : ErrorState

pub data CreationAction : Type 0 where
  initialize add_main_finalizer add_job_finalizer add_cleanup_finalizer start_job : CreationAction
  wait_for_dependency wait_for_conflict : String → CreationAction
  wait_for_dependent wait_for_creation add_resource_finalizer done : CreationAction
  error : ErrorState → CreationAction

-- `depends_on.contains(name)`, for resources that have the field
pub depends_on : String → Resource → Bool
unfolding contains
depends_on n r = elim r.spec.depends_on [ none ↦ false | some ds ↦ contains ds n ]

unfoldable pub any_depends_on : String → List Resource → Bool
unfolding depends_on
any_depends_on n [] = false
any_depends_on n (r ∷ rs) = if depends_on n r then true else any_depends_on n rs

-- `test.spec().resources.contains(name)`
pub requires : String → Test → Bool
unfolding contains
requires n t = contains t.spec.resources n

pub any_requires : String → List Test → Bool
unfolding requires
any_requires n [] = false
any_requires n (t ∷ ts) = if requires n t then true else any_requires n ts

abbrev pub is_passed : TestUserState → Bool
is_passed TestUserState.passed = true
is_passed _ = false

-- A test that keeps a resource from being deleted under a policy.
unfoldable pub holds_back : DestructionPolicy → String → Test → Bool
unfolding requires
holds_back on_test_completion n t =
    requires n t && not (task_state_eq (agent_status t).task_state TaskState.completed)
holds_back on_test_success n t = requires n t && not (is_passed (test_user_state t))
holds_back _ n t = false

unfoldable pub any_holds_back : DestructionPolicy → String → List Test → Bool
unfolding holds_back
any_holds_back p n [] = false
any_holds_back p n (t ∷ ts) = if holds_back p n t then true else any_holds_back p n ts

-- `matches!(policy, OnTestCompletion | OnTestSuccess)`
abbrev follows_tests : DestructionPolicy → Bool
follows_tests on_test_completion = true
follows_tests on_test_success = true
follows_tests _ = false

module _ {W : Type 0} (k : Cluster W) (r : ResourceInterface) (w : W) where
  unfoldable pub first_missing : List String → Result Error (Option CreationAction)
  first_missing [] = ok none
  first_missing (needed ∷ rest) = do
    found ← map_err client (get k.resource_client needed w)
    if is_none (created_resource found)
        then ok (some (wait_for_dependency (name_any found.metadata)))
        else first_missing rest

  unfoldable pub dependency_wait_action : Result Error (Option CreationAction)
  unfolding first_missing
  dependency_wait_action = elim r.resource.spec.depends_on [
    | none ↦ ok none
    | some ds ↦ first_missing ds
  ]

  unfoldable pub first_conflict : List String → Result Error (Option CreationAction)
  first_conflict [] = ok none
  first_conflict (conflicting ∷ rest) = do
    found ← map_err client (allow_not_found (get k.resource_client conflicting w))
    let others = first_conflict rest
    elim found [ none ↦ others | some c ↦ ok (some (wait_for_conflict (name_any c.metadata))) ]

  unfoldable pub conflicting_wait_action : Result Error (Option CreationAction)
  unfolding first_conflict
  conflicting_wait_action = elim r.resource.spec.conflicts_with [
    | none ↦ ok none
    | some cs ↦ first_conflict cs
  ]

  unfoldable pub dependent_wait_action : Result Error (Option CreationAction)
  unfolding any_depends_on any_requires
  dependent_wait_action = do
    resources ← map_err client (get_all k.resource_client w)
    if any_depends_on (name r) resources then ok none else (do
      tests ← map_err client (get_all k.test_client w)
      ok (if any_requires (name r) tests then none else some wait_for_dependent))

  unfoldable pub is_deletion_required : Result Error Bool
  unfolding any_depends_on any_holds_back
  is_deletion_required =
      let policy = r.resource.spec.destruction_policy in
      if not (follows_tests policy) || is_none (created_resource r.resource) then ok false else (do
        resources ← map_err client (get_all k.resource_client w)
        if any_depends_on (name r) resources then ok false else (do
          tests ← map_err client (get_all k.test_client w)
          ok (not (any_holds_back policy (name r) tests))))
