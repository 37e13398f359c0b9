-- ===== src/Manager/Selection.antt =====
-- model/src/test_manager/manager.rs: the objects that a selection finds.
pub mod Classes
use Prim.Native.String.{◌++◌}
use bottlerocket_test_system.Base.{
  String, Bool, true, false, not, ◌&&◌, ◌||◌, Option, none, some, List, [], ◌∷◌, map, if◌then◌else◌,
}
use mathlib.Core.List.{◌++◌ as append}
use bottlerocket_test_system.Base.Result.{Result, ok, map_err, ◌>>=◌}
use bottlerocket_test_system.Model.Agent.{TaskState}
use bottlerocket_test_system.Model.Crd.{Crd}
use bottlerocket_test_system.Model.Resource.{Resource, creation_task_state, destruction_task_state}
use bottlerocket_test_system.Model.Test.{Test, TestUserState, test_user_state}
use bottlerocket_test_system.Manager.{
  CrdType, CrdState, SelectionParams, ListParams, TestManager, Error, kube,
}

-- the test of a user state against a wanted state, `matches!` in `filter_test_by_state`
abbrev is_in : CrdState → TestUserState → Bool
is_in CrdState.running TestUserState.running = true
is_in CrdState.running _ = false
is_in CrdState.completed TestUserState.no_tests = true
is_in CrdState.completed TestUserState.passed = true
is_in CrdState.completed TestUserState.failed = true
is_in CrdState.completed TestUserState.error = true
is_in CrdState.completed TestUserState.resource_error = true
is_in CrdState.completed _ = false
is_in CrdState.passed TestUserState.passed = true
is_in CrdState.passed _ = false
is_in CrdState.failed TestUserState.failed = true
is_in CrdState.failed TestUserState.error = true
is_in CrdState.failed TestUserState.resource_error = true
is_in CrdState.failed _ = false
is_in CrdState.not_finished TestUserState.running = true
is_in CrdState.not_finished TestUserState.waiting = true
is_in CrdState.not_finished TestUserState.unknown = true
is_in CrdState.not_finished _ = false

pub filter_test_by_state : Test → Option CrdState → Bool
filter_test_by_state t none = true
filter_test_by_state t (some s) = is_in s (test_user_state t)

-- `matches!` of a task state
abbrev is_running : TaskState → Bool
is_running TaskState.running = true
is_running _ = false

abbrev is_unfinished : TaskState → Bool
is_unfinished TaskState.running = true
is_unfinished TaskState.unknown = true
is_unfinished _ = false

abbrev is_finished : TaskState → Bool
is_finished TaskState.completed = true
is_finished TaskState.error = true
is_finished _ = false

-- Both tests of `not_finished` read the creation.
pub filter_resource_by_state : Resource → Option CrdState → Bool
filter_resource_by_state r none = true
filter_resource_by_state r (some CrdState.running) =
    is_running (creation_task_state r) || is_running (destruction_task_state r)
filter_resource_by_state r (some CrdState.completed) =
    is_finished (creation_task_state r) && not (is_running (destruction_task_state r))
filter_resource_by_state r (some CrdState.not_finished) =
    is_unfinished (creation_task_state r) || is_unfinished (creation_task_state r)
filter_resource_by_state r (some CrdState.passed) = false
filter_resource_by_state r (some CrdState.failed) = false

-- `matches!(crd_type, Some(CrdType::Test) | None)`, and the same for resources
abbrev wants_tests : Option CrdType → Bool
wants_tests (some CrdType.resource) = false
wants_tests _ = true

abbrev wants_resources : Option CrdType → Bool
wants_resources (some CrdType.test) = false
wants_resources _ = true

abbrev list_params : SelectionParams → ListParams
list_params p = record {
  labels = p.labels;
  fields = elim p.name [ none ↦ none | some n ↦ some ("metadata.name==" ++ n) ];
}

-- `filter` and `map` of the two lists
tests_in : Option CrdState → List Test → List Crd
unfolding filter_test_by_state
tests_in s [] = []
tests_in s (t ∷ ts) = if filter_test_by_state t s then Crd.test t ∷ tests_in s ts else tests_in s ts

resources_in : Option CrdState → List Resource → List Crd
unfolding filter_resource_by_state
resources_in s [] = []
resources_in s (r ∷ rs) =
    if filter_resource_by_state r s then Crd.resource r ∷ resources_in s rs else resources_in s rs

module _ {W : Type 0} (m : TestManager W) (p : SelectionParams) (w : W) where
  listed_tests : Result Error (List Crd)
  unfolding tests_in
  listed_tests =
      if wants_tests p.crd_type
      then (map_err (kube "list tests from label params") (m.list_tests (list_params p) w) >>= λ ts.
          ok (tests_in p.state ts))
      else ok []

  listed_resources : Result Error (List Crd)
  unfolding resources_in
  listed_resources =
      if wants_resources p.crd_type
      then (map_err (kube "list tests from label params") (m.list_resources (list_params p) w)
          >>= λ rs. ok (resources_in p.state rs))
      else ok []

  unfoldable pub list : Result Error (List Crd)
  unfolding listed_tests listed_resources
  list = do tests ← listed_tests; resources ← listed_resources; ok (append tests resources)
