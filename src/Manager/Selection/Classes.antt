-- ===== src/Manager/Selection/Classes.antt =====
-- How the states of a selection divide the objects.
use bottlerocket_test_system.Base.{true, false, some, ◌≡◌, ◌⊎◌, ◌↔◌, arith}
use bottlerocket_test_system.Model.Agent.{TaskState}
use bottlerocket_test_system.Model.Resource.{Resource, creation_task_state, destruction_task_state}
use bottlerocket_test_system.Model.Test.{Test, TestUserState, test_user_state}
use bottlerocket_test_system.Manager.{CrdState}
use bottlerocket_test_system.Manager.Selection.{filter_test_by_state, filter_resource_by_state}

-- Which of the wanted states a test is in.
pub record TestClasses (t : Test) : Type 0 where
  pub either :
      (filter_test_by_state t (some CrdState.not_finished) ≡ true)
      ⊎ (filter_test_by_state t (some CrdState.completed) ≡ true)
      ⊎ (test_user_state t ≡ TestUserState.deleting)
  pub not_both :
      filter_test_by_state t (some CrdState.not_finished) ≡ true
      → filter_test_by_state t (some CrdState.completed) ≡ false
  pub running :
      filter_test_by_state t (some CrdState.running) ≡ true
      → filter_test_by_state t (some CrdState.not_finished) ≡ true
  pub completed : (filter_test_by_state t (some CrdState.completed) ≡ true) ↔ (
      (filter_test_by_state t (some CrdState.passed) ≡ true)
      ⊎ (filter_test_by_state t (some CrdState.failed) ≡ true)
      ⊎ (test_user_state t ≡ TestUserState.no_tests))

filter_test_by_state-TestClasses : (t : Test) → TestClasses t
unfolding filter_test_by_state
filter_test_by_state-TestClasses t = ground arith

-- Which of the wanted states a resource is in.
pub record ResourceClasses (r : Resource) : Type 0 where
  pub not_both :
      filter_resource_by_state r (some CrdState.not_finished) ≡ true
      → filter_resource_by_state r (some CrdState.completed) ≡ false
  pub one :
      (filter_resource_by_state r (some CrdState.not_finished) ≡ true)
      ⊎ (filter_resource_by_state r (some CrdState.completed) ≡ true)
      ⊎ (filter_resource_by_state r (some CrdState.running) ≡ true)
  pub destroying :
      creation_task_state r ≡ TaskState.completed
      → destruction_task_state r ≡ TaskState.running
      → (filter_resource_by_state r (some CrdState.running) ≡ true)
        × (filter_resource_by_state r (some CrdState.not_finished) ≡ false)

filter_resource_by_state-ResourceClasses : (r : Resource) → ResourceClasses r
unfolding filter_resource_by_state
filter_resource_by_state-ResourceClasses r = ground arith

-- How the wanted states select. A test is unfinished, completed or being deleted; never both of the
-- first; a running one is unfinished; and the completed ones are those that passed, those that failed,
-- and those without tests. A resource is unfinished, completed or running, never both of the first.
-- If it was created and its destruction is running, it is running, but not unfinished.
pub filter_by_state-Classes : (t : Test) (r : Resource) → TestClasses t × ResourceClasses r
filter_by_state-Classes t r =
    (filter_test_by_state-TestClasses t, filter_resource_by_state-ResourceClasses r)
