-- ===== src/Model/Test/UserState.antt =====
-- When a user sees a test as passed.
use bottlerocket_test_system.Base.{false, some, none, get_last?, ◌≡◌, ◌≢◌, ◌↔◌, arith}
use bottlerocket_test_system.Model.Agent.{TaskState}
use bottlerocket_test_system.Model.Meta.{is_delete_requested}
use bottlerocket_test_system.Model.Test.{
  Test, TestResults, Outcome, TestUserState, agent_status, resource_error_of, test_user_state,
  total,
}

-- Results that count as passed: the outcome says so, or the outcome is open, and some tests ran and
-- none failed.
data Passes (r : TestResults) : Type 0 where
  by_outcome : r.outcome ≡ Outcome.pass → Passes r
  by_counts :
      r.outcome ≢ Outcome.pass
      → r.outcome ≢ Outcome.fail
      → r.outcome ≢ Outcome.timeout
      → total r ≢ 0
      → r.num_failed ≡ 0
      → Passes r

-- A test that a user sees as passed.
record IsPassed (t : Test) : Type 0 where
  pub not_deleted : is_delete_requested t.metadata ≡ false
  pub no_error : resource_error_of t ≡ none
  pub completed : (agent_status t).task_state ≡ TaskState.completed
  pub results : (r : TestResults) × (get_last? (agent_status t).results ≡ some r) × Passes r

passed-IsPassed : (t : Test) → test_user_state t ≡ TestUserState.passed → IsPassed t
unfolding test_user_state total
passed-IsPassed t h = ground arith

IsPassed-passed : (t : Test) → IsPassed t → test_user_state t ≡ TestUserState.passed
unfolding test_user_state total
IsPassed-passed t h = ground arith

-- A test is seen as passed exactly when its deletion was not requested, no resource error is
-- registered, its agent is done, and its last results passed by their outcome or, with neither a
-- failure nor a timeout as the outcome, by counts of which some are positive and none is a failure.
test_user_state-IsPassed : (t : Test) → (test_user_state t ≡ TestUserState.passed) ↔ IsPassed t
test_user_state-IsPassed t = (passed-IsPassed t, IsPassed-passed t)
