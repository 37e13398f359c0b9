-- ===== src/Model/Test.antt =====
-- model/src/test.rs: the test objects and the queries on them.
pub mod UserState
use bottlerocket_test_system.Base.{
  ℕ, ◌+◌, ◌%◌, ◌^◌, String, Bool, true, false, not, ◌&&◌, Option, none, some, List, [], get_last?,
  is_some, ◌==◌, if◌then◌else◌,
}
use bottlerocket_test_system.Model.Agent.{Agent, TaskState, default_task_state, task_state_eq}
use bottlerocket_test_system.Model.Constants.{finalizer_main}
use bottlerocket_test_system.Model.Meta.{ObjectMeta, has_finalizer, is_delete_requested}

pub data Outcome : Type 0 where
  pass fail timeout unknown in_progress : Outcome

-- `==` with `Outcome::Pass`
abbrev pub is_pass : Outcome → Bool
is_pass pass = true
is_pass _ = false

-- the counts are `u64`
pub record TestResults : Type 0 where
  pub outcome : Outcome
  pub num_passed : ℕ
  pub num_failed : ℕ
  pub num_skipped : ℕ
  pub other_info : Option String

pub record AgentStatus : Type 0 where
  pub task_state : TaskState
  pub error : Option String
  pub results : List TestResults
  pub current_test : Option TestResults

pub record ControllerStatus : Type 0 where
  pub resource_error : Option String

pub record TestStatus : Type 0 where
  pub controller : ControllerStatus
  pub agent : AgentStatus
  pub last_update : Option String

pub record TestSpec : Type 0 where
  pub resources : List String
  pub depends_on : Option (List String)
  pub agent : Agent
  pub retries : Option ℕ

pub record Test : Type 0 where
  pub metadata : ObjectMeta
  pub spec : TestSpec
  pub status : Option TestStatus

pub data TestUserState : Type 0 where
  unknown waiting running no_tests passed failed error resource_error deleting : TestUserState

-- the defaults that the derived `Default` gives
abbrev pub default_test_results : TestResults
default_test_results = record {
  outcome = Outcome.unknown;
  num_passed = 0;
  num_failed = 0;
  num_skipped = 0;
  other_info = none;
}

abbrev pub default_agent_status : AgentStatus
default_agent_status = record {
  task_state = default_task_state;
  error = none;
  results = [];
  current_test = none;
}

abbrev pub default_test_status : TestStatus
default_test_status = record {
  controller = record { resource_error = none };
  agent = default_agent_status;
  last_update = none;
}

-- A sum of `u64` wraps in a release build.
pub total : TestResults → ℕ
total r = (r.num_passed + r.num_failed + r.num_skipped) % 2 ^ 64

unfoldable pub agent_status : Test → AgentStatus
agent_status t = elim t.status [ none ↦ default_agent_status | some s ↦ s.agent ]

unfoldable pub agent_error : Test → Option String
agent_error t = elim t.status [ none ↦ none | some s ↦ s.agent.error ]

unfoldable pub resource_error_of : Test → Option String
resource_error_of t = elim t.status [ none ↦ none | some s ↦ s.controller.resource_error ]

-- the state of a completed test by its last results
outcome_state : Outcome → TestResults → TestUserState
unfolding total
outcome_state pass r = passed
outcome_state fail r = failed
outcome_state timeout r = failed
outcome_state _ r = if total r == 0 then no_tests else if r.num_failed == 0 then passed else failed

completed_state : Option TestResults → TestUserState
unfolding outcome_state
completed_state none = no_tests
completed_state (some r) = outcome_state r.outcome r

-- the match on the agent's task state
task_user_state : TaskState → Test → TestUserState
unfolding completed_state agent_status
task_user_state TaskState.unknown t =
    if has_finalizer t.metadata finalizer_main then waiting else unknown
task_user_state TaskState.running t = running
task_user_state TaskState.completed t = completed_state (get_last? (agent_status t).results)
task_user_state TaskState.error t = error

unfoldable pub test_user_state : Test → TestUserState
unfolding task_user_state agent_status resource_error_of is_delete_requested
test_user_state t =
    if is_delete_requested t.metadata
      && not (task_state_eq (agent_status t).task_state TaskState.unknown)
    then deleting
    else if is_some (resource_error_of t)
    then resource_error
    else task_user_state (agent_status t).task_state t
