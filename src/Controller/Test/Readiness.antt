-- ===== src/Controller/Test/Readiness.antt =====
-- controller/src/test_controller/action.rs: what a test waits for before its agent starts.
use Prim.Native.String.{String, ◌++◌}
use bottlerocket_test_system.Base.{
  ℕ, zero, suc, Bool, not, Option, none, some, List, [], ◌∷◌, get_last?, ◌==◌, ◌+◌, if◌then◌else◌,
}
use bottlerocket_test_system.Base.Result.{Result, ok, err}
use bottlerocket_test_system.Model.Agent.{TaskState}
use bottlerocket_test_system.Model.Resource.{
  Resource, ResourceError, creation_error, creation_task_state,
}
use bottlerocket_test_system.Model.Test.{Test, TestResults, is_pass, agent_status}
use bottlerocket_test_system.Kube.{KubeError}
use bottlerocket_test_system.Clients.HttpStatusCode.{
  kube_error_status, result_is_status_code, not_found,
}
use bottlerocket_test_system.Clients.CrdClient.{get}
use bottlerocket_test_system.Controller.Error.{Error, kube, context}
use bottlerocket_test_system.Controller.Cluster.{Cluster, name_any, quote}

pub data Resources : Type 0 where
  not_ready ready : Resources
  error : String → Resources

abbrev pub max_retries : ℕ
max_retries = 3

-- The loop over `retry_attempt`, whose first argument bounds the rounds. It answers whether the
-- attempts ran out.
unfoldable pub attempts_run_out : ℕ → ℕ → Result KubeError Resource → Bool
attempts_run_out zero attempt result = Bool.false
attempts_run_out (suc rounds) attempt result =
    let again = attempts_run_out rounds (attempt + 1) result in
    if attempt == max_retries
    then Bool.true
    else if result_is_status_code result not_found
    then again
    else Bool.false

-- what the creation task of a resource says, `none` if the loop goes on
created_by : String → TaskState → Option Resources
created_by n TaskState.unknown = some not_ready
created_by n TaskState.running = some not_ready
created_by n TaskState.completed = none
created_by n TaskState.error = some (error (quote "Creation of resource " n " failed"))

-- the message of a recorded error, or else the state of the task
resource_state : String → Resource → Option Resources
unfolding created_by
resource_state n r = elim (creation_error r) [
  | none ↦ created_by n (creation_task_state r)
  | some e ↦ some (error (quote "Error creating resource " n (": " ++ ResourceError.error e)))
]

-- one round of the loop over the names
unfoldable pub readiness_of : String → Result KubeError Resource → Result Error (Option Resources)
unfolding attempts_run_out resource_state
readiness_of n result =
    if attempts_run_out max_retries 1 result
    then ok (some (error (quote "Resource " n " not found")))
    else elim result [
      | ok r ↦ ok (resource_state n r)
      | err e ↦ err (context (quote "Unable to get resource " n "") (kube e))
    ]

-- a test whose last results did not pass, or which has none
not_passed : Test → Bool
unfolding agent_status
not_passed t = elim (get_last? (agent_status t).results) [
  | none ↦ Bool.true
  | some r ↦ not (is_pass (TestResults.outcome r))
]

module _ {W : Type 0} (k : Cluster W) (w : W) where
  unfoldable pub resource_readiness : List String → Result Error Resources
  unfolding readiness_of
  resource_readiness [] = ok ready
  resource_readiness (n ∷ ns) =
      let others = resource_readiness ns in
      elim (readiness_of n (k.resource_client.api.get n w)) [
        | err e ↦ err e
        | ok none ↦ others
        | ok (some s) ↦ ok s
      ]

  -- the first test that has not passed, by the name that the code reports
  unfoldable pub first_not_passed : List String → Option String
  unfolding not_passed
  first_not_passed [] = none
  first_not_passed (needed ∷ rest) =
      let others = first_not_passed rest in
      elim (get k.test_client needed w) [
        | err e ↦ some needed
        | ok t ↦ if not_passed t then some (name_any t.metadata) else others
      ]

  unfoldable pub dependency_wait_action : Test → Option String
  unfolding first_not_passed
  dependency_wait_action t = elim t.spec.depends_on [ none ↦ none | some ds ↦ first_not_passed ds ]
