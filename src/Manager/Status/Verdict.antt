-- ===== src/Manager/Status/Verdict.antt =====
-- What the status says of a list of objects.
use bottlerocket_test_system.Base.{String, true, ◌≡◌, ◌⊎◌, ◌↔◌, List, [], ◌∷◌, ◌++◌, All, arith}
use mathlib.Core.List.{append_assoc, append-nil}
use bottlerocket_test_system.Model.Agent.{TaskState}
use bottlerocket_test_system.Model.Crd.{Crd}
use bottlerocket_test_system.Model.Meta.{name_any}
use bottlerocket_test_system.Model.Resource.{creation_task_state, destruction_task_state}
use bottlerocket_test_system.Model.Test.{agent_status}
use bottlerocket_test_system.Manager.Status.{Summary, count_crd, summarize, snapshot}

-- a task that goes on no more
abbrev IsOver : TaskState → Type 0
IsOver s = (s ≡ TaskState.completed) ⊎ (s ≡ TaskState.error)

-- A test is finished when its task is over; a resource, when it was created, or when its creation
-- failed and its destruction is over.
abbrev IsFinished : Crd → Type 0
IsFinished (Crd.test t) = IsOver (agent_status t).task_state
IsFinished (Crd.resource r) =
    (creation_task_state r ≡ TaskState.completed)
    ⊎ ((creation_task_state r ≡ TaskState.error) × IsOver (destruction_task_state r))

-- An object whose task is done without an error, whatever the results.
abbrev pub IsCompleted : Crd → Type 0
IsCompleted (Crd.test t) = (agent_status t).task_state ≡ TaskState.completed
IsCompleted (Crd.resource r) = creation_task_state r ≡ TaskState.completed

abbrev failed_name : TaskState → String → List String
failed_name TaskState.error n = n ∷ []
failed_name _ n = []

abbrev failed_of : Crd → List String
failed_of (Crd.test t) = failed_name (agent_status t).task_state (name_any t.metadata)
failed_of (Crd.resource r) = []

-- the names of the tests whose task ended with an error, in order
abbrev pub failures : List Crd → List String
failures [] = []
failures (c ∷ cs) = failed_of c ++ failures cs

-- The summary of a list.
pub record Verdict (s : Summary) (crds : List Crd) : Type 0 where
  pub finished : (s.finished ≡ true) ↔ All IsFinished crds
  pub passed : (s.passed ≡ true) ↔ All IsCompleted crds
  pub failed_tests : s.failed_tests ≡ failures crds

module _ (s : Summary) where
  count-finished :
      (c : Crd) → ((count_crd s c).finished ≡ true) ↔ ((s.finished ≡ true) × IsFinished c)
  unfolding count_crd
  count-finished c = ground arith

  count-passed : (c : Crd) → ((count_crd s c).passed ≡ true) ↔ ((s.passed ≡ true) × IsCompleted c)
  unfolding count_crd
  count-passed c = ground arith

  count-failed : (c : Crd) → (count_crd s c).failed_tests ≡ s.failed_tests ++ failed_of c
  unfolding count_crd
  count-failed c = ground (arith, append-nil s.failed_tests)

summarize-finished :
    (s : Summary) (cs : List Crd)
    → ((summarize s cs).finished ≡ true) ↔ ((s.finished ≡ true) × All IsFinished cs)
unfolding summarize
summarize-finished s [] = ground arith
summarize-finished s (c ∷ cs) =
    ground (arith, summarize-finished (count_crd s c) cs, count-finished s c)

summarize-passed :
    (s : Summary) (cs : List Crd)
    → ((summarize s cs).passed ≡ true) ↔ ((s.passed ≡ true) × All IsCompleted cs)
unfolding summarize
summarize-passed s [] = ground arith
summarize-passed s (c ∷ cs) = ground (arith, summarize-passed (count_crd s c) cs, count-passed s c)

summarize-failed :
    (s : Summary) (cs : List Crd) → (summarize s cs).failed_tests ≡ s.failed_tests ++ failures cs
unfolding summarize
summarize-failed s [] = ground (arith, append-nil s.failed_tests)
summarize-failed s (c ∷ cs) = ground (
  arith,
  summarize-failed (count_crd s c) cs,
  count-failed s c,
  append_assoc s.failed_tests (failed_of c) (failures cs),
)

-- The status of a list of objects says that they are finished exactly when each is: a test by its
-- task, a resource when it was created, or when its creation failed and its destruction is over. It
-- says that they passed exactly when the task of each test and the creation of each resource is
-- completed. The failed tests are those whose task ended with an error, in order.
pub snapshot-Verdict : (crds : List Crd) → Verdict (snapshot crds) crds
unfolding snapshot
snapshot-Verdict crds =
    let start : Summary = record { finished = true; passed = true; failed_tests = [] } in
    record {
      finished = ground (arith, summarize-finished start crds);
      passed = ground (arith, summarize-passed start crds);
      failed_tests = summarize-failed start crds;
    }
