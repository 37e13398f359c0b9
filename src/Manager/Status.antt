-- ===== src/Manager/Status.antt =====
-- model/src/test_manager/status.rs: the status of a list of objects.
pub mod Verdict
pub mod Table
use bottlerocket_test_system.Base.{String, Bool, true, false, List, [], ◌∷◌, ◌++◌}
use bottlerocket_test_system.Model.Agent.{TaskState}
use bottlerocket_test_system.Model.Crd.{Crd}
use bottlerocket_test_system.Model.Meta.{name_any}
use bottlerocket_test_system.Model.Resource.{creation_task_state, destruction_task_state}
use bottlerocket_test_system.Model.Test.{agent_status}

-- what `StatusSnapshot::new` computes: the fields but the objects and the columns
pub record Summary : Type 0 where
  pub finished : Bool
  pub passed : Bool
  pub failed_tests : List String

-- the match on the task state of a test
count_test : Summary → String → TaskState → Summary
count_test s n TaskState.unknown = record s { passed = false; finished = false }
count_test s n TaskState.running = record s { passed = false; finished = false }
count_test s n TaskState.error = record s {
  passed = false;
  failed_tests = s.failed_tests ++ n ∷ [];
}
count_test s n TaskState.completed = s

-- the second match, on the destruction
count_destruction : Summary → TaskState → Summary
count_destruction s TaskState.unknown = record s { finished = false }
count_destruction s TaskState.running = record s { finished = false }
count_destruction s TaskState.completed = s
count_destruction s TaskState.error = s

-- A completed creation goes on to the next object, so its destruction is not read.
count_resource : Summary → TaskState → TaskState → Summary
unfolding count_destruction
count_resource s TaskState.unknown d =
    count_destruction (record s { passed = false; finished = false }) d
count_resource s TaskState.running d =
    count_destruction (record s { passed = false; finished = false }) d
count_resource s TaskState.error d = count_destruction (record s { passed = false }) d
count_resource s TaskState.completed d = s

pub count_crd : Summary → Crd → Summary
unfolding count_test count_resource
count_crd s (Crd.test t) = count_test s (name_any t.metadata) (agent_status t).task_state
count_crd s (Crd.resource r) = count_resource s (creation_task_state r) (destruction_task_state r)

-- the loop over the objects
pub summarize : Summary → List Crd → Summary
unfolding count_crd
summarize s [] = s
summarize s (c ∷ cs) = summarize (count_crd s c) cs

pub snapshot : List Crd → Summary
unfolding summarize
snapshot crds = summarize (record { finished = true; passed = true; failed_tests = [] }) crds
