-- ===== src/Examples/Manager.antt =====
-- The theorems on the test manager at concrete objects. The sort gives the objects in the order in
-- which they were put in, one in each wave.
mod Visits
mod Objects
use bottlerocket_test_system.Base.{
  In, ℕ, ◌+◌, ◌≤◌, ◌<◌, String, Bool, true, false, Option, none, some, List, [], ◌∷◌, ◌++◌, length,
  is_empty, ◌≡◌, ◌≢◌, ◌⊎◌, inl, inr, refl, arith,
}
use bottlerocket_test_system.Base.Result.{Result, ok, err}
use bottlerocket_test_system.Base.Exec.{◌>>=◌, pure, read}
use bottlerocket_test_system.Model.Agent.{TaskState}
use bottlerocket_test_system.Model.Crd.{Crd, CrdName}
use bottlerocket_test_system.Model.Resource.{
  Resource, DestructionPolicy, default_resource_status, creation_task_state, destruction_task_state,
}
use bottlerocket_test_system.Model.Test.{Test, default_test_status}
use bottlerocket_test_system.Kube.{KubeError}
use bottlerocket_test_system.Clients.HttpStatusCode.{allow_not_found, is_status_code}
use bottlerocket_test_system.Clients.CrdClient.{get, delete}
use bottlerocket_test_system.Manager.{TestManager, Error}
use bottlerocket_test_system.Manager.Dependencies.{
  needs, push_all, existing, visit, add_dependencies_to_vec,
}
use bottlerocket_test_system.Manager.Dependencies.Closed.{
  total, HasNeeds, add_dependencies_to_vec-HasNeeds,
}
use bottlerocket_test_system.Manager.Dependencies.Ends.{
  Falls, IsCyclic, add_dependencies_to_vec-returns, add_dependencies_to_vec-cyclic,
}
use bottlerocket_test_system.Manager.Deletion.{
  DeleteEvent, starting, TopologicalSort, Channel, Progress, send, poll, report, poll_all, remove,
  remove_all, next_wave, after_polls, round,
}
use bottlerocket_test_system.Manager.Deletion.Waves.{IsRound, round-IsRound}
use bottlerocket_test_system.Manager.Selection.Classes.{
  TestClasses, ResourceClasses, filter_by_state-Classes,
}
use bottlerocket_test_system.Manager.Status.{snapshot}
use bottlerocket_test_system.Manager.Status.Verdict.{Verdict, snapshot-Verdict}
use bottlerocket_test_system.Examples.Server.{Server, cluster, meta, agent}

abbrev pub manager : TestManager Server
manager = record {
  resource_client = cluster.resource_client;
  test_client = cluster.test_client;
  list_tests = λ p w. ok w.tests;
  list_resources = λ p w. ok w.resources;
  list_pods = λ label w. ok [];
  sleep = λ time w. record { resources = []; tests = []; jobs = [] };
  listening = λ w. true;
}

abbrev pub resource : String → List String → Resource
resource name depends_on = record {
  metadata = meta name none none;
  spec = record {
    depends_on = some depends_on;
    conflicts_with = none;
    agent = agent none;
    destruction_policy = DestructionPolicy.on_deletion;
  };
  status = some default_resource_status;
}

abbrev pub world : List Resource → Server
world rs = record { resources = rs; tests = []; jobs = [] }

-- a queue of names
abbrev queue : TopologicalSort (List CrdName)
queue = record {
  new = [];
  insert = λ n order. order ++ n ∷ [];
  add_dependency = λ n d order. order;
  is_empty = λ order. is_empty order;
  pop_all = λ order. elim order [ [] ↦ ([], []) | n ∷ ns ↦ (n ∷ [], ns) ];
}

abbrev awaits : Progress (List CrdName)
awaits = record { awaiting = CrdName.resource "a" ∷ []; order = CrdName.resource "b" ∷ [] }

abbrev channel : Channel Server
channel = record { world = world (resource "a" [] ∷ []); events = [] }

stays : (round manager queue awaits channel).0 ≡ ok (some awaits)
unfolding round ◌>>=◌ pure read get allow_not_found destruction_task_state
stays = refl

round-IsRound_example :
    IsRound manager queue awaits channel (some awaits) (round manager queue awaits channel).1
round-IsRound_example = round-IsRound manager queue awaits channel stays

abbrev chain : Server
chain = world (resource "a" ("b" ∷ []) ∷ resource "b" [] ∷ [])

abbrev closed : List Crd
closed = Crd.resource (resource "a" ("b" ∷ [])) ∷ Crd.resource (resource "b" []) ∷ []

adds :
    add_dependencies_to_vec manager chain 2 (Crd.resource (resource "a" ("b" ∷ [])) ∷ [])
    ≡ some (ok closed)
unfolding add_dependencies_to_vec get allow_not_found is_status_code
adds = refl

add_dependencies_to_vec-HasNeeds_example :
    ((x : Crd) → In x (Crd.resource (resource "a" ("b" ∷ [])) ∷ []) → In x closed)
    × ((x : Crd) → In x closed → HasNeeds manager chain x closed)
add_dependencies_to_vec-HasNeeds_example =
    add_dependencies_to_vec-HasNeeds manager chain 2 (Crd.resource (resource "a" ("b" ∷ [])) ∷ [])
      adds

filter_by_state-Classes_example :
    TestClasses (record {
      metadata = meta "t" none none;
      spec = record { resources = []; depends_on = none; retries = none; agent = agent none };
      status = some default_test_status;
    })
    × ResourceClasses (resource "a" [])
filter_by_state-Classes_example =
    filter_by_state-Classes
      (record {
        metadata = meta "t" none none;
        spec = record { resources = []; depends_on = none; retries = none; agent = agent none };
        status = some default_test_status;
      })
      (resource "a" [])

snapshot-Verdict_example : Verdict (snapshot closed) closed
snapshot-Verdict_example = snapshot-Verdict closed
