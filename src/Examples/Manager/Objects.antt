-- ===== src/Examples/Manager/Objects.antt =====
-- The theorems on the objects that the manager creates, restarts and looks up.
use bottlerocket_test_system.Base.{
  ℕ, ◌+◌, ◌<◌, String, none, some, List, [], ◌∷◌, str_eq, eq_iff, if◌then◌else◌, ◌≡◌, ◌≢◌, ◌⊎◌,
  refl, arith,
}
use bottlerocket_test_system.Base.Result.{ok, err}
use bottlerocket_test_system.Base.Exec.{◌>>=◌, context, read, pure}
use bottlerocket_test_system.Model.Crd.{Crd, CrdName}
use bottlerocket_test_system.Model.Resource.JobName.{creation, destruction, job_name}
use bottlerocket_test_system.Model.Test.{default_test_status}
use bottlerocket_test_system.Kube.{KubeError}
use bottlerocket_test_system.Clients.HttpStatusCode.{is_status_code}
use bottlerocket_test_system.Clients.CrdClient.{get, create, delete}
use bottlerocket_test_system.Clients.Waiting.{wait_for_deletion}
use bottlerocket_test_system.Manager.{TestManager}
use bottlerocket_test_system.Manager.Install.{
  ObjectApi, max_retries, create_or_update_internal, create_or_update,
}
use bottlerocket_test_system.Manager.Install.Retries.{before, Fail, create_or_update-Attempts}
use bottlerocket_test_system.Manager.Objects.{restart_test}
use bottlerocket_test_system.Manager.Objects.Restarted.{Restarted, restart_test-Restarted}
use bottlerocket_test_system.Manager.Pods.{job_label, get_pods}
use bottlerocket_test_system.Manager.Pods.Labels.{get_pods-misses}
use bottlerocket_test_system.Manager.Status.Table.{Display}
use bottlerocket_test_system.Examples.Server.{Server, meta, agent}
use bottlerocket_test_system.Examples.Manager.{manager, resource}

abbrev world : Server
world = record {
  resources = [];
  tests =
      record {
        metadata = meta "t" none none;
        spec = record { resources = []; depends_on = none; retries = none; agent = agent none };
        status = some default_test_status;
      }
      ∷ [];
  jobs = [];
}

restarts : (restart_test manager 2 "t" world).0 ≡ ok (some tt)
unfolding restart_test ◌>>=◌ context read get create delete wait_for_deletion is_status_code pure
restarts = refl

restart_test-Restarted_example : Restarted manager "t" world (restart_test manager 2 "t" world).1
restart_test-Restarted_example = restart_test-Restarted manager "t" 2 world restarts

-- A server that refuses to create. Its world is the number of writes.
abbrev api : ObjectApi ℕ String
api = record {
  name_any = λ d. d;
  get = λ name w. err (KubeError.api 404);
  merge = λ name d w. (ok d, w + 1);
  create = λ d w. (err (KubeError.other "busy"), w + 1);
  delete = λ name w. (ok tt, w);
}

create_or_update-Attempts_example :
    ((k : ℕ) × (k < max_retries)
      × Fail api (λ t w. w) "n" "namespace" k 0
      × (create_or_update_internal api
            (λ t w. w)
            "n"
            "namespace"
            (before api (λ t w. w) "n" "namespace" k 0)
          ≡ create_or_update api (λ t w. w) "n" "namespace" 0)
      × ((create_or_update api (λ t w. w) "n" "namespace" 0).0 ≡ ok tt))
    ⊎ (Fail api (λ t w. w) "n" "namespace" max_retries 0
        × (create_or_update api (λ t w. w) "n" "namespace" 0 ≡ (
          (create_or_update_internal api
              (λ t w. w)
              "n"
              "namespace"
              (before api (λ t w. w) "n" "namespace" 2 0)).0,
          before api (λ t w. w) "n" "namespace" max_retries 0,
        )))
create_or_update-Attempts_example = create_or_update-Attempts api (λ t w. w) "n" "namespace" 0

-- a cluster with one pod, that of the creation job of the resource `a`
abbrev labelled : TestManager Server
labelled = record {
  resource_client = manager.resource_client;
  test_client = manager.test_client;
  list_tests = manager.list_tests;
  list_resources = manager.list_resources;
  list_pods = λ label w. ok (
      if str_eq label (job_label (job_name (meta "a" none none) creation))
      then meta "pod" none none ∷ []
      else []);
  sleep = manager.sleep;
  listening = manager.listening;
}

only_its_job :
    (label : String)
    → label ≢ job_label (job_name (meta "a" none none) creation)
    → label ≢ job_label (job_name (meta "a" none none) destruction)
    → labelled.list_pods label world ≡ ok []
only_its_job label no_creation no_destruction =
    ground (arith, eq_iff label (job_label (job_name (meta "a" none none) creation)))

get_pods-misses_example : get_pods labelled world (CrdName.resource "a") ≡ ok []
get_pods-misses_example =
    get_pods-misses labelled (meta "a" none none) "a" world refl (omega arith) (omega arith)
      only_its_job

abbrev objects : List Crd
objects = Crd.resource (resource "a" []) ∷ Crd.resource (resource "b" []) ∷ []

abbrev shown : Display
shown = record { task_state = λ s. "state"; user_state = λ s. "state"; number = λ n. "1" }
