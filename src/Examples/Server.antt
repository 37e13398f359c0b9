-- ===== src/Examples/Server.antt =====
-- A server in memory. It answers reads by the objects' names and takes every write without
-- an effect. It stands in for the Kubernetes API.
use bottlerocket_test_system.Base.{
  String, true, false, Option, none, some, List, [], ◌∷◌, str_eq, if◌then◌else◌,
}
use bottlerocket_test_system.Base.Result.{Result, ok, err}
use bottlerocket_test_system.Model.Meta.{ObjectMeta}
use bottlerocket_test_system.Model.Agent.{Agent}
use bottlerocket_test_system.Model.Resource.{Resource, default_resource_status}
use bottlerocket_test_system.Model.Test.{Test, default_test_status}
use bottlerocket_test_system.Kube.{KubeError, Api, Payload}
use bottlerocket_test_system.Controller.Job.{LogArchive}
use bottlerocket_test_system.Controller.Job.Builder.{Job}
use bottlerocket_test_system.Controller.Cluster.{Cluster, name_any}

pub record Server : Type 0 where
  pub resources : List Resource
  pub tests : List Test
  pub jobs : List Job

abbrev pub find : {C : Type 0} → (C → String) → String → List C → Option C
find name n [] = none
find name n (x ∷ xs) = if str_eq (name x) n then some x else find name n xs

abbrev pub answer : {C : Type 0} → Option C → Result KubeError C
answer none = err (KubeError.api 404)
answer (some x) = ok x

-- calls that change nothing
abbrev pub read_only : {C : Type 0} → (C → String) → (Server → List C) → Api Server C
read_only name items = record {
  get = λ n w. answer (find name n (items w));
  list = λ w. ok (items w);
  create = λ x w. (ok x, w);
  delete = λ n w. (ok none, w);
  patch = λ n ops w. (answer (find name n (items w)), w);
  patch_status = λ n ops w. (answer (find name n (items w)), w);
}

abbrev pub job_name : Job → String
job_name j = elim j.name [ none ↦ "" | some n ↦ n ]

-- a log service whose group exists already
abbrev pub busy_archive : LogArchive Server
busy_archive = record {
  archive_logs_var = λ w. some "true";
  create_log_group = λ w. (err (true, "exists"), w);
  pod_names = λ job w. ok ("pod" ∷ []);
  logs = λ pod w. ok "log";
  unix_time = λ w. ok 0;
  stream_name = λ job time. job;
  create_log_stream = λ n w. (ok tt, w);
  put_log_events = λ n text w. (ok tt, w);
}

abbrev pub cluster : Cluster Server
cluster = record {
  resource_client = record {
    kind = "resource";
    object_meta = λ r. r.metadata;
    default_status = Payload.resource_status default_resource_status;
    api = read_only (λ r. name_any r.metadata) (λ w. w.resources);
    now = λ w. "2022-01-01T00:00:00Z";
  };
  test_client = record {
    kind = "test";
    object_meta = λ t. t.metadata;
    default_status = Payload.test_status default_test_status;
    api = read_only (λ t. name_any t.metadata) (λ w. w.tests);
    now = λ w. "2022-01-01T00:00:00Z";
  };
  jobs = read_only job_name (λ w. w.jobs);
  archive = busy_archive;
  now = λ w. 100_000_000_000;
}

-- objects
abbrev pub meta : String → Option (List String) → Option String → ObjectMeta
meta name finalizers deletion = record {
  name = some name;
  namespace = some "testsys";
  uid = some "0123";
  labels = none;
  finalizers = finalizers;
  deletion_timestamp = deletion;
  resource_version = none;
}

abbrev pub agent : Option String → Agent
agent timeout = record {
  name = "agent";
  image = "image";
  pull_secret = none;
  keep_running = false;
  timeout = timeout;
  configuration = none;
  secrets = none;
  capabilities = none;
  privileged = none;
}
