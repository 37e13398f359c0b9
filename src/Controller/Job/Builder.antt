-- ===== src/Controller/Job/Builder.antt =====
-- controller/src/job/job_builder.rs: the Kubernetes job that runs an agent. The records hold the
-- fields that the builder sets and those that the controller reads. All others have their defaults.
use Prim.Native.Nat.{Ordering}
use Prim.Native.String.{String, ◌++◌, compare}
use bottlerocket_test_system.Base.{
  ℕ, Bool, true, Option, none, some, List, [], ◌∷◌, map, is_empty, if◌then◌else◌,
}
use bottlerocket_test_system.Base.Exec.{Exec, context}
use bottlerocket_test_system.Model.Agent.{Agent}
use bottlerocket_test_system.Model.Constants
use bottlerocket_test_system.Kube.{Api}
use bottlerocket_test_system.Controller.Error.{JobError, create_error}

pub data JobType : Type 0 where
  test_agent resource_agent : JobType

pub record EnvVar : Type 0 where
  pub name : String
  pub value : Option String

pub record VolumeMount : Type 0 where
  pub mount_path : String
  pub name : String
  pub read_only : Option Bool

-- a volume with the name of its secret
pub record Volume : Type 0 where
  pub name : String
  pub secret_name : Option String

pub record SecurityContext : Type 0 where
  pub added_capabilities : Option (List String)
  pub privileged : Option Bool

pub record Container : Type 0 where
  pub name : String
  pub image : Option String
  pub env : Option (List EnvVar)
  pub volume_mounts : Option (List VolumeMount)
  pub security_context : Option SecurityContext

-- a job's specification, with its pod template's
pub record JobSpec : Type 0 where
  pub backoff_limit : Option ℕ
  pub containers : List Container
  pub restart_policy : Option String
  pub image_pull_secrets : Option (List String)
  pub service_account : Option String
  pub volumes : Option (List Volume)
  pub pod_labels : Option (List (String × String))

-- what the controller reads of a job's status: counts are bit patterns of `i32`, times are in
-- nanoseconds
pub record JobStatus : Type 0 where
  pub active : Option ℕ
  pub succeeded : Option ℕ
  pub failed : Option ℕ
  pub start_time : Option ℕ

pub record Job : Type 0 where
  pub name : Option String
  pub namespace : Option String
  pub labels : Option (List (String × String))
  pub spec : Option JobSpec
  pub status : Option JobStatus

pub record JobBuilder : Type 0 where
  pub agent : Agent
  pub job_name : String
  pub job_type : JobType
  pub environment_variables : List (String × String)

abbrev component : JobType → String
component test_agent = "testsys-test-agent"
component resource_agent = "testsys-resource-agent"

abbrev service_account : JobType → String
service_account test_agent = "testsys-test-agent-account"
service_account resource_agent = "testsys-resource-agent-account"

-- a `BTreeMap` in the order of its keys
create_labels : JobType → String → String → List (String × String)
create_labels job_type agent instance_name =
    ("app.kubernetes.io/component", component job_type)
    ∷ ("app.kubernetes.io/created-by", "controller")
    ∷ ("app.kubernetes.io/instance", agent)
    ∷ ("app.kubernetes.io/managed-by", "controller")
    ∷ ("app.kubernetes.io/name", instance_name)
    ∷ ("app.kubernetes.io/part-of", "testsys.system")
    ∷ []

abbrev env_var : String × String → EnvVar
env_var (name, value) = record { name = name; value = some value }

env_vars : List (String × String) → List EnvVar
env_vars = map env_var

-- A `BTreeSet<String>` is its items in their order, which is that of the bytes.
unfoldable pub insert_name : String → List String → List String
insert_name n [] = n ∷ []
insert_name n (x ∷ xs) =
    let later = insert_name n xs in
    elim (compare n x) [
      | Ordering.lt ↦ n ∷ (x ∷ xs)
      | Ordering.eq ↦ x ∷ xs
      | Ordering.gt ↦ x ∷ later
    ]

unfoldable pub names_of : List (String × String) → List String
unfolding insert_name
names_of [] = []
names_of ((t, n) ∷ rest) = insert_name n (names_of rest)

-- `Agent::secret_names` of model/src/agent.rs
unfoldable pub secret_names : Agent → List String
unfolding names_of
secret_names a = elim a.secrets [ none ↦ [] | some m ↦ names_of m ]

abbrev pub mount : String → VolumeMount
mount n = record { mount_path = "/secrets" ++ ("/" ++ n); name = n; read_only = some true }

abbrev pub volume : String → Volume
volume n = record { name = n; secret_name = some n }

unfoldable pub mounts : Agent → Option (List VolumeMount)
unfolding secret_names
mounts a = if is_empty (secret_names a) then none else some (map mount (secret_names a))

unfoldable pub volumes : Agent → Option (List Volume)
unfolding secret_names
volumes a = if is_empty (secret_names a) then none else some (map volume (secret_names a))

unfoldable pub build : JobBuilder → Job
unfolding env_vars create_labels mounts volumes
build b =
    let vars = env_vars b.environment_variables in
    let labels = create_labels b.job_type b.agent.name b.job_name in
    record {
      name = some b.job_name;
      namespace = some Constants.namespace;
      labels = some labels;
      spec = some (record {
        backoff_limit = some 0;
        containers =
            record {
              name = b.job_name;
              image = some b.agent.image;
              env = if is_empty vars then none else some vars;
              volume_mounts = mounts b.agent;
              security_context = some (record {
                added_capabilities = b.agent.capabilities;
                privileged = b.agent.privileged;
              });
            }
            ∷ [];
        restart_policy = some "Never";
        image_pull_secrets = elim b.agent.pull_secret [ none ↦ none | some s ↦ some (s ∷ []) ];
        service_account = some (service_account b.job_type);
        volumes = volumes b.agent;
        pod_labels = some labels;
      });
      status = none;
    }

unfoldable pub deploy : {W : Type 0} → Api W Job → JobBuilder → Exec W JobError Job
unfolding build create_error
deploy jobs b = context create_error (jobs.create (build b))
