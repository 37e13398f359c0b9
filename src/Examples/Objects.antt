-- ===== src/Examples/Objects.antt =====
-- The theorems on the objects, at concrete objects.
use bottlerocket_test_system.Base.{◌≡◌, refl, none, some, [], ◌∷◌, contains, map}
use bottlerocket_test_system.Model.Agent.{TaskState}
use bottlerocket_test_system.Model.Meta.{is_delete_requested}
use bottlerocket_test_system.Model.Test.{
  Test, Outcome, TestUserState, default_test_status, default_agent_status, default_test_results,
  test_user_state, agent_status, resource_error_of,
}
use bottlerocket_test_system.Controller.Job.Builder.{JobBuilder, JobType, build}
use bottlerocket_test_system.Controller.Job.Secrets.{
  pod_secrets, pod_paths, secret_path, names_secret, pod_volumes, pod_mounts, build-secrets,
}
use bottlerocket_test_system.Examples.Server.{meta, agent}

-- an open outcome, and one test that passed
abbrev open_test : Test
open_test = record {
  metadata = meta "t" none none;
  spec = record { resources = []; depends_on = none; agent = agent none; retries = none };
  status = some (record default_test_status {
    agent = record default_agent_status {
      task_state = TaskState.completed;
      results = record default_test_results { outcome = Outcome.in_progress; num_passed = 1 } ∷ [];
    };
  });
}

is_passed : test_user_state open_test ≡ TestUserState.passed
unfolding test_user_state agent_status resource_error_of is_delete_requested
is_passed = refl

-- an agent with two secrets, of which it names one twice
abbrev builder : JobBuilder
builder = record {
  agent = record (agent none) {
    secrets = some (("aws", "keys") ∷ ("ssh", "login") ∷ ("tls", "keys") ∷ []);
  };
  job_name = "job";
  job_type = JobType.test_agent;
  environment_variables = [];
}

build-secrets_example :
    (contains (pod_volumes (build builder)) "keys"
      ≡ names_secret "keys" (("aws", "keys") ∷ ("ssh", "login") ∷ ("tls", "keys") ∷ []))
    × (pod_secrets (build builder) ≡ map some (pod_volumes (build builder)))
    × (pod_mounts (build builder) ≡ pod_volumes (build builder) ∷ [])
    × (pod_paths (build builder) ≡ map secret_path (pod_volumes (build builder)) ∷ [])
build-secrets_example = build-secrets builder "keys"

volumes_once : pod_volumes (build builder) ≡ "keys" ∷ "login" ∷ []
unfolding build
volumes_once = refl
