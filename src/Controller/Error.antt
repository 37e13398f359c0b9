-- ===== src/Controller/Error.antt =====
-- controller/src/error.rs and controller/src/job/error.rs: the errors of the controller.
use bottlerocket_test_system.Base.{ℕ, String, if◌then◌else◌}
use bottlerocket_test_system.Kube.{KubeError}
use bottlerocket_test_system.Clients.HttpStatusCode.{
  kube_error_status, is_status_code, not_found, conflict,
}
use bottlerocket_test_system.Clients.Error.{ClientError}

-- The source of a cloud or clock error is its message. A count is the bit pattern of an `i32`.
pub data JobError : Type 0 where
  already_exists create delete get missing : KubeError → JobError
  create_log_event : String → JobError
  create_log_group : (log_group message : String) → JobError
  create_log_stream : String → JobError
  no_logs : String → KubeError → JobError
  no_pods : String → JobError
  system_time : JobError
  too_many_job_containers : (job_name : String) (running succeeded failed : ℕ) → JobError

unfoldable pub create_error : KubeError → JobError
create_error e = if is_status_code e conflict then already_exists e else create e

unfoldable pub delete_error : KubeError → JobError
delete_error e = if is_status_code e not_found then missing e else delete e

unfoldable pub get_error : KubeError → JobError
get_error e = if is_status_code e not_found then missing e else get e

-- `anyhow::Error`: an error of a part, with the contexts that were put around it
pub data Error : Type 0 where
  client : ClientError → Error
  job : JobError → Error
  kube : KubeError → Error
  message : String → Error
  context : String → Error → Error
