-- ===== src/Clients/Error.antt =====
-- model/src/clients/error.rs: the errors of the clients.
use bottlerocket_test_system.Base.{ℕ, String, Option, none}
use bottlerocket_test_system.Kube.{KubeError}
use bottlerocket_test_system.Clients.HttpStatusCode.{HttpStatusCode, kube_error_status}

-- `InnerError`. An error of another crate is its message.
pub data ClientError : Type 0 where
  config_serde : String → ClientError
  config_resolution : String → ClientError
  serde : String → String → ClientError
  initialization : KubeError → ClientError
  kube_api_call : (method what : String) (source : KubeError) → ClientError
  kube_api_call_for : (operation name : String) (source : KubeError) → ClientError
  duplicate_finalizer : String → ClientError
  delete_missing_finalizer : String → ClientError
  delete_fail : String → ClientError

abbrev client_status_code : ClientError → Option ℕ
client_status_code (kube_api_call method what source) = kube_error_status.status_code source
client_status_code (kube_api_call_for operation name source) = kube_error_status.status_code source
client_status_code _ = none

instance abbrev pub client_error_status : HttpStatusCode ClientError
client_error_status = record { status_code = client_status_code }
