-- ===== src/Kube.antt =====
-- The Kubernetes API as the program sees it through the crates `kube` and `k8s_openapi`: errors,
-- patches and the calls of an `Api`. The server is not part of the repository. Its calls are fields
-- that the model's functions take.
use bottlerocket_test_system.Base.{ℕ, String, Bool, Option, List}
use bottlerocket_test_system.Base.Result.{Result}
use bottlerocket_test_system.Base.Exec.{Exec}
use bottlerocket_test_system.Model.Json.{Fields}
use bottlerocket_test_system.Model.Agent.{TaskState}
use bottlerocket_test_system.Model.Resource.{ResourceError, ResourceStatus}
use bottlerocket_test_system.Model.Test.{TestResults, TestStatus}

-- `kube::Error`: an answer of the server with its status code, or any other failure.
pub data KubeError : Type 0 where
  api : ℕ → KubeError
  other : String → KubeError

-- A token of a JSON pointer; a path is the list of its tokens.
pub data Token : Type 0 where
  key : String → Token
  index : ℕ → Token
  past_end : Token

-- The values that the program puts into patches, before `serde_json` serialises them.
pub data Payload : Type 0 where
  null : Payload
  flag : Bool → Payload
  timestamp : String → Payload
  text : String → Payload
  texts : Option (List String) → Payload
  map : Fields → Payload
  task_state : TaskState → Payload
  test_results : TestResults → Payload
  resource_error : ResourceError → Payload
  resource_status : ResourceStatus → Payload
  test_status : TestStatus → Payload

-- `json_patch::PatchOperation`
pub data PatchOperation : Type 0 where
  add replace test : List Token → Payload → PatchOperation
  remove : List Token → PatchOperation

-- `kube::Api<C>` in a world `W` that holds the server. Reads leave the world as it is.
pub record Api (W C : Type 0) : Type 0 where
  pub get : String → W → Result KubeError C
  pub list : W → Result KubeError (List C)
  pub create : C → Exec W KubeError C
  pub delete : String → Exec W KubeError (Option C)
  pub patch : String → List PatchOperation → Exec W KubeError C
  pub patch_status : String → List PatchOperation → Exec W KubeError C
