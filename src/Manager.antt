-- ===== src/Manager.antt =====
-- model/src/test_manager/mod.rs and error.rs: what the test manager selects objects by, its errors,
-- and what it calls.
pub mod Selection
pub mod Status
pub mod Dependencies
pub mod Deletion
pub mod Pods
pub mod Objects
pub mod Install
use bottlerocket_test_system.Base.{ℕ, String, Bool, Option, List}
use bottlerocket_test_system.Base.Result.{Result}
use bottlerocket_test_system.Model.Meta.{ObjectMeta}
use bottlerocket_test_system.Model.Resource.{Resource}
use bottlerocket_test_system.Model.Test.{Test}
use bottlerocket_test_system.Kube.{KubeError}
use bottlerocket_test_system.Clients.Error.{ClientError}
use bottlerocket_test_system.Clients.CrdClient.{CrdClient}

pub data CrdType : Type 0 where
  test resource : CrdType

pub data CrdState : Type 0 where
  not_finished running completed passed failed : CrdState

-- `none` stands for all
pub record SelectionParams : Type 0 where
  pub crd_type : Option CrdType
  pub labels : Option String
  pub name : Option String
  pub state : Option CrdState

-- An image with the name of a pull secret, or without one.
data ImageConfig : Type 0 where
  with_creds : (image secret : String) → ImageConfig
  image : String → ImageConfig

-- Errors of other crates are kept as texts.
pub data Error : Type 0 where
  client : String → ClientError → Error
  client_create_kubeconfig config_read json_serialize sender : String → Error
  create kube : String → KubeError → Error
  delete_event resource_existing : Error
  file io serde_yaml : String → String → Error
  not_found : String → Error

-- the selectors of `kube::api::ListParams`
pub record ListParams : Type 0 where
  pub labels : Option String
  pub fields : Option String

-- What the manager calls in a world `W`: its two clients, lists that the server filters, the
-- metadata of the pods of a label selector, the passing of time in milliseconds, in which the other
-- processes of the cluster act, and whether the receiver of the events is still there.
pub record TestManager (W : Type 0) : Type 0 where
  pub resource_client : CrdClient W Resource
  pub test_client : CrdClient W Test
  pub list_tests : ListParams → W → Result KubeError (List Test)
  pub list_resources : ListParams → W → Result KubeError (List Resource)
  pub list_pods : String → W → Result KubeError (List ObjectMeta)
  pub sleep : ℕ → W → W
  pub listening : W → Bool
