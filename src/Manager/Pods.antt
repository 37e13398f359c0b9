-- ===== src/Manager/Pods.antt =====
-- model/src/test_manager/manager_impl.rs: the pods that work for an object, found by the label that
-- names their job. A pod is its metadata.
pub mod Labels
use Prim.Native.String.{◌++◌ as concat}
use bottlerocket_test_system.Base.{String, List, [], ◌∷◌, ◌++◌}
use bottlerocket_test_system.Base.Result.{Result, ok, err, map_err, ◌>>=◌}
use bottlerocket_test_system.Model.Constants.{label_component}
use bottlerocket_test_system.Model.Crd.{CrdName}
use bottlerocket_test_system.Model.Meta.{ObjectMeta}
use bottlerocket_test_system.Model.Resource.JobName.{ResourceState, job_name}
use bottlerocket_test_system.Clients.CrdClient.{get}
use bottlerocket_test_system.Manager.{TestManager, Error, kube, not_found}

abbrev pub job_label : String → String
job_label name = concat "job-name=" name

-- `first().context(..)`
abbrev first_or : String → List ObjectMeta → Result Error ObjectMeta
first_or what [] = err (not_found what)
first_or what (p ∷ ps) = ok p

module _ {W : Type 0} (m : TestManager W) (w : W) where
  pods_of : String → String → Result Error (List ObjectMeta)
  pods_of action label = map_err (kube action) (m.list_pods label w)

  pub get_pods : CrdName → Result Error (List ObjectMeta)
  unfolding pods_of
  get_pods (CrdName.test n) = pods_of "get pods" (job_label n)
  get_pods (CrdName.resource n) = do
    creation ← pods_of "get pods" (job_label (concat n "-creation"))
    destruction ← pods_of "get pods" (job_label (concat n "-destruction"))
    ok (creation ++ destruction)

  unfoldable pub test_pod : String → Result Error ObjectMeta
  unfolding pods_of
  test_pod n = pods_of "get pods" (job_label n) >>= first_or "pod for test"

  unfoldable pub resource_pod : String → ResourceState → Result Error ObjectMeta
  unfolding pods_of
  resource_pod n state = elim (get m.resource_client n w) [
    | err e ↦ err (not_found "pod for test")
    | ok r ↦ pods_of "get pods" (job_label (job_name r.metadata state)) >>= first_or "pod for test"
  ]

  unfoldable pub controller_pod : Result Error ObjectMeta
  unfolding pods_of
  controller_pod =
      pods_of "get controller pod" (concat label_component "=controller")
      >>= first_or "controller pod for test"
