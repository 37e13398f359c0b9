-- ===== src/Clients/Waiting.antt =====
-- model/src/clients/crd_client.rs and resource_client.rs: `wait_for_deletion` and `force_delete`. A
-- wait takes a number of rounds; `none` means that they were not enough.
pub mod Returns
use bottlerocket_test_system.Base.{
  ℕ, zero, suc, String, Bool, true, false, Option, none, some, if◌then◌else◌,
}
use bottlerocket_test_system.Base.Result.{Result, ok, err}
use bottlerocket_test_system.Base.Exec.{Exec, read, ◌>>=◌}
use bottlerocket_test_system.Model.Agent.{TaskState}
use bottlerocket_test_system.Model.Constants.{finalizer_resource}
use bottlerocket_test_system.Model.Meta.{name_any}
use bottlerocket_test_system.Model.Resource.{Resource, destruction_task_state}
use bottlerocket_test_system.Kube.{KubeError}
use bottlerocket_test_system.Clients.Error.{ClientError, delete_fail}
use bottlerocket_test_system.Clients.HttpStatusCode.{is_status_code, not_found, kube_error_status}
use bottlerocket_test_system.Clients.CrdClient.{CrdClient, get, delete, remove_finalizer}

-- The time between two reads, in milliseconds.
abbrev pub pause : ℕ
pause = 2_000

-- the answer that the object is gone
abbrev pub is_gone : {C : Type 0} → Result KubeError C → Bool
is_gone (ok c) = false
is_gone (err e) = is_status_code e not_found

module _ {W C : Type 0} (c : CrdClient W C) (sleep : ℕ → W → W) where
  unfoldable pub wait_for_deletion : ℕ → String → W → Option W
  wait_for_deletion zero name w = none
  wait_for_deletion (suc rounds) name w =
      let again = wait_for_deletion rounds name (sleep pause w) in
      if is_gone (c.api.get name w) then some w else again

-- The variant for resources: what one read says.
pub data Seen : Type 0 where
  there gone : Seen
  errored : String → Seen

abbrev pub seen : Result KubeError Resource → Seen
seen (ok r) = elim (destruction_task_state r) [
  | TaskState.error ↦ errored (name_any r.metadata)
  | _ ↦ there
]
seen (err e) = if is_status_code e not_found then gone else there

module _ {W : Type 0} (c : CrdClient W Resource) (sleep : ℕ → W → W) where
  pub wait_for_resource_deletion : ℕ → String → W → Option (Result ClientError (Unit {0}) × W)
  wait_for_resource_deletion zero name w = none
  wait_for_resource_deletion (suc rounds) name w =
      let again = wait_for_resource_deletion rounds name (sleep pause w) in
      elim (seen (c.api.get name w)) [
        | there ↦ again
        | gone ↦ some (ok tt, w)
        | errored n ↦ some (err (delete_fail n), w)
      ]

  unfoldable pub force_delete : String → Exec W ClientError (Option Resource)
  force_delete name = do
    resource ← read (get c name)
    removed ← remove_finalizer c finalizer_resource resource
    delete c name
