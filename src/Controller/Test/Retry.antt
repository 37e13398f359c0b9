-- ===== src/Controller/Test/Retry.antt =====
-- What the readiness loop makes of the answers of the server.
use bottlerocket_test_system.Base.{String, ◌≡◌, ◌↔◌, refl, none, List, [], ◌∷◌, All, arith}
use bottlerocket_test_system.Base.Result.{Result, ok}
use bottlerocket_test_system.Model.Agent.{TaskState}
use bottlerocket_test_system.Model.Resource.{Resource, creation_error, creation_task_state}
use bottlerocket_test_system.Kube.{KubeError}
use bottlerocket_test_system.Clients.HttpStatusCode.{
  kube_error_status, result_is_status_code, not_found,
}
use bottlerocket_test_system.Controller.Cluster.{Cluster}
use bottlerocket_test_system.Controller.Test.Readiness.{
  ready, attempts_run_out, max_retries, resource_readiness,
}

-- The loop reads one answer again and again: the attempts run out exactly if that answer is 404.
attempts_run_out_lem :
    (result : Result KubeError Resource)
    → attempts_run_out max_retries 1 result ≡ result_is_status_code result not_found
unfolding attempts_run_out
attempts_run_out_lem result = ground arith

module _ {W : Type 0} (k : Cluster W) (w : W) where
  -- The server has a resource of the name, which was created without an error.
  abbrev pub IsReady : String → Type 0
  IsReady n =
      (r : Resource) × (k.resource_client.api.get n w ≡ ok r)
      × (creation_error r ≡ none)
      × (creation_task_state r ≡ TaskState.completed)

  readiness-IsReady : (ns : List String) → resource_readiness k w ns ≡ ok ready → All (IsReady) ns
  unfolding resource_readiness result_is_status_code
  readiness-IsReady [] h = tt
  readiness-IsReady (n ∷ ns) h = ground (arith, readiness-IsReady ns)

  IsReady-readiness : (ns : List String) → All (IsReady) ns → resource_readiness k w ns ≡ ok ready
  unfolding resource_readiness result_is_status_code
  IsReady-readiness [] h = refl
  IsReady-readiness (n ∷ ns) h = ground (arith, IsReady-readiness ns h.1)

  -- The resources of a test are ready exactly if the server has each of them, created and without
  -- a creation error.
  pub resource_readiness-ready :
      (ns : List String) → (resource_readiness k w ns ≡ ok ready) ↔ All (IsReady) ns
  resource_readiness-ready ns = (readiness-IsReady ns, IsReady-readiness ns)
