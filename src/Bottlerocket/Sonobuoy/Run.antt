-- ===== src/Bottlerocket/Sonobuoy/Run.antt =====
-- bottlerocket/agents/src/sonobuoy.rs: a run of sonobuoy, the run of its failed tests again, its
-- results and its deletion. The time limit of the wait for a status is a parameter, as it is an
-- operation of the crate `tokio`.
use bottlerocket_test_system.Base.{
  ℕ, String, Option, none, some, List, [], ◌∷◌, ◌++◌, if◌then◌else◌,
}
use bottlerocket_test_system.Base.Result.{map_err}
use bottlerocket_test_system.Base.Exec.{Exec, ◌>>=◌, ◌>>◌, pure, throw, read, context}
use bottlerocket_test_system.Model.Json.{Value}
use bottlerocket_test_system.Model.Test.{TestResults}
use bottlerocket_test_system.Bottlerocket.Sonobuoy.{
  Error, sonobuoy_process, sonobuoy_run, sonobuoy_delete, deserialize_json,
  process_sonobuoy_test_results,
}
use bottlerocket_test_system.Bottlerocket.Sonobuoy.Wait.{
  Calls, status_args, in_progress, update, wait_for_sonobuoy_status, wait_for_sonobuoy_results,
}

-- The fields of `SonobuoyConfig` that are read. The version is written in full, with its `v`.
pub record SonobuoyConfig : Type 0 where
  pub plugin : String
  pub mode : String
  pub kubernetes_version : Option String
  pub kube_conformance_image : Option String
  pub sonobuoy_image : Option String

abbrev pub kubeconfig_arg : String → List String
kubeconfig_arg path = "--kubeconfig" ∷ path ∷ []

-- The image, or else the version, or neither.
k8s_image_arg : Option String → Option String → List String
k8s_image_arg (some image) version = "--kube-conformance-image" ∷ image ∷ []
k8s_image_arg none (some version) = "--kubernetes-version" ∷ version ∷ []
k8s_image_arg none none = []

abbrev pub optional_arg : String → Option String → List String
optional_arg name none = []
optional_arg name (some v) = name ∷ v ∷ []

-- extra arguments of the plugin
abbrev plugin_env : String
plugin_env =
    "--plugin-env=e2e.E2E_EXTRA_ARGS=--non-blocking-taints=sonobuoy,node-role.kubernetes.io/control-plane,node-role.kubernetes.io/master --progress-report-url=http://localhost:8099/progress"

image_args : SonobuoyConfig → Option String → List String
unfolding k8s_image_arg
image_args config e2e_repo =
    k8s_image_arg config.kube_conformance_image config.kubernetes_version
    ++ (optional_arg "--e2e-repo-config" e2e_repo
        ++ optional_arg "--sonobuoy-image" config.sonobuoy_image)

run_args : String → SonobuoyConfig → Option String → List String
unfolding image_args
run_args path config e2e_repo =
    kubeconfig_arg path
    ++ ("run" ∷ "--plugin" ∷ config.plugin ∷ "--mode" ∷ config.mode ∷ [])
    ++ image_args config e2e_repo
    ++ (plugin_env ∷ [])

rerun_args : String → SonobuoyConfig → Option String → String → List String
unfolding image_args
rerun_args path config e2e_repo results_file =
    kubeconfig_arg path
    ++ ("run" ∷ [])
    ++ image_args config e2e_repo
    ++ ("--rerun-failed" ∷ results_file ∷ [])

module _ {W : Type 0} (c : Calls W) (show : Value → String) (path results_file : String) where
  -- a program that has to succeed, with the error if it does not
  command : Error → List String → Exec W Error (Unit {0})
  command failure args = do
    status ← context sonobuoy_process (c.output args)
    (if status.0 then pure tt else throw failure)

  -- Neither of the last two programs has to succeed.
  results_sonobuoy : Exec W Error TestResults
  unfolding command
  results_sonobuoy = do
    command sonobuoy_run (kubeconfig_arg path ++ ("retrieve" ∷ "--filename" ∷ results_file ∷ []))
    shown ← context sonobuoy_process (c.output ("results" ∷ results_file ∷ []))
    run_result ← context sonobuoy_process (c.output (status_args path none))
    run_status ← read (λ w. map_err deserialize_json (c.from_str run_result.1))
    read (λ w. process_sonobuoy_test_results show run_status)

  unfoldable pub delete_sonobuoy : Exec W Error (Unit {0})
  unfolding command
  delete_sonobuoy =
      command sonobuoy_delete (kubeconfig_arg path ++ ("delete" ∷ "--all" ∷ "--wait" ∷ []))

  module _ (timeout : Exec W Error (Option (Unit {0})) → Exec W Error (Option (Unit {0}))) where
    -- what follows a wait that returned
    unfoldable pub returned :
        Option (Unit {0}) → Exec W Error (Option TestResults) → Exec W Error (Option TestResults)
    returned none rest = pure none
    returned (some u) rest = rest

    -- the waits for the status and the results, and the results
    unfoldable pub wait_and_collect : ℕ → Exec W Error (Option TestResults)
    unfolding returned results_sonobuoy
    wait_and_collect rounds = do
      available ← timeout (wait_for_sonobuoy_status c (status_args path none) rounds)
      returned available (do
        finished ← wait_for_sonobuoy_results c (status_args path none) rounds
        returned finished (do results ← results_sonobuoy; pure (some results)))

    unfoldable pub run_sonobuoy :
        ℕ → SonobuoyConfig → Option String → Exec W Error (Option TestResults)
    unfolding command run_args wait_and_collect
    run_sonobuoy rounds config e2e_repo = do
      update c (status_args path none) (in_progress "Starting test")
      command sonobuoy_run (run_args path config e2e_repo)
      update c (status_args path none) (in_progress "Checking status")
      wait_and_collect rounds

    unfoldable pub rerun_failed_sonobuoy :
        ℕ → SonobuoyConfig → Option String → Exec W Error (Option TestResults)
    unfolding command rerun_args wait_and_collect
    rerun_failed_sonobuoy rounds config e2e_repo = do
      command sonobuoy_run (rerun_args path config e2e_repo results_file)
      wait_and_collect rounds
