-- ===== src/Bottlerocket/Workload.antt =====
-- bottlerocket/agents/src/workload.rs: tests that are run as plugins of sonobuoy. Of the error of a
-- program that failed, the exit code and the output are left out.
use Prim.Native.String.{◌++◌ as concat}
use bottlerocket_test_system.Base.{
  ℕ, String, Option, none, some, List, [], ◌∷◌, ◌++◌, if◌then◌else◌,
}
use bottlerocket_test_system.Base.Result.{map_err}
use bottlerocket_test_system.Base.Exec.{Exec, ◌>>=◌, ◌>>◌, pure, throw, read, context}
use bottlerocket_test_system.Model.Json.{Value}
use bottlerocket_test_system.Model.Test.{TestResults}
use bottlerocket_test_system.Bottlerocket.Sonobuoy.{
  Error, deserialize_json, workload_process, workload_test, workload_run, workload_delete,
  file_write, process_sonobuoy_test_results,
}
use bottlerocket_test_system.Bottlerocket.Sonobuoy.Wait.{
  Calls, status_args, wait_for_sonobuoy_status, wait_for_sonobuoy_results,
}
use bottlerocket_test_system.Bottlerocket.Sonobuoy.Run.{kubeconfig_arg, optional_arg}

pub record WorkloadTest : Type 0 where
  pub name : String
  pub image : String

-- The fields of `WorkloadConfig` that are read.
pub record WorkloadConfig : Type 0 where
  pub tests : List WorkloadTest
  pub sonobuoy_image : Option String

-- Files that are created, and what is written to them.
pub record Files (W : Type 0) : Type 0 where
  pub create : String → Exec W String (Unit {0})
  pub write_all : String → String → Exec W String (Unit {0})

abbrev pub namespace : String
namespace = "testsys-workload"

abbrev gen_args : WorkloadTest → List String
gen_args t = "gen" ∷ "plugin" ∷ "--name" ∷ t.name ∷ "--image" ∷ t.image ∷ []

abbrev plugin_yaml : WorkloadTest → String
plugin_yaml t = concat "./" (concat t.name "-plugin.yaml")

module _ {W : Type 0} (c : Calls W) (files : Files W) (show : Value → String)
    (path results_file : String) where
  -- a program that has to succeed, with its output
  output_of : Error → List String → Exec W Error String
  output_of failure args = do
    output ← context workload_process (c.output args)
    (if output.0 then pure output.1 else throw failure)

  -- The plugins are written to files, which are arguments of the run.
  plugin_args : List WorkloadTest → Exec W Error (List String)
  unfolding output_of
  plugin_args [] = pure []
  plugin_args (t ∷ ts) = do
    output ← output_of (workload_test t.name) (gen_args t)
    context (file_write (plugin_yaml t)) (files.create (plugin_yaml t))
    context workload_process (files.write_all (plugin_yaml t) output)
    rest ← plugin_args ts
    pure ("--plugin" ∷ plugin_yaml t ∷ rest)

  results_workload : Exec W Error TestResults
  unfolding output_of
  results_workload = do
    retrieved ← output_of workload_run (
        kubeconfig_arg path
        ++ ("retrieve" ∷ "--namespace" ∷ namespace ∷ "--filename" ∷ results_file ∷ []))
    run_result ←
        context workload_process
          (c.output (kubeconfig_arg path ++ ("status" ∷ "--json" ∷ "--namespace" ∷ namespace ∷ [])))
    run_status ← read (λ w. map_err deserialize_json (c.from_str run_result.1))
    read (λ w. process_sonobuoy_test_results show run_status)

  -- The deletion of the namespace and its resources.
  unfoldable pub delete_workload : Exec W Error (Unit {0})
  unfolding output_of
  delete_workload = do
    deleted ←
        output_of workload_delete
          (kubeconfig_arg path ++ ("delete" ∷ "--namespace" ∷ namespace ∷ "--wait" ∷ []))
    pure tt

  module _ (timeout : Exec W Error (Option (Unit {0})) → Exec W Error (Option (Unit {0}))) where
    -- what follows a wait that returned
    unfoldable pub returned :
        Option (Unit {0}) → Exec W Error (Option TestResults) → Exec W Error (Option TestResults)
    returned none rest = pure none
    returned (some u) rest = rest

    -- the waits for the status and the results, and the results
    unfoldable pub wait_and_collect : ℕ → Exec W Error (Option TestResults)
    unfolding returned results_workload
    wait_and_collect rounds = do
      available ← timeout (wait_for_sonobuoy_status c (status_args path (some namespace)) rounds)
      returned available (do
        finished ← wait_for_sonobuoy_results c (status_args path (some namespace)) rounds
        returned finished (do results ← results_workload; pure (some results)))

    unfoldable pub run_workload : ℕ → WorkloadConfig → Exec W Error (Option TestResults)
    unfolding plugin_args output_of wait_and_collect
    run_workload rounds config = do
      plugins ← plugin_args config.tests
      started ← output_of workload_run (
          kubeconfig_arg path
          ++ ("run" ∷ "--namespace" ∷ namespace ∷ [])
          ++ plugins
          ++ optional_arg "--sonobuoy-image" config.sonobuoy_image)
      wait_and_collect rounds

    unfoldable pub rerun_failed_workload : ℕ → WorkloadConfig → Exec W Error (Option TestResults)
    unfolding output_of wait_and_collect
    rerun_failed_workload rounds config = do
      started ← output_of workload_run (
          kubeconfig_arg path
          ++ ("run" ∷ "--namespace" ∷ namespace ∷ [])
          ++ optional_arg "--sonobuoy-image" config.sonobuoy_image
          ++ ("--rerun-failed" ∷ results_file ∷ []))
      wait_and_collect rounds
