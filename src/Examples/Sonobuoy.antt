-- ===== src/Examples/Sonobuoy.antt =====
-- The theorems on sonobuoy at concrete statuses.
use bottlerocket_test_system.Base.{
  ℕ, ◌+◌, ◌^◌, ◌<◌, String, true, none, some, List, [], ◌∷◌, ◌≡◌, refl, arith,
}
use bottlerocket_test_system.Base.Result.{Result, ok, err}
use bottlerocket_test_system.Base.Exec.{◌>>=◌, context, pure}
use bottlerocket_test_system.Model.Json.{
  no_entry, entry, Value, object, array, string, number, no_value, value,
}
use bottlerocket_test_system.Model.Test.{TestResults, Outcome}
use bottlerocket_test_system.Clients.Templates.{lookup}
use bottlerocket_test_system.Bottlerocket.Sonobuoy.{
  sonobuoy_status, plugins_of, process_sonobuoy_test_results,
}
use bottlerocket_test_system.Bottlerocket.Sonobuoy.Outcomes.{
  IsOutcome, process_sonobuoy_test_results-IsOutcome,
}
use bottlerocket_test_system.Bottlerocket.Sonobuoy.Counts.{IsSound, total, completed}
use bottlerocket_test_system.Bottlerocket.Sonobuoy.Wait.{
  Calls, wait_for_sonobuoy_results, status_args,
}
use bottlerocket_test_system.Bottlerocket.Sonobuoy.Wait.Finished.{
  Finished, wait_for_sonobuoy_results-Finished,
}
use bottlerocket_test_system.Bottlerocket.Sonobuoy.Wait.GivesUp.{
  IsNoJson, wait_for_sonobuoy_results-gives_up,
}

-- a plugin with its status, and 2 failures in 5 completed tests
abbrev plugin : String → Value
plugin status = object (
    entry "plugin" (string "e2e") (
      entry "result-status" (string status) (
        entry "result-counts" (object (entry "passed" (number 3) no_entry)) (
          entry "progress"
            (object (
              entry "completed" (number 5) (
                entry "failures" (array (value (string "a") (value (string "b") no_value)))
                  no_entry)))
            no_entry))))

abbrev run_status : Value
run_status = object (
    entry "status" (string "complete") (
      entry "plugins" (array (value (plugin "passed") (value (plugin "failed") no_value)))
        no_entry))

abbrev plugins : List Value
plugins = plugin "passed" ∷ plugin "failed" ∷ []

has_plugins : plugins_of run_status ≡ ok plugins
unfolding lookup
has_plugins = refl

abbrev failed : TestResults
failed = record {
  outcome = Outcome.fail;
  num_passed = 6;
  num_failed = 0;
  num_skipped = 0;
  other_info = some "e2e: {}, e2e: {}";
}

processed : process_sonobuoy_test_results (λ v. "{}") run_status ≡ ok failed
unfolding process_sonobuoy_test_results lookup
processed = refl

process_sonobuoy_test_results-IsOutcome_example : IsOutcome Outcome.fail plugins
process_sonobuoy_test_results-IsOutcome_example =
    process_sonobuoy_test_results-IsOutcome (λ v. "{}") run_status has_plugins processed

plugins-IsSound : IsSound plugins
unfolding lookup
plugins-IsSound = omega arith

few : total completed plugins < 2 ^ 64
unfolding lookup
few = omega arith

-- A cluster whose status is always the same. The world counts the reads.
abbrev calls : Result String Value → Calls ℕ
calls answer = record {
  output = λ args w. (ok (true, "status"), w + 1);
  from_str = λ s. answer;
  send_test_update = λ r w. (ok tt, w);
  aws_config = λ w. (ok tt, w);
  sleep = λ time w. w;
  show = λ n. "1";
}

abbrev args : List String
args = status_args "/kubeconfig" none

finishes : (wait_for_sonobuoy_results (calls (ok run_status)) args 1 0).0 ≡ ok (some tt)
unfolding wait_for_sonobuoy_results ◌>>=◌ context pure lookup
finishes = refl

wait_for_sonobuoy_results-Finished_example :
    Finished
      (calls (ok run_status))
      args
      (wait_for_sonobuoy_results (calls (ok run_status)) args 1 0).1
wait_for_sonobuoy_results-Finished_example =
    wait_for_sonobuoy_results-Finished (calls (ok run_status)) args 1 0 finishes

calls-IsNoJson : IsNoJson (calls (err "no JSON")) args
calls-IsNoJson = record { prints = λ w. ("status", "no JSON", refl, refl) }

wait_for_sonobuoy_results-gives_up_example :
    (wait_for_sonobuoy_results (calls (err "no JSON")) args 9 0).0 ≡ err (sonobuoy_status 6)
wait_for_sonobuoy_results-gives_up_example =
    wait_for_sonobuoy_results-gives_up (calls (err "no JSON")) args 9 0 calls-IsNoJson (omega arith)
