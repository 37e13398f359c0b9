-- ===== src/Examples/Agents.antt =====
-- The theorems on the agents, at agents whose world counts the runs.
use bottlerocket_test_system.Base.{
  ℕ, zero, suc, String, ◌+◌, ◌≤◌, ◌<◌, ◌≡◌, ◌≢◌, refl, true, false, some, arith,
}
use bottlerocket_test_system.Base.Result.{ok}
use bottlerocket_test_system.Base.Exec.{◌>>=◌, context, attempt, match_result, pure}
use bottlerocket_test_system.Model.Test.{TestResults, Outcome, default_test_results}
use bottlerocket_test_system.Agents.TestAgent.{Client, Runner, run_inner, tar_results}
use bottlerocket_test_system.Agents.TestAgent.Completion.{IsCompleted, run_inner-Completed}
use bottlerocket_test_system.Agents.TestAgent.Waiting.{Stops}
use bottlerocket_test_system.Agents.ResourceAgent.{
  AgentClient, Provider, create_resource, destroy_resource,
}
use bottlerocket_test_system.Agents.TestAgent.Retries.{CountsRuns, run_inner-runs}

-- a client that allows two retries, and a runner that never passes
abbrev client : Client ℕ (Unit {0}) (Unit {0})
client = record {
  send_test_starting = λ w. (ok tt, w);
  send_test_update = λ t w. (ok tt, w);
  send_test_results = λ t w. (ok tt, w);
  send_error = λ e w. (ok tt, w);
  send_test_completed = λ w. (ok tt, w);
  retries = λ w. (ok 2, w);
  keep_running = λ w. (ok false, w);
  results_directory = λ w. (ok "/output", w);
  results_file = λ w. (ok "/output.tar.gz", w);
}

abbrev failed : TestResults
failed = record default_test_results { outcome = Outcome.fail; num_failed = 1 }

abbrev runner : Runner ℕ (Unit {0})
runner = record {
  run = λ w. (ok failed, w + 1);
  rerun_failed = λ t w. (ok failed, w + 1);
  terminate = λ w. (ok tt, w);
  archive = λ dir file w. (ok tt, w);
}

counts : CountsRuns client runner (λ w. w)
counts = record {
  starting = record { at = λ w. omega arith };
  update = λ t. record { at = λ w. omega arith };
  results = λ t. record { at = λ w. omega arith };
  error = λ e. record { at = λ w. omega arith };
  completed = record { at = λ w. omega arith };
  retries = record { at = λ w. omega arith };
  first = record { at = λ w. omega arith };
  again = λ t. record { at = λ w. omega arith };
  terminate = record { at = λ w. omega arith };
}

two_retries : (w n : ℕ) → (client.retries w).0 ≡ ok n → n ≤ 2
two_retries w n e = ground arith

run_inner-runs_example : (run_inner client runner 0).1 ≤ 0 + (2 + 1)
run_inner-runs_example = run_inner-runs client runner (λ w. w) counts 2 two_retries 0

three_runs : run_inner client runner 0 ≡ (ok tt, 3)
unfolding run_inner ◌>>=◌ context attempt match_result pure
three_runs = refl

succeeds : (run_inner client runner 0).0 ≡ ok tt
unfolding run_inner ◌>>=◌ context attempt match_result pure
succeeds = refl

run_inner-Completed_example : IsCompleted client runner (run_inner client runner 0).1
run_inner-Completed_example = run_inner-Completed client runner 0 succeeds

-- a client that wants one more poll as long as the world is not zero
abbrev polled : Client ℕ (Unit {0}) (Unit {0})
polled = record client {
  keep_running = λ w. elim w [ zero ↦ (ok false, 0) | suc n ↦ (ok true, n) ];
}

last_poll : (w : ℕ) → w ≡ 0 → (polled.keep_running w).0 ≡ ok false
last_poll w e = ground arith

next_poll : (w : ℕ) → w ≢ 0 → (polled.keep_running w).1 < w
next_poll w e = ground arith

stops : Stops polled runner (λ w. w)
stops = record { last = last_poll; next = next_poll }

two_polls : (polled.keep_running (tar_results polled runner (run_inner polled runner 0).1).1).1 < 4
unfolding run_inner tar_results ◌>>=◌ context attempt match_result pure
two_polls = omega arith

abbrev agent_client : AgentClient ℕ String String String String
agent_client = record {
  get_spec = λ w. (ok "config", w);
  get_created_resource = λ w. (ok (some "resource"), w);
  send_create_starting = λ w. (ok tt, w + 1);
  send_create_succeeded = λ x w. (ok tt, w + 1);
  send_create_failed = λ e w. (ok tt, w + 1);
  send_destroy_starting = λ w. (ok tt, w + 1);
  send_destroy_succeeded = λ w. (ok tt, w + 1);
  send_destroy_failed = λ e w. (ok tt, w + 1);
  get_keep_running = λ w. (ok false, w);
}

abbrev resources : Provider ℕ String String String
resources = record {
  create = λ config w. (ok "resource", w);
  destroy = λ config resource w. (ok tt, w);
}

creates : (create_resource agent_client resources 0).0 ≡ ok tt
unfolding create_resource ◌>>=◌ context attempt match_result
creates = refl

destroys : (destroy_resource agent_client resources 0).0 ≡ ok tt
unfolding destroy_resource ◌>>=◌ context attempt match_result
destroys = refl
