-- ===== src/Examples/Deployed.antt =====
-- The theorem on the default client of a test agent, at the server in memory.
use bottlerocket_test_system.Base.{String, ◌≡◌, refl, none, some, [], ◌∷◌}
use bottlerocket_test_system.Base.Result.{ok}
use bottlerocket_test_system.Base.Exec.{◌>>=◌, context, attempt, match_result, pure, read}
use bottlerocket_test_system.Model.Test.{Outcome, default_test_results, default_test_status}
use bottlerocket_test_system.Clients.CrdClient.{get}
use bottlerocket_test_system.Clients.TestClient.{
  send_agent_task_state, send_test_results, send_test_update,
}
use bottlerocket_test_system.Agents.TestAgent.{Error, Runner, run_inner}
use bottlerocket_test_system.Agents.TestAgent.DefaultClient.{DefaultError, default_client}
use bottlerocket_test_system.Agents.TestAgent.DefaultClient.Patches.{
  IsPatched, default_client-completed,
}
use bottlerocket_test_system.Examples.Server.{Server, cluster, meta, agent}

abbrev world : Server
world = record {
  resources = [];
  tests =
      record {
        metadata = meta "t" none none;
        spec = record { resources = []; depends_on = none; agent = agent none; retries = some 1 };
        status = some default_test_status;
      }
      ∷ [];
  jobs = [];
}

-- a runner that passes when it runs again
abbrev runner : Runner Server String
runner = record {
  run = λ w. (ok (record default_test_results { outcome = Outcome.fail }), w);
  rerun_failed = λ t w. (ok (record default_test_results { outcome = Outcome.pass }), w);
  terminate = λ w. (ok tt, w);
  archive = λ dir file w. (ok tt, w);
}

abbrev show : Error DefaultError String → String
show e = "error"

succeeds :
    (run_inner (default_client cluster.test_client show "t" "/results") runner world).0 ≡ ok tt
unfolding run_inner default_client get send_agent_task_state send_test_results send_test_update
    ◌>>=◌ context attempt match_result pure read
succeeds = refl

default_client-completed_example :
    IsPatched cluster.test_client show "t" "/results" runner
      (run_inner (default_client cluster.test_client show "t" "/results") runner world).1
default_client-completed_example =
    default_client-completed cluster.test_client show "t" "/results" runner world succeeds
