-- ===== src/Agents/TestAgent/DefaultClient/Patches.antt =====
-- What a run with the default client leaves on the server.
use bottlerocket_test_system.Base.{String, List, [], ◌∷◌, ◌≡◌, arith}
use bottlerocket_test_system.Base.Result.{ok, map_err-ok}
use bottlerocket_test_system.Base.Exec.{Exec, ◌>>=◌, pure, context}
use bottlerocket_test_system.Model.Agent.{TaskState}
use bottlerocket_test_system.Model.Test.{Test, TestResults}
use bottlerocket_test_system.Kube.{key, Payload, PatchOperation}
use bottlerocket_test_system.Clients.JsonPatch.{
  new_timestamp, new_add_operation, into_json_patch_operation,
}
use bottlerocket_test_system.Clients.Error.{ClientError}
use bottlerocket_test_system.Clients.CrdClient.{CrdClient, patch_status}
use bottlerocket_test_system.Clients.TestClient.{send_agent_task_state}
use bottlerocket_test_system.Agents.TestAgent.{Error, Runner, run_inner}
use bottlerocket_test_system.Agents.TestAgent.Completion.{Completed, run_inner-Completed}
use bottlerocket_test_system.Agents.TestAgent.DefaultClient.{DefaultError, sent, default_client}

-- the patch that sets the task state of a test to completed
abbrev pub completion : String → List PatchOperation
completion now =
    PatchOperation.replace (key "status" ∷ key "lastUpdate" ∷ []) (Payload.timestamp now)
    ∷ PatchOperation.add (key "status" ∷ key "agent" ∷ key "taskState" ∷ [])
        (Payload.task_state TaskState.completed)
    ∷ []

module _ {W F : Type 0} (c : CrdClient W Test) (show : Error DefaultError F → String)
    (name dir : String) (r : Runner W F) where
  sent-ok :
      (m : Exec W ClientError Test) (u : W)
      → (sent c show name dir m u).0 ≡ ok tt
      → (test : Test) × ((m u).0 ≡ ok test) × ((sent c show name dir m u).1 ≡ (m u).1)
  unfolding sent ◌>>=◌ pure context
  sent-ok m u h = ground arith

  -- The server took the patch, which left it in the last world.
  pub record IsPatched (last : W) : Type 0 where
    pub before : W
    pub test : Test
    pub taken : (c.api.patch_status name (completion (c.now before)) before).0 ≡ ok test
    pub ends : (c.api.patch_status name (completion (c.now before)) before).1 ≡ last

  task_state-IsPatched :
      (u last : W) (test : Test)
      → (send_agent_task_state c name TaskState.completed u).0 ≡ ok test
      → (send_agent_task_state c name TaskState.completed u).1 ≡ last
      → IsPatched last
  unfolding send_agent_task_state patch_status context new_timestamp new_add_operation
      into_json_patch_operation
  task_state-IsPatched u last test h e = record {
    before = u;
    test = test;
    taken = map_err-ok _ _ h;
    ends = e;
  }

  Completed-IsPatched :
      (t : TestResults) (v last : W)
      → Completed (default_client c show name dir) r t v last
      → IsPatched last
  unfolding default_client
  Completed-IsPatched t v last h =
      let u = (r.terminate ((default_client c show name dir).send_test_results t v).1).1 in
      let s = sent-ok (send_agent_task_state c name TaskState.completed) u h.completed in
      task_state-IsPatched u last s.0 s.1 (ground (arith, s.2, h.ends))

  -- A run with the default client that returns no error has, as its last call, patched the status of
  -- its test: the time of the last update is set, and the task state of the agent is set to completed.
  -- The server took the patch.
  pub default_client-completed :
      (w : W)
      → (run_inner (default_client c show name dir) r w).0 ≡ ok tt
      → IsPatched (run_inner (default_client c show name dir) r w).1
  default_client-completed w h =
      let s = run_inner-Completed (default_client c show name dir) r w h in
      Completed-IsPatched s.0 s.1 (run_inner (default_client c show name dir) r w).1 s.3
