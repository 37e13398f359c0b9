-- ===== src/Lib.antt =====
-- The TestSys control plane.
--
-- TestSys runs tests of Bottlerocket in Kubernetes. A user creates two kinds of objects, resources
-- (what a test needs, for example a cluster) and tests. A controller reads these objects and starts
-- Kubernetes jobs: one that creates a resource, one that destroys it, one that runs a test. The
-- agents in these jobs write what they did into the status of the objects, where the controller
-- reads it. Finalizers on the objects record what has to be cleaned up before an object may go.
--
-- Parts, and the files that model them:
--   * Model: the objects. `Model/Agent`, `Model/Resource`, `Model/Test`, `Model/Meta` and
--     `Model/Constants` follow model/src/agent.rs, resource.rs, test.rs, crd_ext.rs and constants.rs:
--     records for structs, data types for enums, one function for each query.
--     `Model/Crd` follows the names and the sum of both kinds of objects in model/src/lib.rs.
--   * Kube: the Kubernetes API as the program sees it, `kube::Api` as a record of calls in a world.
--     The server is not in the repository, so each call is a parameter.
--   * Clients: model/src/clients/crd_client.rs, resource_client.rs, test_client.rs,
--     http_status_code.rs and error.rs: the patches that the program sends (`CrdClient`,
--     `ResourceClient`, `TestClient`), the templates of configurations that stand for what other
--     resources have created (`Templates`), new objects (`Objects`), and the waits for a deletion
--     (`Waiting`).
--   * Controller/Job: controller/src/job: the state of a job by its counts, deletion, logs, and the
--     job that is built for an agent.
--   * Controller/Resource: controller/src/resource_controller/action.rs (`Action` and
--     `Action/Waits`: `creation_action`, `destruction_action`, `is_deletion_required` and what they
--     call), mod.rs (`Reconcile`) and context.rs (`Interface`, `Reconcile`).
--   * Controller/Test: controller/src/test_controller/action.rs (`Action`, `Readiness`), reconcile.rs
--     and context.rs (`Reconcile`).
--   * Controller/Utils: controller/src/utils.rs, the durations of timeouts.
--   * Agents: agent/test-agent/src/agent.rs (`TestAgent`), its k8s_client.rs
--     (`TestAgent/DefaultClient` and its `Specs`) and agent/resource-agent/src/agent.rs (`ResourceAgent`): the runs
--     of the two agents over their traits. `ResourceAgent/DefaultClient` and
--     `ResourceAgent/ProviderError` follow clients/implementation.rs and provider/error.rs of the
--     resource agent.
--   * Manager: model/src/test_manager. `Selection` (the filters of manager.rs), `Status` and
--     `Status/Table` (status.rs), `Dependencies` and `Pods` (manager_impl.rs), `Deletion` (delete.rs),
--     `Objects` (manager.rs) and `Install` (create_or_update of manager_impl.rs, install.rs).
--   * Bottlerocket/Sonobuoy: bottlerocket/agents/src/sonobuoy.rs: the results that are read from a
--     status (`Sonobuoy`), the waits (`Wait`) and the programs that are run (`Run`).
--   * Bottlerocket/Workload: bottlerocket/agents/src/workload.rs.
--   * Agents/Utils: agent/utils/src/lib.rs, its aws.rs (`Aws`) and ssm.rs (`Ssm`), and
--     agent/agent-common/src/secrets.rs (`Secrets`).
--   * Bottlerocket/AgentConfig: bottlerocket/types/src/agent_config.rs, in part, with the versions of
--     Kubernetes (`Version`). Bottlerocket/Userdata and Bottlerocket/Policy: userdata.rs and lib.rs of
--     bottlerocket/agents. Bottlerocket/Provider: what a provider is given, of agent/resource-agent.
--   * Bottlerocket/Ec2, Ecs and Eks: the providers ec2_provider.rs (`Launch`, `Instances`, `Create`,
--     `Destroy`), ecs_provider.rs (`Cluster`, `Create`) and eks_provider.rs (`Fields`, `Info`,
--     `Lookup`, `Create`) of bottlerocket/agents.
--   * Examples: a server in memory and the theorems at concrete objects.
--
-- How code is modelled. An `async` function that may fail and changes the world is an `Exec`: it
-- takes a world and answers a result and a world. A function that only reads the server takes
-- the world and answers a `Result`; all reads of one call of `reconcile` see the same world.
-- Logging is left out. The loops of the manager, of its clients and of sonobuoy that wait take
-- the passing of time as a function on worlds, in milliseconds; elsewhere sleeping is left out.
-- Sums of machine integers wrap, as in a release build. A time is a number of nanoseconds.
--
-- Bounds and fuel. The retry loop of `resource_readiness` takes MAX_RETRIES = 3 rounds at most,
-- and the model gives it 3 rounds. The loop of `TestAgent::run_inner` is modelled by the number
-- of retries that are left. The loops that wait for `keep_running` to become false need not end,
-- so `run` takes a number of rounds and answers `none` if they were not enough. So do the waits
-- for a deletion and for sonobuoy, the rounds of `async_deletion` and the visits of
-- `add_dependencies_to_vec`; for the visits a bound is given by costs that fall along the
-- dependencies. A wait of a provider that has a time limit runs for the rounds that fit into the
-- limit, a parameter, and fails with the limit's error after them; it is cut between two rounds
-- only. The pages of stacks of an EKS cluster are read for a number of rounds, with the answer
-- `none` if there are more. `create_or_update` makes MAX_RETRIES = 3 attempts, and `create_namespace` reads
-- 20 times at most.
--
-- Not modelled: the command line (cli), the self test, the derive macros, the other agents of
-- bottlerocket/agents (Karpenter, vSphere, metal, the tests on ECS and of migrations), the manifests
-- of model/src/system and the functions of install.rs that send them, the logs, results and pull
-- secrets of the test manager, the crates that sort topologically, match patterns and draw
-- tables (their operations are parameters), the services of AWS (records of calls), the bootstrap
-- of processes, and the watch loops of the crate `kube_runtime`.
pub mod Base
pub mod Model
pub mod Kube
pub mod Clients
pub mod Controller
pub mod Agents
pub mod Manager
pub mod Bottlerocket
mod Examples
