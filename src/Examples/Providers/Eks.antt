-- ===== src/Examples/Providers/Eks.antt =====
-- The theorems on the provider of EKS clusters, in a cloud where a late call fails, and in one where the
-- cluster exists. The world is the memo that the info client holds.
use bottlerocket_test_system.Base.{
  String, Bool, true, false, none, some, Option, [], ◌≡◌, refl, str_eq,
}
use bottlerocket_test_system.Base.Result.{Result, ok, err, ok-injective}
use bottlerocket_test_system.Base.Exec.{◌>>=◌, pure, throw, read, context, attempt, match_result}
use bottlerocket_test_system.Model.Json.{null}
use bottlerocket_test_system.Agents.ResourceAgent.ProviderError.{
  remaining, new_with_source_and_context,
}
use bottlerocket_test_system.Agents.Utils.Aws.{aws_config}
use bottlerocket_test_system.Agents.Utils.Ssm.{SdkError, service_error}
use bottlerocket_test_system.Bottlerocket.AgentConfig.{EksClusterConfig, args, if_not_exists}
use bottlerocket_test_system.Bottlerocket.Provider.{Spec, InfoClient}
use bottlerocket_test_system.Bottlerocket.Provider.Keeps.{Stored}
use bottlerocket_test_system.Bottlerocket.Eks.{ProductionMemo, Cloud, Cluster}
use bottlerocket_test_system.Bottlerocket.Eks.Lookup.{not_found}
use bottlerocket_test_system.Bottlerocket.Eks.Quiet.{IsQuiet}
use bottlerocket_test_system.Bottlerocket.Eks.Create.{create, destroy}
use bottlerocket_test_system.Bottlerocket.Eks.Create.Unnamed.{
  Unnamed, nothing_deleted, create-destroy-Unnamed,
}
use bottlerocket_test_system.Bottlerocket.Eks.Create.Existing.{
  NotStarted, IsFound, only_read, create-destroy_existing,
}
use bottlerocket_test_system.Examples.Providers.Clusters.{environment, still, environment-IsQuiet}

abbrev client : InfoClient ProductionMemo ProductionMemo
client = record { get_info = λ w. (ok w, w); send_info = λ m w. (ok tt, m) }

-- The program aws fails.
abbrev run : String → Result String (Bool × String)
run program = elim (str_eq program "aws") [ true ↦ err "no aws" | false ↦ ok (true, "0") ]

-- what `describe_cluster` answers
abbrev cloud : Result SdkError (Option Cluster) → Cloud ProductionMemo
cloud described = record {
  environment = environment;
  show_error = λ e. "aws";
  show_sdk_error = λ e. "sdk";
  clients = λ a b. record {
    describe_cluster = λ n w. (described, w);
    describe_subnets = λ is f w. (ok none, w);
    list_instance_profiles_for_role = λ r w. (ok none, w);
    list_stacks = λ t f w. (err "denied", w);
    describe_stack_resource = λ n i w. (ok none, w);
  };
  run_status = λ program arguments w. (run program, w);
  write = λ path bytes w. (ok tt, w);
  read_to_string = λ path w. (ok "", w);
  temp_dir = "/tmp";
  encode = λ s. s;
  decode = λ s. ok [];
  from_yaml = λ s. ok null;
  starts_with = λ s p. false;
  from_codes = λ cs. "1.24";
  show = λ n. "";
}

cloud-IsQuiet :
    (P : ProductionMemo → Type 0) (described : Result SdkError (Option Cluster))
    → IsQuiet P (cloud described) client
cloud-IsQuiet P described = record {
  get = record { at = λ w p. p; yields = λ w p m h. tt };
  send = λ m u. record {
    at = λ w p. record { holds = λ n h. let e = ok-injective h in rw (← e) u };
    yields = λ w p a h. tt;
  };
  send_fails = λ m. record { at = λ w p e h. absurd (cc) };
  environment = environment-IsQuiet _;
  run_status = λ program arguments. still (run program);
  write = λ path bytes. still (ok tt);
  read_to_string = λ path. still (ok "");
  cluster = λ a b n. still described;
  subnets = λ a b is f. still (ok none);
  profiles = λ a b r. still (ok none);
  stacks = λ a b t f. still (err "denied");
  stack_resource = λ a b n i. still (ok none);
}

abbrev spec : Spec EksClusterConfig
spec = record {
  configuration = record {
    creation_policy = some if_not_exists;
    assume_role = none;
    eks_service_endpoint = none;
    config = args "cluster" none none none;
  };
  secrets = [];
}

abbrev memo : ProductionMemo
memo = record {
  current_status = "";
  aws_secret_name = none;
  cluster_name = none;
  creation_policy = none;
  region = none;
  assume_role = none;
  provisioning_started = false;
}

-- the cluster does not exist
abbrev absent : Result SdkError (Option Cluster)
absent = err (service_error (some "ResourceNotFoundException") "no cluster")

abbrev cluster : Cluster
cluster = record {
  resources_vpc_config = none;
  endpoint = none;
  certificate_authority = none;
  kubernetes_network_config = none;
}

memo-Stored : (P : ProductionMemo → Type 0) → P memo → Stored P client memo
memo-Stored P p = record { holds = λ m h. let e = ok-injective h in rw (← e) p }

fails :
    (create (cloud absent) client spec 3 memo).0
    ≡ err (new_with_source_and_context remaining "Failed update kubeconfig" "no aws")
unfolding create aws_config ◌>>=◌ pure throw read context attempt match_result
fails = refl

create-destroy-Unnamed_example :
    destroy (cloud absent) client (create (cloud absent) client spec 3 memo).1
    ≡ nothing_deleted client (create (cloud absent) client spec 3 memo).1
create-destroy-Unnamed_example =
    create-destroy-Unnamed (cloud absent) client (cloud-IsQuiet Unnamed absent) spec 3 memo
      (new_with_source_and_context remaining "Failed update kubeconfig" "no aws")
      (memo-Stored Unnamed refl) fails

exists-IsFound : IsFound (cloud (ok (some cluster)))
unfolding not_found
exists-IsFound = record { found = λ a b n w. refl }

create-destroy_existing_example :
    destroy
      (cloud (ok (some cluster)))
      client
      (create (cloud (ok (some cluster))) client spec 3 memo).1
    ≡ only_read client (create (cloud (ok (some cluster))) client spec 3 memo).1
create-destroy_existing_example =
    create-destroy_existing (cloud (ok (some cluster))) client
      (cloud-IsQuiet NotStarted (ok (some cluster))) spec 3 memo exists-IsFound
      (memo-Stored NotStarted refl)
