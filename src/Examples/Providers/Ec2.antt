-- ===== src/Examples/Providers/Ec2.antt =====
-- The theorems on the provider of EC2 instances, in a cloud where a launch in the first subnet fails. The
-- world is the memo that the info client holds.
use bottlerocket_test_system.Base.{
  none, some, List, [], ◌∷◌, ◌≡◌, refl, str_eq, contains, if◌then◌else◌,
}
use bottlerocket_test_system.Base.Result.{Result, ok, err}
use bottlerocket_test_system.Base.Exec.{◌>>=◌, pure, throw, read, context, attempt, match_result}
use bottlerocket_test_system.Agents.ResourceAgent.ProviderError.{clear, new_with_source_and_context}
use bottlerocket_test_system.Agents.Utils.Secrets.{FileSystem}
use bottlerocket_test_system.Agents.Utils.Aws.{
  SdkConfig, base, default_provider, Environment, aws_config,
}
use bottlerocket_test_system.Agents.Utils.Ssm.{SdkError, other_error}
use bottlerocket_test_system.Bottlerocket.AgentConfig.{ClusterType, Ec2Config}
use bottlerocket_test_system.Bottlerocket.Provider.{Spec, InfoClient}
use bottlerocket_test_system.Bottlerocket.Provider.Keeps.{Keeps}
use bottlerocket_test_system.Bottlerocket.Userdata.{string}
use bottlerocket_test_system.Bottlerocket.Ec2.{
  ProductionMemo, CreatedEc2Instances, RunInstances, Ec2Client, EcsClient, Cloud, Instance,
}
use bottlerocket_test_system.Bottlerocket.Ec2.Launch.{
  run_instances, RunInstancesOutput, launch, launch_types,
}
use bottlerocket_test_system.Bottlerocket.Ec2.Launch.Order.{pairs, first_launch, launch_types-first}
use bottlerocket_test_system.Bottlerocket.Ec2.Instances.{non_conforming_instances}
use bottlerocket_test_system.Bottlerocket.Ec2.Create.{prepare, checked_ids, Limits, create}
use bottlerocket_test_system.Bottlerocket.Ec2.Create.Cleared.{
  HasLaunched, create-clear, IsPending, IsStoring,
}
use bottlerocket_test_system.Bottlerocket.Ec2.Destroy.{destroy}
use bottlerocket_test_system.Bottlerocket.Ec2.Destroy.Terminates.{IsTerminated, create-destroy}

abbrev client : InfoClient ProductionMemo ProductionMemo
client = record { get_info = λ w. (ok w, w); send_info = λ m w. (ok tt, m) }

client-Keeps : Keeps client
client-Keeps = record { kept = λ m w h. refl }

abbrev files : FileSystem ProductionMemo
files = record { read_dir = λ d w. (ok [], w); read_bytes = λ f w. (ok [], w) }

abbrev environment : Environment ProductionMemo
environment = record {
  files = files;
  from_utf8 = λ b. ok "";
  set_var = λ k v w. w;
  send_assume_role = λ config role duration w. (ok none, w);
}

-- No instance starts in the first subnet.
abbrev launched : RunInstances → Result SdkError RunInstancesOutput
launched r =
    if str_eq r.subnet_id "a"
    then err (other_error "no capacity")
    else ok (some (some "i-1" ∷ some "i-2" ∷ []))

-- the instances that do not conform
abbrev ec2_with : List Instance → Ec2Client ProductionMemo
ec2_with states = record {
  run_instances = λ r w. (launched r, w);
  describe_images = λ i w. (ok none, w);
  describe_instance_status = λ f is w. (ok (some states), w);
  describe_instances = λ f w. (ok none, w);
  terminate_instances = λ is w. (ok tt, w);
}

abbrev ecs : EcsClient ProductionMemo
ecs = record {
  list_container_instances = λ c f w. (ok none, w);
  deregister_container_instance = λ c i f w. (ok tt, w);
}

abbrev cloud : Cloud ProductionMemo
cloud = record {
  environment = environment;
  show_error = λ e. "aws";
  debug = λ e. "error";
  ec2 = λ config. ec2_with [];
  ecs = λ config. ecs;
  new_v4 = λ w. ("uuid", w);
  sleep = λ n w. w;
  encode = λ s. s;
  decode = λ s. ok [];
  parse_toml = λ s. ok (string s);
  toml_to_string = λ v. ok "";
}

abbrev config : Ec2Config
config = record {
  node_ami = "ami";
  instance_count = none;
  instance_types = "m5.large" ∷ "m6g.large" ∷ [];
  cluster_name = "cluster";
  region = "us-west-2";
  instance_profile_arn = "arn";
  subnet_ids = "a" ∷ "b" ∷ [];
  cluster_type = ClusterType.eks;
  endpoint = some "endpoint";
  certificate = some "certificate";
  cluster_dns_ip = some "10.100.0.10";
  assume_role = none;
  custom_user_data = none;
  security_groups = [];
}

abbrev spec : Spec Ec2Config
spec = record { configuration = config; secrets = [] }

abbrev empty_memo : ProductionMemo
empty_memo = record {
  current_status = "";
  instance_ids = [];
  region = "";
  aws_secret_name = none;
  uuid_tag = none;
  assume_role = none;
  cluster_type = ClusterType.eks;
  cluster_name = "";
}

abbrev limits : Limits
limits = record { launch = 3; running = 3; terminated = 3; deregistered = 3 }

abbrev two_instances : CreatedEc2Instances
two_instances = record { ids = "i-1" ∷ "i-2" ∷ [] }

creates : (create cloud client limits spec empty_memo).0 ≡ ok two_instances
unfolding create aws_config contains ◌>>=◌ pure throw read context attempt match_result
creates = refl

destroys :
    (destroy cloud client limits none (create cloud client limits spec empty_memo).1).0 ≡ ok tt
unfolding create destroy aws_config ◌>>=◌ pure throw read context attempt match_result
destroys = refl

create-destroy_example : IsTerminated cloud "us-west-2" ("i-1" ∷ "i-2" ∷ [])
create-destroy_example =
    create-destroy cloud client limits spec two_instances "i-1" ("i-2" ∷ []) empty_memo client-Keeps
      creates refl destroys

launch_types-first_example :
    launch_types cloud
      (ec2_with [])
      client
      config
      "uuid"
      2
      3
      ("m5.large" ∷ "m6g.large" ∷ [])
      empty_memo
      empty_memo
    ≡ first_launch
        (λ p n. launch cloud (ec2_with []) client config "uuid" 2 3 p.0 p.1 n)
        (pairs ("m5.large" ∷ "m6g.large" ∷ []) ("a" ∷ "b" ∷ []))
        empty_memo
        empty_memo
launch_types-first_example =
    launch_types-first cloud (ec2_with []) client config "uuid" 2 3 ("m5.large" ∷ "m6g.large" ∷ [])
      empty_memo empty_memo

-- an instance that stays pending
abbrev pending : Ec2Client ProductionMemo
pending = ec2_with (some "i-1" ∷ [])

abbrev pending_cloud : Cloud ProductionMemo
pending_cloud = record cloud { ec2 = λ config. pending }

-- the configuration and the memo before the launch
abbrev sdk_config : SdkConfig
sdk_config = record {
  region = "us-west-2";
  endpoint_url = none;
  credentials_provider = base default_provider;
}

abbrev before_launch : ProductionMemo
before_launch = record empty_memo {
  current_status = "Launching instance(s)";
  uuid_tag = some "uuid";
  cluster_name = "cluster";
}

abbrev after_launch_memo : ProductionMemo
after_launch_memo = record before_launch { current_status = "Launched 'm5.large' in 'b'" }

prepares :
    (prepare pending_cloud client limits spec empty_memo).0
    ≡ ok (before_launch, ("uuid", sdk_config))
unfolding prepare aws_config contains ◌>>=◌ pure throw read context attempt match_result
prepares = refl

launches_all : HasLaunched pending_cloud client limits spec empty_memo
unfolding prepare run_instances checked_ids aws_config contains ◌>>=◌ pure throw read context
    attempt match_result
launches_all = record {
  prepared = (before_launch, ("uuid", sdk_config));
  launched = (some (some "i-1" ∷ some "i-2" ∷ []), after_launch_memo);
  instances = some "i-1" ∷ some "i-2" ∷ [];
  ids = "i-1" ∷ "i-2" ∷ [];
  prepares = prepares;
  launches = refl;
  has_instances = refl;
  has_ids = refl;
}

pending-IsPending : IsPending pending_cloud client pending ("i-1" ∷ "i-2" ∷ []) after_launch_memo
unfolding non_conforming_instances ◌>>=◌ pure throw read context attempt match_result
pending-IsPending = record { shown = λ w. ("i-1", [], refl) }

pending-IsStoring : IsStoring pending_cloud client pending ("i-1" ∷ "i-2" ∷ []) after_launch_memo
pending-IsStoring = record { stored = λ w. refl }

create-clear_example :
    (create pending_cloud client limits spec empty_memo).0
    ≡ err (
        new_with_source_and_context clear
          "Timed-out waiting for instances to reach the `running` state." "Elapsed")
unfolding launches_all
create-clear_example =
    create-clear pending_cloud client limits spec empty_memo empty_memo launches_all refl refl
      pending-IsStoring pending-IsPending
