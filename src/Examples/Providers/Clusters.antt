-- ===== src/Examples/Providers/Clusters.antt =====
-- The theorem on the provider of ECS clusters, in a cloud where a late call fails, and the environment that
-- the clouds share. The world is the memo that the info client holds.
use bottlerocket_test_system.Base.{none, some, [], ◌≡◌, refl}
use bottlerocket_test_system.Base.Result.{Result, ok, err, ok-injective}
use bottlerocket_test_system.Base.Exec.{◌>>=◌, pure, throw, read, context, attempt, match_result}
use bottlerocket_test_system.Base.Exec.Preserves.{Preserves, Anything}
use bottlerocket_test_system.Agents.ResourceAgent.ProviderError.{
  remaining, new_with_source_and_context,
}
use bottlerocket_test_system.Agents.Utils.Secrets.{FileSystem}
use bottlerocket_test_system.Agents.Utils.Aws.{Environment, aws_config}
use bottlerocket_test_system.Agents.Utils.Aws.Quiet
use bottlerocket_test_system.Bottlerocket.AgentConfig.{EcsClusterConfig}
use bottlerocket_test_system.Bottlerocket.Provider.{Spec, InfoClient}
use bottlerocket_test_system.Bottlerocket.Ecs
use bottlerocket_test_system.Bottlerocket.Ecs.Create
use bottlerocket_test_system.Bottlerocket.Ecs.Leaks
use bottlerocket_test_system.Bottlerocket.Ecs.Leaks.{create-nothing_deleted}

-- the environment that every world keeps
module _ {W : Type 0} where
  abbrev pub files : FileSystem W
  files = record { read_dir = λ d w. (ok [], w); read_bytes = λ f w. (ok [], w) }

  abbrev pub environment : Environment W
  environment = record {
    files = files;
    from_utf8 = λ b. ok "";
    set_var = λ k v w. w;
    send_assume_role = λ config role duration w. (ok none, w);
  }

  pub still :
      {E A : Type 0} {P : W → Type 0} (r : Result E A) → Preserves {E = E} P Anything (λ w. (r, w))
  still r = record { at = λ w p. p; yields = λ w p a h. tt }

  pub environment-IsQuiet : (P : W → Type 0) → Quiet.IsQuiet P environment
  environment-IsQuiet P = record {
    read_dir = λ d. still (ok []);
    read_bytes = λ f. still (ok []);
    set_var = λ k v w p. p;
    assume_role = λ config role duration. still (ok none);
  }

abbrev ecs_client : InfoClient Ecs.Memo Ecs.Memo
ecs_client = record { get_info = λ w. (ok w, w); send_info = λ m w. (ok tt, m) }

-- The default VPC is not found.
abbrev ecs_cloud : Ecs.Cloud Ecs.Memo
ecs_cloud = record {
  environment = environment;
  show_error = λ e. "aws";
  show_sdk_error = λ e. "sdk";
  debug = λ e. "error";
  ecs = λ config. record {
    create_cluster = λ n w. (ok tt, w);
    delete_cluster = λ n w. (ok tt, w);
    list_container_instances = λ n w. (ok none, w);
  };
  iam = λ config. record {
    get_instance_profile = λ n w. (ok (some (some "arn")), w);
    send_create_role = λ n d w. (ok tt, w);
    send_attach_role_policy = λ n a w. (ok tt, w);
    send_create_instance_profile = λ n w. (ok tt, w);
    send_add_role_to_instance_profile = λ n r w. (ok tt, w);
  };
  ec2 = λ config. record {
    describe_vpcs = λ f w. (err "denied", w);
    describe_subnets = λ f w. (ok none, w);
  };
  sleep = λ n w. w;
}

ecs-IsUnnamed : (w : Ecs.Memo) → w.cluster_name ≡ none → Leaks.IsUnnamed ecs_client w
ecs-IsUnnamed w u = record { unnamed = λ m h. let e = ok-injective h in rw (← e) u }

ecs-IsQuiet : Leaks.IsQuiet ecs_cloud ecs_client
ecs-IsQuiet = record {
  get = record { at = λ w p. p; yields = λ w p m h. tt };
  send = λ m u. record { at = λ w p. ecs-IsUnnamed m u; yields = λ w p a h. tt };
  send_fails = λ m. record { at = λ w p e h. absurd (cc) };
  environment = environment-IsQuiet _;
  create_cluster = λ config n. still (ok tt);
  get_profile = λ config n. still (ok (some (some "arn")));
  create_role = λ config n d. still (ok tt);
  attach_role = λ config n a. still (ok tt);
  create_profile = λ config n. still (ok tt);
  add_role = λ config p r. still (ok tt);
  vpcs = λ config f. still (err "denied");
  subnets = λ config f. still (ok none);
}

abbrev ecs_spec : Spec EcsClusterConfig
ecs_spec = record {
  configuration = record {
    cluster_name = "cluster";
    region = none;
    vpc = none;
    assume_role = none;
    iam_instance_profile_name = none;
  };
  secrets = [];
}

abbrev ecs_memo : Ecs.Memo
ecs_memo = record {
  current_status = "";
  aws_secret_name = none;
  assume_role = none;
  cluster_name = none;
  region = none;
}

no_vpc :
    (Create.create ecs_cloud ecs_client ecs_spec ecs_memo).0
    ≡ err (new_with_source_and_context remaining "VPC list is missing." "denied")
unfolding Create.create aws_config ◌>>=◌ pure throw read context attempt match_result
no_vpc = refl

create-nothing_deleted_example :
    Create.destroy ecs_cloud ecs_client 3 (Create.create ecs_cloud ecs_client ecs_spec ecs_memo).1
    ≡ Leaks.nothing_deleted ecs_cloud ecs_client
        (Create.create ecs_cloud ecs_client ecs_spec ecs_memo).1
create-nothing_deleted_example =
    create-nothing_deleted ecs_cloud ecs_client ecs-IsQuiet ecs_spec 3 ecs_memo
      (new_with_source_and_context remaining "VPC list is missing." "denied")
      (ecs-IsUnnamed ecs_memo refl) no_vpc
