-- ===== src/Controller/Cluster.antt =====
-- What a controller calls: the clients of the custom resources, the jobs, the log service and the
-- clock. During one reconciliation every read before the first write sees one world.
use Prim.Native.String.{String, ◌++◌}
use bottlerocket_test_system.Base.{ℕ, Bool, false, Option, none, some, ltb}
use bottlerocket_test_system.Base.Result.{ok, err}
use bottlerocket_test_system.Base.Duration.{ℤ, to_std}
use bottlerocket_test_system.Model.Resource.{Resource}
pub use bottlerocket_test_system.Model.Meta.{name_any}
use bottlerocket_test_system.Model.Test.{Test}
use bottlerocket_test_system.Kube.{Api}
use bottlerocket_test_system.Clients.CrdClient.{CrdClient}
use bottlerocket_test_system.Controller.Job.{LogArchive}
use bottlerocket_test_system.Controller.Job.Builder.{Job}
use bottlerocket_test_system.Controller.Utils.{parse_duration}

pub record Cluster (W : Type 0) : Type 0 where
  pub resource_client : CrdClient W Resource
  pub test_client : CrdClient W Test
  pub jobs : Api W Job
  pub archive : LogArchive W
  pub now : W → ℕ

-- `format!("before'{}'after", name)`
abbrev pub quote : String → String → String → String
quote before name after = before ++ ("'" ++ (name ++ ("'" ++ after)))

-- a timeout that does not parse is no timeout
longer_than : ℕ → Option String → Bool
longer_than d none = false
longer_than d (some timeout) = elim (parse_duration timeout) [ ok t ↦ ltb t d | err e ↦ false ]

-- The test of an agent's time limit against the time that its job has been running.
unfoldable pub exceeds_timeout : Option String → ℤ → Bool
unfolding longer_than
exceeds_timeout timeout d = elim (to_std d) [ none ↦ false | some n ↦ longer_than n timeout ]
