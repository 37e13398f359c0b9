-- ===== src/Examples/Clients.antt =====
-- The theorems on the clients and on the agent of a resource at concrete objects.
use bottlerocket_test_system.Base.{
  ℕ, Option, none, some, List, [], ◌∷◌, str_eq, get_last?, if◌then◌else◌, ◌≡◌, ◌≢◌, ◌↔◌, refl,
  arith,
}
use bottlerocket_test_system.Base.Result.{ok}
use bottlerocket_test_system.Base.Exec.{◌>>=◌, context, attempt, match_result, read}
use bottlerocket_test_system.Model.Json.{Fields, no_entry, entry, string, number}
use bottlerocket_test_system.Model.Resource.{
  Resource, DestructionPolicy, default_agent_state, created_resource,
}
use bottlerocket_test_system.Kube.{Payload, PatchOperation}
use bottlerocket_test_system.Clients.HttpStatusCode.{is_status_code}
use bottlerocket_test_system.Clients.CrdClient.{CrdClient, get, patch_status}
use bottlerocket_test_system.Clients.ResourceClient.{send_task_state, send_creation_success}
use bottlerocket_test_system.Clients.Templates.{Captures, Configuration, resolve_templated_config}
use bottlerocket_test_system.Clients.Templates.Resolves.{ResolvesAll, resolve_templated_config_iff}
use bottlerocket_test_system.Clients.Waiting.{there, seen}
use bottlerocket_test_system.Clients.Waiting.Returns.{after}
use bottlerocket_test_system.Agents.ResourceAgent.{Provider, create_resource}
use bottlerocket_test_system.Agents.ResourceAgent.ProviderError.{ProviderError}
use bottlerocket_test_system.Agents.ResourceAgent.DefaultClient.{Spec, agent_client}
use bottlerocket_test_system.Agents.ResourceAgent.DefaultClient.Statuses.{
  StoresCreated, IsKnown, create_resource-resolves,
}
use bottlerocket_test_system.Examples.Server.{Server, cluster, meta, agent}

-- what the pattern finds in one text
abbrev pub captures : Captures
captures s = if str_eq s "${a.address}" then some (some "a", some "address") else none

-- A server of one resource, whose world is what that resource has created.
abbrev pub stored : Option Fields → Resource
stored created = record {
  metadata = meta "a" none none;
  spec = record {
    depends_on = none;
    conflicts_with = none;
    agent = agent none;
    destruction_policy = DestructionPolicy.on_deletion;
  };
  status = some (record {
    creation = default_agent_state;
    destruction = default_agent_state;
    agent_info = none;
    created_resource = created;
    last_update = none;
  });
}

abbrev pub added : List PatchOperation → Option Fields → Option Fields
added ops old = elim (get_last? ops) [
  | some (PatchOperation.add path (Payload.map fields)) ↦ some fields
  | _ ↦ old
]

abbrev pub server : CrdClient (Option Fields) Resource
server = record {
  kind = "resource";
  object_meta = λ r. r.metadata;
  default_status = Payload.null;
  api = record {
    get = λ name w. ok (stored w);
    list = λ w. ok (stored w ∷ []);
    create = λ r w. (ok r, w);
    delete = λ name w. (ok none, w);
    patch = λ name ops w. (ok (stored w), w);
    patch_status = λ name ops w. (ok (stored (added ops w)), added ops w);
  };
  now = λ w. "2022-01-01T00:00:00Z";
}

server-StoresCreated : StoresCreated server captures
unfolding created_resource
server-StoresCreated = record {
  stores = λ name ops created v r last taken. (stored (some created), ground (arith, last), refl);
}

abbrev address : Fields
address = entry "address" (string "10.0.0.1") no_entry

abbrev raw : Fields
raw = entry "target" (string "${a.address}") (entry "count" (number 3) no_entry)

abbrev resolved : Fields
resolved = entry "target" (string "10.0.0.1") (entry "count" (number 3) no_entry)

resolve_templated_config_iff_example :
    (resolve_templated_config server captures (some address) raw ≡ ok resolved)
    ↔ ResolvesAll server captures (some address) raw resolved
resolve_templated_config_iff_example =
    resolve_templated_config_iff server captures (some address) raw resolved

abbrev as_map : Configuration Fields
as_map = record { default = no_entry; from_map = λ m. ok m }

abbrev provider : Provider (Option Fields) ProviderError (Spec Fields) Fields
provider = record {
  create = λ config w. (ok address, w);
  destroy = λ config resource w. (ok tt, w);
}

creates :
    (create_resource (agent_client server captures "a" as_map as_map (λ r. r)) provider none).0
    ≡ ok tt
unfolding create_resource ◌>>=◌ context attempt match_result agent_client read patch_status
    send_task_state send_creation_success get resolve_templated_config
creates = refl

create_resource-resolves_example :
    (made : Fields) × IsKnown server captures server-StoresCreated "a" as_map as_map
      (λ r. r)
      provider
      "${a.address}"
      "address"
      (create_resource (agent_client server captures "a" as_map as_map (λ r. r)) provider none).1
      made
create_resource-resolves_example =
    create_resource-resolves server captures server-StoresCreated "a" as_map as_map (λ r. r)
      provider "${a.address}" "address" none refl creates

-- a resource that is gone after one pause
abbrev before : Server
before = record { resources = stored none ∷ []; tests = []; jobs = [] }

abbrev forget : ℕ → Server → Server
forget time w = record { resources = []; tests = []; jobs = [] }

goes : seen (cluster.resource_client.api.get "a" (after forget 1 before)) ≢ there
unfolding is_status_code
goes e = cc
