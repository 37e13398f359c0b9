-- ===== src/Agents/ResourceAgent/DefaultClient/Statuses.antt =====
-- What the agent of one resource tells the other agents.
use Prim.Native.String.{◌++◌ as concat}
use bottlerocket_test_system.Base.{String, some, List, [], ◌∷◌, get_last?, ◌≡◌, refl, ap, arith}
use bottlerocket_test_system.Base.Result.{ok, map_err, map_err-ok}
use bottlerocket_test_system.Base.Exec.{Exec, context}
use bottlerocket_test_system.Model.Json.{Fields}
use bottlerocket_test_system.Model.Resource.{Resource, created_resource}
use bottlerocket_test_system.Kube.{key, Token, Payload, PatchOperation}
use bottlerocket_test_system.Clients.Error.{ClientError as ModelError}
use bottlerocket_test_system.Clients.JsonPatch.{
  new_add_operation, new_timestamp, into_json_patch_operation,
}
use bottlerocket_test_system.Clients.CrdClient.{CrdClient, get}
use bottlerocket_test_system.Clients.ResourceClient.{send_creation_success}
use bottlerocket_test_system.Clients.Templates.{
  Captures, Configuration, or_else, lookup, resolve_input_string, value_of, created_field,
  resource_name_and_field_name,
}
use bottlerocket_test_system.Agents.ResourceAgent.{Provider, create_resource}
use bottlerocket_test_system.Agents.ResourceAgent.Reports.{Created, create_resource-Created}
use bottlerocket_test_system.Agents.ResourceAgent.ProviderError.{ProviderError}
use bottlerocket_test_system.Agents.ResourceAgent.DefaultClient.{Spec, sent, agent_client}

abbrev created_path : List Token
created_path = key "status" ∷ key "createdResource" ∷ []

module _ {W : Type 0} (c : CrdClient W Resource) (captures : Captures) where
  -- The documented behaviour of a server: when a patch whose last operation adds the created
  -- resource was taken, a read finds this created resource.
  pub record StoresCreated : Type 0 where
    pub stores :
        (name : String) (ops : List PatchOperation) (created : Fields) (v : W) (r : Resource)
        → get_last? ops ≡ some (PatchOperation.add created_path (Payload.map created))
        → (c.api.patch_status name ops v).0 ≡ ok r
        → (res : Resource) × (c.api.get name (c.api.patch_status name ops v).1 ≡ ok res)
          × (created_resource res ≡ some created)

  module _ (server : StoresCreated) (name : String) where
    sent-ok :
        (m : Exec W ModelError Resource) (v : W)
        → (sent c captures name m v).0 ≡ ok tt
        → (r : Resource) × ((m v).0 ≡ ok r) × ((sent c captures name m v).1 ≡ (m v).1)
    unfolding sent
    sent-ok m v h = ground arith

    success-stored :
        (created : Fields) (v : W) (r : Resource)
        → (send_creation_success c name created v).0 ≡ ok r
        → (res : Resource) × (get c name (send_creation_success c name created v).1 ≡ ok res)
          × (created_resource res ≡ some created)
    unfolding send_creation_success get context new_timestamp new_add_operation
        into_json_patch_operation
    success-stored created v r h =
        let s = server.stores name _ created v r refl (map_err-ok _ _ h) in
        (s.0, ap (map_err _) s.1, s.2)

    module _ {C R : Type 0} (t : Configuration C) (u : Configuration R) (to_map : R → Fields)
        (p : Provider W ProviderError (Spec C) R) where
      -- The resource `made` was created by the provider, and a text that names one of its fields is
      -- resolved to that field in the world `last`.
      pub record IsKnown (input field : String) (last : W) (made : R) : Type 0 where
        pub created : (config : Spec C) × (v : W) × ((p.create config v).0 ≡ ok made)
        pub resolved :
            resolve_input_string c captures last input
            ≡ or_else
                (concat "No field '" (concat field "' in created resource"))
                (lookup field (to_map made))

      resolved_by :
          (input field : String) (made : R) (last : W) (res : Resource)
          → captures input ≡ some (some name, some field)
          → get c name last ≡ ok res
          → created_resource res ≡ some (to_map made)
          → resolve_input_string c captures last input
            ≡ or_else
                (concat "No field '" (concat field "' in created resource"))
                (lookup field (to_map made))
      unfolding resolve_input_string resource_name_and_field_name value_of created_field
      resolved_by input field made last res e found has = ground (arith, found, has)

      made-IsKnown :
          (input field : String) (made : R) (last v : W) (config : Spec C)
          → captures input ≡ some (some name, some field)
          → Created (agent_client c captures name t u to_map) p config made v last
          → IsKnown input field last made
      unfolding agent_client
      made-IsKnown input field made last v config e k =
          let after = (p.create config v).1 in
          let taken = sent-ok (send_creation_success c name (to_map made)) after k.reported in
          let s = success-stored (to_map made) after taken.0 taken.1 in
          let ends = k.ends in
          record {
            created = (config, v, k.created);
            resolved = rw (← ends) (resolved_by input field made _ s.0 e s.1 s.2);
          }

      -- Let the server store what the patches of a status add. When the agent of a resource, with the
      -- default client, has run `create` without an error, the provider has created a resource, and
      -- every text that the pattern splits into this resource's name and a field is resolved to that
      -- field of what was created. If there is no such field, it is an error that names the field.
      pub create_resource-resolves :
          (input field : String) (w : W)
          → captures input ≡ some (some name, some field)
          → (create_resource (agent_client c captures name t u to_map) p w).0 ≡ ok tt
          → (made : R) × IsKnown input field
              (create_resource (agent_client c captures name t u to_map) p w).1
              made
      create_resource-resolves input field w e h =
          let s = create_resource-Created (agent_client c captures name t u to_map) p w h in
          (s.1, made-IsKnown input field s.1 _ s.2 s.0 e s.3)
