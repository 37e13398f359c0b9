-- ===== src/Clients/JsonPatch.antt =====
-- model/src/clients/crd_client.rs, `JsonPatch`: the operations of a patch.
use bottlerocket_test_system.Base.{String, List, [], ◌∷◌}
use bottlerocket_test_system.Kube.{Token, key, Payload, PatchOperation}

pub data PatchOp : Type 0 where
  add replace remove test : PatchOp

pub record JsonPatch : Type 0 where
  pub op : PatchOp
  pub path : List Token
  pub value : Payload

unfoldable pub new_add_operation : List Token → Payload → JsonPatch
new_add_operation path value = record { op = add; path = path; value = value }

unfoldable pub new_replace_operation : List Token → Payload → JsonPatch
new_replace_operation path value = record { op = replace; path = path; value = value }

unfoldable pub new_remove_operation : List Token → JsonPatch
new_remove_operation path = record { op = remove; path = path; value = Payload.null }

unfoldable pub new_test_operation : List Token → Payload → JsonPatch
new_test_operation path value = record { op = test; path = path; value = value }

-- the current time, in RFC 3339
unfoldable pub new_timestamp : String → JsonPatch
new_timestamp now = record {
  op = replace;
  path = key "status" ∷ key "lastUpdate" ∷ [];
  value = Payload.timestamp now;
}

operation : PatchOp → List Token → Payload → PatchOperation
operation add path value = PatchOperation.add path value
operation replace path value = PatchOperation.replace path value
operation remove path value = PatchOperation.remove path
operation test path value = PatchOperation.test path value

unfoldable pub into_json_patch_operation : JsonPatch → PatchOperation
unfolding operation
into_json_patch_operation p = operation p.op p.path p.value
