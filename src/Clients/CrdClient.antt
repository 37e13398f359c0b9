-- ===== src/Clients/CrdClient.antt =====
-- model/src/clients/crd_client.rs: what the clients of all custom resources share.
pub mod Finalizers
use bottlerocket_test_system.Base.{ℕ, String, Option, none, some, List, [], ◌∷◌, map, if◌then◌else◌}
use bottlerocket_test_system.Base.Result.{Result, map_err}
use bottlerocket_test_system.Base.Exec.{Exec, throw, context}
use bottlerocket_test_system.Model.Meta.{
  ObjectMeta, object_name, has_finalizers, has_finalizer, finalizer_position,
}
use bottlerocket_test_system.Kube.{Api, Token, key, index, past_end, Payload, null, text, texts}
use bottlerocket_test_system.Clients.Error.{
  ClientError, kube_api_call, kube_api_call_for, duplicate_finalizer, delete_missing_finalizer,
}
use bottlerocket_test_system.Clients.JsonPatch.{
  JsonPatch, new_add_operation, new_remove_operation, new_test_operation, new_timestamp,
  into_json_patch_operation,
}

-- The trait: its required methods, `Default` of the status, and the clock that timestamps read.
pub record CrdClient (W C : Type 0) : Type 0 where
  pub kind : String
  pub object_meta : C → ObjectMeta
  pub default_status : Payload
  pub api : Api W C
  pub now : W → String

-- paths of patches
abbrev status_path : List Token
status_path = key "status" ∷ []

abbrev finalizers_path : List Token
finalizers_path = key "metadata" ∷ key "finalizers" ∷ []

abbrev finalizers_end_path : List Token
finalizers_end_path = key "metadata" ∷ key "finalizers" ∷ past_end ∷ []

module _ {W C : Type 0} (c : CrdClient W C) where
  unfoldable pub get : String → W → Result ClientError C
  get name w = map_err (kube_api_call "get" c.kind) (c.api.get name w)

  unfoldable pub get_all : W → Result ClientError (List C)
  get_all w = map_err (kube_api_call_for "get all" c.kind) (c.api.list w)

  unfoldable pub create : C → Exec W ClientError C
  create crd = context (kube_api_call "create" c.kind) (c.api.create crd)

  unfoldable pub delete : String → Exec W ClientError (Option C)
  delete name = context (kube_api_call "delete" c.kind) (c.api.delete name)

  unfoldable pub patch : String → List JsonPatch → String → Exec W ClientError C
  patch name patches description =
      context (kube_api_call_for description name)
        (c.api.patch name (map into_json_patch_operation patches))

  unfoldable pub patch_status : String → List JsonPatch → String → Exec W ClientError C
  patch_status name patches description =
      context (kube_api_call_for description name)
        (c.api.patch_status name (map into_json_patch_operation patches))

  unfoldable pub initialize_status : String → Exec W ClientError C
  unfolding patch_status
  initialize_status name w =
      patch_status name
        (new_test_operation status_path null
          ∷ new_add_operation status_path c.default_status
          ∷ new_timestamp (c.now w)
          ∷ [])
        "initialize status" w

  -- the patches of `add_finalizer`
  pub first_finalizer : String → String → List JsonPatch
  first_finalizer finalizer now =
      new_timestamp now
      ∷ new_test_operation finalizers_path null
      ∷ new_add_operation finalizers_path (texts (some (finalizer ∷ [])))
      ∷ []

  pub next_finalizer : String → C → String → List JsonPatch
  next_finalizer finalizer crd now =
      new_timestamp now
      ∷ new_test_operation finalizers_path (texts (c.object_meta crd).finalizers)
      ∷ new_add_operation finalizers_end_path (text finalizer)
      ∷ []

  unfoldable pub add_finalizer : String → C → Exec W ClientError C
  unfolding patch first_finalizer next_finalizer has_finalizers has_finalizer object_name
  add_finalizer finalizer crd w =
      let m = c.object_meta crd in
      if has_finalizers m
      then if has_finalizer m finalizer
        then throw (duplicate_finalizer finalizer) w
        else patch (object_name m) (next_finalizer finalizer crd (c.now w)) "add finalizer" w
      else patch (object_name m) (first_finalizer finalizer (c.now w)) "add finalizer" w

  -- the patches of `remove_finalizer`
  pub drop_finalizer : String → ℕ → String → List JsonPatch
  drop_finalizer finalizer i now =
      let path = key "metadata" ∷ key "finalizers" ∷ index i ∷ [] in
      new_timestamp now ∷ new_test_operation path (text finalizer) ∷ new_remove_operation path ∷ []

  unfoldable pub remove_finalizer : String → C → Exec W ClientError C
  unfolding patch drop_finalizer finalizer_position object_name
  remove_finalizer finalizer crd w =
      let m = c.object_meta crd in
      elim (finalizer_position m finalizer) [
        | none ↦ throw (delete_missing_finalizer finalizer) w
        | some i ↦ patch (object_name m) (drop_finalizer finalizer i (c.now w)) "remove finalizer" w
      ]
