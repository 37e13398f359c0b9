-- ===== src/Manager/Objects.antt =====
-- model/src/test_manager/manager.rs: objects that the manager creates, restarts and removes. What waits
-- takes a number of rounds; an answer `none` means that they were not enough.
pub mod Restarted
use bottlerocket_test_system.Base.{
  ℕ, String, Bool, true, false, Option, none, some, List, [], ◌∷◌, unwrap_or, is_empty,
  if◌then◌else◌,
}
use bottlerocket_test_system.Base.Result.{Result, ok, err, map_err, map_ok, ◌>>=◌ as then_ok}
use bottlerocket_test_system.Base.Exec.{Exec, ◌>>=◌, ◌>>◌, pure, throw, read, context}
use bottlerocket_test_system.Model.Crd.{Crd, CrdName}
use bottlerocket_test_system.Model.Meta.{ObjectMeta, name_any}
use bottlerocket_test_system.Model.Resource.{Resource}
use bottlerocket_test_system.Model.Test.{Test}
use bottlerocket_test_system.Clients.Error.{client_error_status}
use bottlerocket_test_system.Clients.HttpStatusCode.{allow_not_found}
use bottlerocket_test_system.Clients.CrdClient.{get, get_all, create, delete}
use bottlerocket_test_system.Clients.Waiting.{wait_for_deletion, force_delete}
use bottlerocket_test_system.Manager.{
  TestManager, SelectionParams, Error, client, resource_existing,
}
use bottlerocket_test_system.Manager.Selection.{list}
use bottlerocket_test_system.Manager.Dependencies.{add_dependencies_to_vec}
use bottlerocket_test_system.Manager.Deletion.{
  TopologicalSort, vec_to_deletion_order, all_objects_deletion_order,
}
use bottlerocket_test_system.Manager.Status.{Summary, snapshot}

-- the test as it is created again
abbrev pub fresh : Test → Test
fresh t = record {
  metadata = record (t.metadata) { resource_version = none };
  spec = t.spec;
  status = none;
}

module _ {W : Type 0} (m : TestManager W) where
  create_test : Test → Exec W Error (Unit {0})
  create_test t = do created ← context (client "create new test") (create m.test_client t); pure tt

  unfoldable pub create_resource : Resource → Exec W Error (Unit {0})
  create_resource r = do
    created ← context (client "create new resource") (create m.resource_client r)
    pure tt

  unfoldable pub create_object : Crd → Exec W Error Crd
  unfolding create_test create_resource
  create_object (Crd.test t) = create_test t >> pure (Crd.test t)
  create_object (Crd.resource r) = create_resource r >> pure (Crd.resource r)

  -- the wait for a test to be gone
  pub wait_for_test : ℕ → String → Exec W Error (Option (Unit {0}))
  wait_for_test rounds name w = elim (wait_for_deletion m.test_client m.sleep rounds name w) [
    | none ↦ (ok none, w)
    | some w' ↦ (ok (some tt), w')
  ]

  -- what follows the wait
  pub create_again : Test → Option (Unit {0}) → Exec W Error (Option (Unit {0}))
  create_again t none = pure none
  create_again t (some u) = do
    created ← context (client "create new test") (create m.test_client (fresh t))
    pure (some tt)

  unfoldable pub restart_test : ℕ → String → Exec W Error (Option (Unit {0}))
  unfolding wait_for_test create_again
  restart_test rounds name = do
    test ← read (λ w. map_err (client "get test") (get m.test_client name w))
    deleted ← context (client "delete test") (delete m.test_client name)
    waited ← wait_for_test rounds name
    create_again test waited

  force_delete_all : List Crd → Exec W Error (Unit {0})
  force_delete_all [] = pure tt
  force_delete_all (Crd.test t ∷ cs) = do
    deleted ← context (client "delete test") (delete m.test_client (name_any t.metadata))
    force_delete_all cs
  force_delete_all (Crd.resource r ∷ cs) = do
    deleted ←
        context (client "delete test")
          (force_delete m.resource_client m.sleep (name_any r.metadata))
    force_delete_all cs

  unfoldable pub force_delete_resource : SelectionParams → Exec W Error (Unit {0})
  unfolding force_delete_all
  force_delete_resource p = do objects ← read (list m p); force_delete_all objects

  unfoldable pub status : SelectionParams → W → Result Error Summary
  status p w = map_ok snapshot (list m p w)

  module _ {T : Type 0} (s : TopologicalSort T) where
    -- the order in which `delete` removes the selected objects
    unfoldable pub deletion_order :
        ℕ → SelectionParams → (include_dependencies : Bool) → W → Option (Result Error T)
    deletion_order visits p include_dependencies w = elim (list m p w) [
      | err e ↦ some (err e)
      | ok objects ↦
          if include_dependencies
          then elim (add_dependencies_to_vec m w visits objects) [
            | none ↦ none
            | some r ↦ some (map_ok (vec_to_deletion_order s) r)
          ]
          else some (ok (vec_to_deletion_order s objects))
    ]

  -- `uninstall`, over the calls that remove the installation and wait for it
  unfoldable pub uninstall :
      (uninstall_testsys : Exec W Error (Unit {0}))
      → (wait_for_namespace_deletion : Exec W Error (Option (Unit {0})))
      → Exec W Error (Option (Unit {0}))
  uninstall uninstall_testsys wait_for_namespace_deletion = do
    resources ←
        read (λ w.
          map_err (client "get all resources") (allow_not_found (get_all m.resource_client w)))
    (if is_empty (unwrap_or [] resources)
        then uninstall_testsys >> wait_for_namespace_deletion
        else throw resource_existing)
