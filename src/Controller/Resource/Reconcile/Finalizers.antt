-- ===== src/Controller/Resource/Reconcile/Finalizers.antt =====
-- The controller's decisions about finalizers fit the client's checks.
use bottlerocket_test_system.Base.{arith, String, some, ◌≡◌, if◌then◌else◌}
use bottlerocket_test_system.Base.Result.{ok, is_ok}
use bottlerocket_test_system.Base.Exec.{◌>>=◌, context, pure}
use bottlerocket_test_system.Controller.Resource.Reconcile.{do_destruction_action, client_call}
use bottlerocket_test_system.Model.Meta.{object_name, has_finalizers}
use bottlerocket_test_system.Model.Resource.{Resource}
use bottlerocket_test_system.Clients.CrdClient.{
  patch, add_finalizer, remove_finalizer, first_finalizer, next_finalizer,
}
use bottlerocket_test_system.Clients.CrdClient.Finalizers.{
  Removes, Removes-same, has_finalizer-Removes, add_finalizer-patch,
}
use bottlerocket_test_system.Controller.Cluster.{Cluster}
use bottlerocket_test_system.Controller.Resource.Interface.{ResourceInterface}
use bottlerocket_test_system.Controller.Resource.Action.{
  DestructionAction, destruction_action, creation_action,
}
use bottlerocket_test_system.Controller.Resource.Action.Waits.{CreationAction}
use bottlerocket_test_system.Controller.Resource.Removal.{removed, destruction_action-removed}
use bottlerocket_test_system.Controller.Resource.Guards.{added, creation_action-added}

-- `object_meta` of the client is that of `CrdExt` for `Resource`
module _ {W : Type 0} (k : Cluster W) (r : ResourceInterface) (w : W)
    (meta : (x : Resource) → k.resource_client.object_meta x ≡ x.metadata) where
  -- the call of an action ends as the removal does
  do_destruction_action-removal :
      (a : DestructionAction) (f : String)
      → removed a ≡ some f
      → ((do_destruction_action k r a w).1 ≡ (remove_finalizer k.resource_client f r.resource w).1)
        × (is_ok (do_destruction_action k r a w).0
            ≡ is_ok (remove_finalizer k.resource_client f r.resource w).0)
  unfolding do_destruction_action client_call ◌>>=◌ context pure
  do_destruction_action-removal a f e = ground arith

  -- If the action of a destruction removes a finalizer, then what the controller does for it is one
  -- patch: it sets the time of the last update, and tests and removes an index that holds that
  -- finalizer in the resource as it was read. It succeeds if the server takes the patch.
  pub destruction_action-Removes :
      (a : DestructionAction) (f : String)
      → destruction_action k r w ≡ ok a
      → removed a ≡ some f
      → Removes k.resource_client r.resource f w (do_destruction_action k r a)
  destruction_action-Removes a f h e =
      let same = do_destruction_action-removal a f e in
      Removes-same k.resource_client r.resource f w
        (remove_finalizer k.resource_client f r.resource) (do_destruction_action k r a) same.0
        same.1
        (has_finalizer-Removes k.resource_client r.resource f w
          (rw (meta r.resource) (destruction_action-removed k r w a f h e).0))

  -- The finalizer that a creation action adds is added by a patch that sets the first finalizer or
  -- appends to those that were read. The client does not refuse it as a duplicate.
  creation_action-add_finalizer :
      (a : CreationAction) (f : String)
      → creation_action k r w ≡ ok a
      → added a ≡ some f
      → add_finalizer k.resource_client f r.resource w
        ≡ patch k.resource_client
            (object_name r.resource.metadata)
            (if has_finalizers r.resource.metadata
              then next_finalizer k.resource_client f r.resource (k.resource_client.now w)
              else first_finalizer k.resource_client f (k.resource_client.now w))
            "add finalizer"
            w
  creation_action-add_finalizer a f h e = simp (← meta r.resource) (
      add_finalizer-patch k.resource_client r.resource f w
        (rw (meta r.resource) (creation_action-added k r w a f h e)))
