-- ===== src/Controller/Test/Reconcile/Finalizers.antt =====
-- The test controller's decisions about finalizers fit the client's checks.
use bottlerocket_test_system.Base.{arith, String, some, ◌≡◌, if◌then◌else◌}
use bottlerocket_test_system.Base.Result.{ok, is_ok}
use bottlerocket_test_system.Base.Exec.{◌>>=◌, context, pure}
use bottlerocket_test_system.Controller.Test.Reconcile.{do_action, client_call}
use bottlerocket_test_system.Model.Meta.{object_name, has_finalizers}
use bottlerocket_test_system.Model.Test.{Test}
use bottlerocket_test_system.Clients.CrdClient.{
  patch, add_finalizer, remove_finalizer, first_finalizer, next_finalizer,
}
use bottlerocket_test_system.Clients.CrdClient.Finalizers.{
  Removes, Removes-same, has_finalizer-Removes, add_finalizer-patch,
}
use bottlerocket_test_system.Controller.Cluster.{Cluster}
use bottlerocket_test_system.Controller.Test.Action.{Action, determine_action}
use bottlerocket_test_system.Controller.Test.Removal.{
  added, removed, determine_action-added, determine_action-removed,
}

-- `object_meta` of the client is that of `CrdExt` for `Test`
module _ {W : Type 0} (k : Cluster W) (t : Test) (w : W)
    (meta : (x : Test) → k.test_client.object_meta x ≡ x.metadata) where
  -- the call of an action ends as the removal does
  do_action-removal :
      (a : Action) (f : String)
      → removed a ≡ some f
      → ((do_action k t a w).1 ≡ (remove_finalizer k.test_client f t w).1)
        × (is_ok (do_action k t a w).0 ≡ is_ok (remove_finalizer k.test_client f t w).0)
  unfolding do_action client_call ◌>>=◌ context pure
  do_action-removal a f e = ground arith

  -- If the action of a test removes a finalizer, then what the controller does for it is one patch: it
  -- sets the time of the last update, and tests and removes an index that holds that finalizer in the
  -- test as it was read. It succeeds if the server takes the patch.
  pub determine_action-Removes :
      (a : Action) (f : String)
      → determine_action k t w ≡ ok a
      → removed a ≡ some f
      → Removes k.test_client t f w (do_action k t a)
  determine_action-Removes a f h e =
      let same = do_action-removal a f e in
      Removes-same k.test_client t f w (remove_finalizer k.test_client f t) (do_action k t a) same.0
        same.1
        (has_finalizer-Removes k.test_client t f w
          (rw (meta t) (determine_action-removed k t w a f h e).0))

  -- The finalizer that an action adds is added by a patch that sets the first finalizer or appends to
  -- those that were read. The client does not refuse it as a duplicate.
  determine_action-add_finalizer :
      (a : Action) (f : String)
      → determine_action k t w ≡ ok a
      → added a ≡ some f
      → add_finalizer k.test_client f t w
        ≡ patch k.test_client
            (object_name t.metadata)
            (if has_finalizers t.metadata
              then next_finalizer k.test_client f t (k.test_client.now w)
              else first_finalizer k.test_client f (k.test_client.now w))
            "add finalizer"
            w
  determine_action-add_finalizer a f h e =
      simp (← meta t) (
        add_finalizer-patch k.test_client t f w
          (rw (meta t) (determine_action-added k t w a f h e)))
