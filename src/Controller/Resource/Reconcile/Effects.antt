-- ===== src/Controller/Resource/Reconcile/Effects.antt =====
-- What one reconciliation of a resource does to the server.
use bottlerocket_test_system.Base.{Bool, true, false, ◌≡◌, is_none, not, arith}
use bottlerocket_test_system.Base.Result.{ok}
use bottlerocket_test_system.Base.Exec.{◌>>=◌, read, pure}
use bottlerocket_test_system.Model.Resource
use bottlerocket_test_system.Model.Resource.{Resource, ResourceAction}
use bottlerocket_test_system.Controller.Cluster.{Cluster}
use bottlerocket_test_system.Controller.Requeue.{requeue}
use bottlerocket_test_system.Controller.Resource.Interface.{ResourceInterface, new}
use bottlerocket_test_system.Controller.Resource.Action.{
  Action, creation, destruction, DestructionAction, action,
}
use bottlerocket_test_system.Controller.Resource.Action.Waits.{ErrorState, CreationAction}
use bottlerocket_test_system.Controller.Resource.Reconcile.{
  reconcile, do_action, do_creation_action, do_destruction_action, handle_error_state, error_text,
}

-- an error that is in the status already, or has no message
abbrev is_reported : Resource → ResourceAction → ErrorState → Bool
is_reported r a ErrorState.zombie = true
is_reported r a _ = not (is_none (Resource.error r a))

-- an action that only waits
abbrev is_idle : Resource → Action → Bool
is_idle r (creation (CreationAction.wait_for_dependency d)) = true
is_idle r (creation (CreationAction.wait_for_conflict c)) = true
is_idle r (creation CreationAction.wait_for_dependent) = true
is_idle r (creation CreationAction.wait_for_creation) = true
is_idle r (creation CreationAction.done) = true
is_idle r (creation (CreationAction.error e)) = is_reported r ResourceAction.create e
is_idle r (destruction DestructionAction.wait) = true
is_idle r (destruction (DestructionAction.error e)) = is_reported r ResourceAction.destroy e
is_idle r _ = false

module _ {W : Type 0} (k : Cluster W) (r : ResourceInterface) (w : W) where
  do_creation_action-idle :
      (a : CreationAction)
      → is_idle r.resource (creation a) ≡ true
      → do_creation_action k r a w ≡ (ok tt, w)
  unfolding do_creation_action handle_error_state error_text pure
  do_creation_action-idle a h = ground arith

  do_destruction_action-idle :
      (a : DestructionAction)
      → is_idle r.resource (destruction a) ≡ true
      → do_destruction_action k r a w ≡ (ok tt, w)
  unfolding do_destruction_action handle_error_state error_text pure
  do_destruction_action-idle a h = ground arith

  do_action-idle : (a : Action) → is_idle r.resource a ≡ true → do_action k r a w ≡ (ok tt, w)
  unfolding do_action
  do_action-idle (creation a) h = do_creation_action-idle a h
  do_action-idle (destruction a) h = do_destruction_action-idle a h

-- A reconciliation writes nothing and asks for the next one where its action is a wait, where the
-- resource is done, and where the action is an error that the status holds already.
pub reconcile-idle :
    {W : Type 0} (k : Cluster W) (resource : Resource) (w : W) (a : Action)
    → action k (new resource) w ≡ ok a
    → is_idle resource a ≡ true
    → reconcile k resource w ≡ (ok requeue, w)
unfolding reconcile new ◌>>=◌ read pure
reconcile-idle k resource w a e h = ground (arith, do_action-idle k (new resource) w a)
