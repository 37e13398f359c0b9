-- ===== src/Controller/Resource/Creation.antt =====
-- When the controller starts the job that creates a resource, whatever else it may decide.
use bottlerocket_test_system.Base.{◌≡◌, ◌≢◌, ◌↔◌, inl, inr, Bool, false, Bool-cases, arith}
use bottlerocket_test_system.Base.Result.{ok, err, Result-cases}
use bottlerocket_test_system.Model.Meta.{is_delete_requested}
use bottlerocket_test_system.Controller.Error.{Error}
use bottlerocket_test_system.Controller.Cluster.{Cluster}
use bottlerocket_test_system.Controller.Resource.Interface.{ResourceInterface, name}
use bottlerocket_test_system.Controller.Resource.Action.{creation, action, creation_action}
use bottlerocket_test_system.Controller.Resource.Action.Waits.{start_job, is_deletion_required}
use bottlerocket_test_system.Controller.Resource.Policy.{MustDelete, is_deletion_required_iff}
use bottlerocket_test_system.Controller.Resource.Start.{
  MayStart, IsWanted, creation_action-start_job,
}

module _ {W : Type 0} (k : Cluster W) (r : ResourceInterface) (w : W) where
  -- Nobody wants the resource to be deleted, and its creation may start.
  pub record MayCreate : Type 0 where
    pub not_requested : is_delete_requested r.resource.metadata ≡ false
    pub kept : ¬ MustDelete k r w
    pub may_start : MayStart k r w

  -- What is read of a resource that is wanted is enough to decide about the policy.
  wanted-decides : {e : Error} → IsWanted k w (name r) → is_deletion_required k r w ≢ err e
  unfolding is_deletion_required
  wanted-decides (rs, g, inl d) h = ground arith
  wanted-decides (rs, g, inr (ts, f, q)) h = ground arith

  decided : MayStart k r w → (b : Bool) × (is_deletion_required k r w ≡ ok b)
  decided m = elim (Result-cases (is_deletion_required k r w)) [
    | inl (e, h) ↦ absurd (wanted-decides m.wanted h)
    | inr x ↦ x
  ]

  not_required : MayCreate → is_deletion_required k r w ≡ ok false
  not_required m =
      let d = decided m.may_start in
      elim (Bool-cases d.0) [
        | inl e ↦ absurd (m.kept ((is_deletion_required_iff k r w).0 (ground (arith, d.1, e))))
        | inr e ↦ ground (arith, d.1, e)
      ]

  start_job-parts :
      action k r w ≡ ok (creation start_job)
      → (is_delete_requested r.resource.metadata ≡ false)
        × (is_deletion_required k r w ≡ ok false)
        × (creation_action k r w ≡ ok start_job)
  unfolding action
  start_job-parts h = ground arith

  start_job-MayCreate : action k r w ≡ ok (creation start_job) → MayCreate
  start_job-MayCreate h =
      let p = start_job-parts h in
      record {
        not_requested = p.0;
        kept = λ m. let e = (is_deletion_required_iff k r w).1 m in absurd (ground (arith, e, p.1));
        may_start = (creation_action-start_job k r w).0 p.2;
      }

  MayCreate-start_job : MayCreate → action k r w ≡ ok (creation start_job)
  unfolding action
  MayCreate-start_job m =
      ground
        (arith, m.not_requested, not_required m, (creation_action-start_job k r w).1 m.may_start)

  -- The controller starts the creation job exactly when the deletion was not requested and the policy
  -- does not ask for it, the status is there, every dependency was created, every conflicting resource
  -- is gone, some resource or test wants the resource, the creation task is in its initial state, both
  -- finalizers that guard a creation are set, and the server has no creation job.
  pub action-start_job : (action k r w ≡ ok (creation start_job)) ↔ MayCreate
  action-start_job = (start_job-MayCreate, MayCreate-start_job)
