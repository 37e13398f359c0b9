-- ===== src/Examples/Resources/Running.antt =====
-- The theorems on the limits of running jobs, at concrete resources.
use bottlerocket_test_system.Base.{◌≡◌, refl, true, some, [], ◌∷◌}
use bottlerocket_test_system.Base.Result.{ok}
use bottlerocket_test_system.Base.Duration.{pos}
use bottlerocket_test_system.Model.Constants.{finalizer_cleanup_required}
use bottlerocket_test_system.Model.Meta.{has_finalizer}
use bottlerocket_test_system.Model.Resource.{ResourceAction}
use bottlerocket_test_system.Controller.Job.{running}
use bottlerocket_test_system.Controller.Resource.Interface.{job_state}
use bottlerocket_test_system.Examples.Server.{cluster}
use bottlerocket_test_system.Examples.Resources.{
  starting, undestroyed, world, interface, job_since, reads,
}

has_cleanup : has_finalizer starting.metadata finalizer_cleanup_required ≡ true
unfolding reads
has_cleanup = refl

-- the job has been running for 70 seconds, and the timeout is a minute
running_job :
    job_state cluster
      (interface starting)
      ResourceAction.create
      (world starting (job_since "r-creation" ∷ []))
    ≡ ok (running (some (pos 70_000_000_000)))
unfolding reads
running_job = refl

running_destruction :
    job_state cluster
      (interface undestroyed)
      ResourceAction.destroy
      (world undestroyed (job_since "r-destruction" ∷ []))
    ≡ ok (running (some (pos 70_000_000_000)))
unfolding reads
running_destruction = refl
