-- ===== src/Controller/Resource/Interface.antt =====
-- controller/src/resource_controller/context.rs: the resource that is reconciled, with the names of
-- its jobs.
use bottlerocket_test_system.Base.{String}
use bottlerocket_test_system.Base.Result.{Result, map_err}
use bottlerocket_test_system.Model.Meta.{object_name}
use bottlerocket_test_system.Model.Resource.{Resource, ResourceAction}
use bottlerocket_test_system.Model.Resource.JobName.{ResourceState, job_name}
use bottlerocket_test_system.Controller.Error.{Error, job, context}
use bottlerocket_test_system.Controller.Job.{JobState, get_job_state}
use bottlerocket_test_system.Controller.Cluster.{Cluster, quote}

pub record ResourceInterface : Type 0 where
  pub resource : Resource
  pub creation_job : String
  pub destruction_job : String

unfoldable pub new : Resource → ResourceInterface
new r = record {
  resource = r;
  creation_job = job_name r.metadata ResourceState.creation;
  destruction_job = job_name r.metadata ResourceState.destruction;
}

unfoldable pub name : ResourceInterface → String
unfolding object_name
name r = object_name r.resource.metadata

unfoldable pub job_name_of : ResourceInterface → ResourceAction → String
job_name_of r ResourceAction.create = r.creation_job
job_name_of r ResourceAction.destroy = r.destruction_job

unfoldable pub job_state :
    {W : Type 0} → Cluster W → ResourceInterface → ResourceAction → W → Result Error JobState
unfolding job_name_of
job_state k r op w =
    let name = job_name_of r op in
    map_err (λ e. context (quote "Unable to get state of job " name "") (job e))
      (get_job_state k.jobs k.now name w)
