-- ===== src/Controller/Test/Removal.antt =====
-- How the controller lets go of a test: its job first, then its finalizers.
use bottlerocket_test_system.Base.{String, ◌≡◌, ◌↔◌, true, false, Option, none, some, arith}
use bottlerocket_test_system.Base.Result.{ok}
use bottlerocket_test_system.Model.Constants.{finalizer_main, finalizer_test_job}
use bottlerocket_test_system.Model.Meta.{has_finalizer, is_delete_requested}
use bottlerocket_test_system.Model.Test.{Test}
use bottlerocket_test_system.Controller.Job.{absent}
use bottlerocket_test_system.Controller.Cluster.{Cluster}
use bottlerocket_test_system.Controller.Test.Action.{
  Action, add_main_finalizer, add_job_finalizer, remove_job_finalizer, remove_main_finalizer,
  job_state, determine_action, determine_delete_action, task_not_done_action,
}

-- the finalizer that an action adds, and the one that it removes
abbrev pub added : Action → Option String
added add_main_finalizer = some finalizer_main
added add_job_finalizer = some finalizer_test_job
added _ = none

abbrev pub removed : Action → Option String
removed remove_job_finalizer = some finalizer_test_job
removed remove_main_finalizer = some finalizer_main
removed _ = none

module _ {W : Type 0} (k : Cluster W) (t : Test) (w : W) where
  -- Nothing of the test's run is left.
  pub record IsReleased : Type 0 where
    pub requested : is_delete_requested t.metadata ≡ true
    pub no_job : job_state k t w ≡ ok absent
    pub no_job_finalizer : has_finalizer t.metadata finalizer_test_job ≡ false
    pub main_finalizer : has_finalizer t.metadata finalizer_main ≡ true

  remove_main-IsReleased : determine_action k t w ≡ ok remove_main_finalizer → IsReleased
  unfolding determine_action determine_delete_action
  remove_main-IsReleased h = ground arith

  IsReleased-remove_main : IsReleased → determine_action k t w ≡ ok remove_main_finalizer
  unfolding determine_action determine_delete_action
  IsReleased-remove_main i = ground arith

  -- The main finalizer of a test is removed exactly when its deletion was requested, the server has
  -- no job of it, the job finalizer is gone and the main finalizer is set.
  pub determine_action-remove_main :
      (determine_action k t w ≡ ok remove_main_finalizer) ↔ IsReleased
  determine_action-remove_main = (remove_main-IsReleased, IsReleased-remove_main)

  -- An action adds a finalizer only if the test does not have it.
  pub determine_action-added :
      (a : Action) (f : String)
      → determine_action k t w ≡ ok a
      → added a ≡ some f
      → has_finalizer t.metadata f ≡ false
  unfolding determine_action determine_delete_action task_not_done_action
  determine_action-added a f h e = ground arith

  -- An action removes a finalizer only if the test has it, its deletion was requested and the server
  -- has no job of it.
  pub determine_action-removed :
      (a : Action) (f : String)
      → determine_action k t w ≡ ok a
      → removed a ≡ some f
      → (has_finalizer t.metadata f ≡ true)
        × (is_delete_requested t.metadata ≡ true)
        × (job_state k t w ≡ ok absent)
  unfolding determine_action determine_delete_action task_not_done_action
  determine_action-removed a f h e = ground arith
