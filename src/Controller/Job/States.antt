-- ===== src/Controller/Job/States.antt =====
-- The states of a job by the counts of its containers, and what a missing job means.
use bottlerocket_test_system.Base.{
  ℕ, ◌+◌, ◌^◌, ◌≤◌, ◌<◌, String, ◌≡◌, ◌≢◌, ◌↔◌, refl, true, Option, arith,
}
use mathlib.Core.Option
use bottlerocket_test_system.Base.Result.{Result, ok, err, map_err}
use bottlerocket_test_system.Base.Exec.{context}
use bottlerocket_test_system.Base.Duration.{sub_ℕ}
use bottlerocket_test_system.Kube.{KubeError, Api}
use bottlerocket_test_system.Clients.HttpStatusCode.{kube_error_status, is_status_code, not_found}
use bottlerocket_test_system.Controller.Error.{
  JobError, too_many_job_containers, get_error, delete_error,
}
use bottlerocket_test_system.Controller.Job.Builder.{Job}
use bottlerocket_test_system.Controller.Job.{
  JobState, absent, unknown, failed, exited, running, counted_state, get_job_state, parse_job_state,
  job_state_of, deleted, delete_job,
}

-- The state that the counts of active, succeeded and failed containers stand for.
record Counted (result : Result JobError JobState) (now : ℕ) (name : String) (start : Option ℕ)
    (a s f : ℕ) : Type 0 where
  pub not_started : (result ≡ ok unknown) ↔ (a + s + f ≡ 0)
  pub is_active :
      (result ≡ ok (running (Option.map (λ t. sub_ℕ now t) start))) ↔ (a ≡ 1) × (s ≡ 0) × (f ≡ 0)
  pub has_exited : (result ≡ ok exited) ↔ (a ≡ 0) × (s ≡ 1) × (f ≡ 0)
  pub has_failed : (result ≡ ok failed) ↔ (a ≡ 0) × (s ≡ 0) × (f ≡ 1)
  pub too_many : (result ≡ err (too_many_job_containers name a s f)) ↔ (2 ≤ a + s + f)

-- While the sum of the counts does not wrap, the state is decided by them: no container yet, one
-- active, one succeeded, one failed, or an error for two and more.
counted_state-Counted :
    (now : ℕ) (name : String) (start : Option ℕ) (a s f : ℕ)
    → a + s + f < 2 ^ 32
    → Counted (counted_state now name start a s f) now name start a s f
unfolding counted_state
counted_state-Counted now name start a s f h = record {
  not_started = (λ e. ground arith, λ e. ground arith);
  is_active = (λ e. ground arith, λ e. ground arith);
  has_exited = (λ e. ground arith, λ e. ground arith);
  has_failed = (λ e. ground arith, λ e. ground arith);
  too_many = (λ e. ground arith, λ e. ground arith);
}

-- A job that the server has is never reported as absent.
parse_job_state-exists : (now : ℕ) (j : Job) → parse_job_state now j ≢ ok absent
unfolding parse_job_state
parse_job_state-exists now j h = ground arith

absent_answer :
    (now : ℕ) (g : Result KubeError Job)
    → job_state_of now (map_err get_error g) ≡ ok absent
    → (e : KubeError) × (g ≡ err e) × (is_status_code e not_found ≡ true)
unfolding job_state_of get_error
absent_answer now (ok j) h = absurd (parse_job_state-exists now j h)
absent_answer now (err e) h = (e, refl, ground arith)

-- The answers of the server to a deletion that are a success.
abbrev IsDeleted : Result KubeError (Option Job) → Type 0
IsDeleted (ok o) = Unit
IsDeleted (err e) = is_status_code e not_found ≡ true

deleted-IsDeleted :
    (g : Result KubeError (Option Job)) → (deleted (map_err delete_error g) ≡ ok tt) ↔ IsDeleted g
unfolding deleted delete_error
deleted-IsDeleted (ok o) = (λ h. tt, λ h. refl)
deleted-IsDeleted (err e) = (λ h. ground arith, λ h. ground arith)

module _ {W : Type 0} (jobs : Api W Job) (now : W → ℕ) (name : String) (w : W) where
  not_found-absent :
      (e : KubeError)
      → jobs.get name w ≡ err e
      → is_status_code e not_found ≡ true
      → get_job_state jobs now name w ≡ ok absent
  unfolding get_job_state
  not_found-absent e h s = ground arith

  -- A job is reported as absent exactly if the server answers 404.
  get_job_state-absent :
      (get_job_state jobs now name w ≡ ok absent)
      ↔ ((e : KubeError) × (jobs.get name w ≡ err e) × (is_status_code e not_found ≡ true))
  get_job_state-absent = (
    λ h. absent_answer (now w) (jobs.get name w) (unfold get_job_state in h),
    λ h. not_found-absent h.0 h.1 h.2,
  )

-- A deletion succeeds exactly if the server's call succeeds or is answered 404, and it leaves the
-- world that this call leaves.
delete_job-ok :
    {W : Type 0} (jobs : Api W Job) (name : String) (w : W)
    → (((delete_job jobs name w).0 ≡ ok tt) ↔ IsDeleted (jobs.delete name w).0)
      × ((delete_job jobs name w).1 ≡ (jobs.delete name w).1)
unfolding delete_job context
delete_job-ok jobs name w = (deleted-IsDeleted (jobs.delete name w).0, refl)
