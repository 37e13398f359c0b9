-- ===== src/Controller/Job.antt =====
-- controller/src/job/mod.rs: the state of a Kubernetes job, its deletion and its logs.
pub mod Builder
pub mod States
pub mod Secrets
use bottlerocket_test_system.Base.{
  ℕ, ◌+◌, ◌%◌, ◌^◌, String, Bool, true, false, Option, List, [], ◌∷◌, ◌==◌, unwrap_or, str_eq,
  if◌then◌else◌,
}
use mathlib.Core.Option
use bottlerocket_test_system.Base.Result.{Result, ok, err, map_err}
use bottlerocket_test_system.Base.Exec.{Exec, pure, throw, context, read, ◌>>=◌, ◌>>◌}
use bottlerocket_test_system.Base.Duration.{ℤ, sub_ℕ, from_secs}
use bottlerocket_test_system.Kube.{KubeError, Api}
use bottlerocket_test_system.Controller.Error.{
  JobError, already_exists, missing, delete_error, get_error, too_many_job_containers, no_pods,
  no_logs, create_log_group, create_log_stream, create_log_event,
}
use bottlerocket_test_system.Controller.Job.Builder.{Job, JobStatus}

-- The maximum time for an agent to begin running.
abbrev pub test_start_time_limit : ℕ
test_start_time_limit = from_secs 30

-- `JobState`; `absent` is its `None`.
pub data JobState : Type 0 where
  absent unknown failed exited : JobState
  running : Option ℤ → JobState

-- `matches!(state, JobState::None)`
abbrev pub is_absent : JobState → Bool
is_absent absent = true
is_absent _ = false

-- A sum of `i32`, as a bit pattern; it wraps in a release build.
abbrev add_i32 : ℕ → ℕ → ℕ
add_i32 a b = (a + b) % 2 ^ 32

-- the state by the counts, at the time `now`
pub counted_state :
    ℕ → String → Option ℕ → (active succeeded failures : ℕ) → Result JobError JobState
counted_state now name start active succeeded failures =
    let count = add_i32 (add_i32 active succeeded) failures in
    if count == 0
    then ok unknown
    else if count == 1
    then if active == 1
      then ok (running (Option.map (λ t. sub_ℕ now t) start))
      else if succeeded == 1
      then ok exited
      else ok failed
    else err (too_many_job_containers name active succeeded failures)

pub parse_job_state : ℕ → Job → Result JobError JobState
unfolding counted_state
parse_job_state now j = elim j.status [
  | Option.none ↦ ok unknown
  | Option.some s ↦
      counted_state now (unwrap_or "unknown" j.name) s.start_time (unwrap_or 0 s.active)
        (unwrap_or 0 s.succeeded) (unwrap_or 0 s.failed)
]

-- a job that the server does not have is no error
job_state_of : ℕ → Result JobError Job → Result JobError JobState
unfolding parse_job_state
job_state_of now (ok j) = parse_job_state now j
job_state_of now (err (missing e)) = ok absent
job_state_of now (err e) = err e

unfoldable pub get_job_state :
    {W : Type 0} → Api W Job → (W → ℕ) → String → W → Result JobError JobState
unfolding job_state_of get_error
get_job_state jobs now name w = job_state_of (now w) (map_err get_error (jobs.get name w))

deleted : Result JobError (Option Job) → Result JobError (Unit {0})
deleted (ok j) = ok tt
deleted (err (missing e)) = ok tt
deleted (err e) = err e

unfoldable pub delete_job : {W : Type 0} → Api W Job → String → Exec W JobError (Unit {0})
unfolding deleted delete_error
delete_job jobs name w = let r = context delete_error (jobs.delete name) w in (deleted r.0, r.1)

-- The environment, the pods and the log service that `archive_logs` calls. An error of
-- `create_log_group` says whether the group exists, and carries its message.
pub record LogArchive (W : Type 0) : Type 0 where
  pub archive_logs_var : W → Option String
  pub create_log_group : Exec W (Bool × String) (Unit {0})
  pub pod_names : String → W → Result KubeError (List String)
  pub logs : String → W → Result KubeError String
  pub unix_time : W → Result JobError ℕ
  pub stream_name : String → ℕ → String
  pub create_log_stream : String → Exec W (Unit {0}) (Unit {0})
  pub put_log_events : String → String → Exec W (Unit {0}) (Unit {0})

first_pod : String → Result KubeError (List String) → Result JobError String
first_pod job (ok []) = err (no_pods job)
first_pod job (ok (p ∷ ps)) = ok p
first_pod job (err e) = err (missing e)

module _ {W : Type 0} (a : LogArchive W) where
  get_pod : String → W → Result JobError String
  unfolding first_pod
  get_pod job w = first_pod job (a.pod_names job w)

  pod_logs : String → W → Result JobError String
  pod_logs pod w = map_err (no_logs pod) (a.logs pod w)

  -- the test of the environment variable
  unfoldable pub archive_wanted : W → Bool
  archive_wanted w = elim (a.archive_logs_var w) [
    | Option.none ↦ false
    | Option.some s ↦ str_eq s "true"
  ]

  archive_steps : String → Exec W JobError (Unit {0})
  unfolding get_pod pod_logs
  archive_steps job = do
    context (λ e. create_log_group "testsys" e.1) a.create_log_group
    pod ← read (get_pod job)
    text ← read (pod_logs pod)
    time ← read a.unix_time
    let name = a.stream_name job time
    context (λ _. create_log_stream name) (a.create_log_stream name)
    context (λ _. create_log_event name) (a.put_log_events name text)

  unfoldable pub archive_logs : String → Exec W JobError (Unit {0})
  unfolding archive_wanted archive_steps
  archive_logs job w = if archive_wanted w then archive_steps job w else pure tt w
