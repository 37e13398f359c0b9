-- ===== src/Controller/Resource/Limits.antt =====
-- What a running job leads to: the time limits of the agent and of its start.
use bottlerocket_test_system.Base.{
  ℕ, ◌≤◌, ◌<◌, String, ◌≡◌, ◌≢◌, refl, sym, ◌↔◌, ◌⊎◌, Bool, true, false, ◌&&◌, Option, none, some,
  leb, if◌then◌else◌, arith,
}
use bottlerocket_test_system.Base.Result.{Result, ok, ok-injective}
use bottlerocket_test_system.Base.Duration.{pos}
use bottlerocket_test_system.Model.Agent.{TaskState, task_state_eq}
use bottlerocket_test_system.Model.Constants.{finalizer_creation_job, finalizer_cleanup_required}
use bottlerocket_test_system.Model.Meta.{has_finalizer}
use bottlerocket_test_system.Model.Resource.{
  ResourceAction, creation_task_state, destruction_task_state,
}
use bottlerocket_test_system.Controller.Error.{Error}
use bottlerocket_test_system.Controller.Utils.{parse_duration}
use bottlerocket_test_system.Controller.Job.{running, test_start_time_limit}
use bottlerocket_test_system.Controller.Cluster.{Cluster, exceeds_timeout}
use bottlerocket_test_system.Controller.Resource.Interface.{ResourceInterface, job_state}
use bottlerocket_test_system.Controller.Resource.Action.{
  DestructionAction, creation_not_done_action, destruction_not_done_action,
}
use bottlerocket_test_system.Controller.Resource.Action.Waits.{
  CreationAction, job_timeout, job_start,
}

-- A job has run longer than its agent's timeout, which is a well-formed text.
abbrev pub IsOver : Option String → ℕ → Type 0
IsOver none n = ⊥
IsOver (some s) n = (t : ℕ) × (parse_duration s ≡ ok t) × (t < n)

-- An agent that has not reported anything has used up the time to start.
abbrev IsLate : TaskState → ℕ → Type 0
IsLate s n = (s ≡ TaskState.unknown) × (test_start_time_limit ≤ n)

IsOver-exceeds_timeout : (o : Option String) (n : ℕ) → IsOver o n → exceeds_timeout o (pos n) ≡ true
unfolding exceeds_timeout
IsOver-exceeds_timeout none n h = absurd h
IsOver-exceeds_timeout (some s) n (t, e, l) = ground arith

exceeds_timeout-IsOver : (o : Option String) (n : ℕ) → exceeds_timeout o (pos n) ≡ true → IsOver o n
unfolding exceeds_timeout
exceeds_timeout-IsOver none n h = cc
exceeds_timeout-IsOver (some s) n h = ground arith

-- The answers to a job that has been running for `n`: by the timeout, by the time to start, or
-- to wait on.
pub record Limits {A : Type 0} (result : Result Error A) (timeout start wait : A)
    (limit : Option String) (s : TaskState) (n : ℕ) : Type 0 where
  pub over : (result ≡ ok timeout) ↔ IsOver limit n
  pub late : (result ≡ ok start) ↔ (¬ IsOver limit n) × IsLate s n
  pub waits : (result ≡ ok wait) ↔ (¬ IsOver limit n) × (¬ IsLate s n)

-- the test of the time to start
abbrev late_test : TaskState → ℕ → Bool
late_test s n = task_state_eq s TaskState.unknown && leb test_start_time_limit n

late_test-IsLate : (s : TaskState) (n : ℕ) → late_test s n ≡ true → IsLate s n
late_test-IsLate TaskState.unknown n h = ground arith
late_test-IsLate TaskState.running n h = cc
late_test-IsLate _ n h = cc

IsLate-late_test : (s : TaskState) (n : ℕ) → IsLate s n → late_test s n ≡ true
IsLate-late_test TaskState.unknown n h = ground arith
IsLate-late_test TaskState.running n h = cc
IsLate-late_test _ n h = cc

-- the two tests, one after the other
abbrev answer : {A : Type 0} → (timeout start wait : A) → Bool → Bool → A
answer timeout start wait o l = if o then timeout else if l then start else wait

module _ {A : Type 0} (timeout start wait : A) (limit : Option String) (s : TaskState) (n : ℕ) where
  Limits-of :
      (o l : Bool)
      → (o ≡ true → IsOver limit n)
      → (IsOver limit n → o ≡ true)
      → (l ≡ true → IsLate s n)
      → (IsLate s n → l ≡ true)
      → timeout ≢ start
      → timeout ≢ wait
      → start ≢ wait
      → Limits (ok (answer timeout start wait o l)) timeout start wait limit s n
  Limits-of true l f g p q d e c = record {
    over = (λ _. f refl, λ _. refl);
    late = (λ h. absurd (d (ok-injective h)), λ h. absurd (h.0 (f refl)));
    waits = (λ h. absurd (e (ok-injective h)), λ h. absurd (h.0 (f refl)));
  }
  Limits-of false true f g p q d e c = record {
    over = (λ h. absurd (d (sym (ok-injective h))), λ h. cc (g h));
    late = (λ _. (λ h. cc (g h), p refl), λ _. refl);
    waits = (λ h. absurd (c (ok-injective h)), λ h. absurd (h.1 (p refl)));
  }
  Limits-of false false f g p q d e c = record {
    over = (λ h. absurd (e (sym (ok-injective h))), λ h. cc (g h));
    late = (λ h. absurd (c (sym (ok-injective h))), λ h. cc (q h.1));
    waits = (λ _. (λ h. cc (g h), λ h. cc (q h)), λ _. refl);
  }

module _ {W : Type 0} (k : Cluster W) (r : ResourceInterface) (w : W) (n : ℕ) where
  creation_answer :
      (b : Bool)
      → (b ≡ true) ⊎ (has_finalizer r.resource.metadata finalizer_creation_job ≡ true)
      → has_finalizer r.resource.metadata finalizer_cleanup_required ≡ true
      → job_state k r ResourceAction.create w ≡ ok (running (some (pos n)))
      → creation_not_done_action k r w b
        ≡ ok (
            answer
              (CreationAction.error job_timeout)
              (CreationAction.error job_start)
              CreationAction.wait_for_creation
              (exceeds_timeout r.resource.spec.agent.timeout (pos n))
              (late_test (creation_task_state r.resource) n))
  unfolding creation_not_done_action
  creation_answer b f g h = ground arith

  destruction_answer :
      (b : Bool)
      → job_state k r ResourceAction.destroy w ≡ ok (running (some (pos n)))
      → destruction_not_done_action k r w b
        ≡ ok (
            answer
              (DestructionAction.error job_timeout)
              (DestructionAction.error job_start)
              DestructionAction.wait
              (exceeds_timeout r.resource.spec.agent.timeout (pos n))
              (late_test (destruction_task_state r.resource) n))
  unfolding destruction_not_done_action
  destruction_answer b h = ground arith

  -- A creation whose job has been running for `n` nanoseconds, with its guards passed, ends with the
  -- timeout error exactly when `n` is above the agent's timeout, ends with the start error exactly
  -- when it is not and the task is still in its initial state after the time to start, and waits on
  -- exactly when neither is the case.
  pub creation_not_done_action-Limits :
      (is_running : Bool)
      → (is_running ≡ true) ⊎ (has_finalizer r.resource.metadata finalizer_creation_job ≡ true)
      → has_finalizer r.resource.metadata finalizer_cleanup_required ≡ true
      → job_state k r ResourceAction.create w ≡ ok (running (some (pos n)))
      → Limits
          (creation_not_done_action k r w is_running)
          (CreationAction.error job_timeout)
          (CreationAction.error job_start)
          CreationAction.wait_for_creation
          r.resource.spec.agent.timeout
          (creation_task_state r.resource)
          n
  creation_not_done_action-Limits is_running f g h =
      let limit = r.resource.spec.agent.timeout in
      let s = creation_task_state r.resource in
      rw (creation_answer is_running f g h) (
        Limits-of _ _ _ limit s n (exceeds_timeout limit (pos n)) (late_test s n)
          (exceeds_timeout-IsOver limit n) (IsOver-exceeds_timeout limit n) (late_test-IsLate s n)
          (IsLate-late_test s n) (λ e. cc) (λ e. cc) (λ e. cc))

  -- A destruction whose job has been running for `n` nanoseconds keeps the same limits.
  pub destruction_not_done_action-Limits :
      (is_running : Bool)
      → job_state k r ResourceAction.destroy w ≡ ok (running (some (pos n)))
      → Limits
          (destruction_not_done_action k r w is_running)
          (DestructionAction.error job_timeout)
          (DestructionAction.error job_start)
          DestructionAction.wait
          r.resource.spec.agent.timeout
          (destruction_task_state r.resource)
          n
  destruction_not_done_action-Limits is_running h =
      let limit = r.resource.spec.agent.timeout in
      let s = destruction_task_state r.resource in
      rw (destruction_answer is_running h) (
        Limits-of _ _ _ limit s n (exceeds_timeout limit (pos n)) (late_test s n)
          (exceeds_timeout-IsOver limit n) (IsOver-exceeds_timeout limit n) (late_test-IsLate s n)
          (IsLate-late_test s n) (λ e. cc) (λ e. cc) (λ e. cc))
