-- ===== src/Agents/TestAgent/Retries.antt =====
-- How often a test agent runs its tests.
use bottlerocket_test_system.Base.{ℕ, zero, suc, ◌+◌, ◌≤◌, ◌≡◌, inl, inr, Bool-cases, arith}
use bottlerocket_test_system.Base.Result.{ok}
use bottlerocket_test_system.Base.Exec.{Exec, ◌>>=◌, attempt, pure}
use bottlerocket_test_system.Base.Exec.Grows.{
  Grows, Quiet, Quiet-pure, Quiet-throw, Quiet-bind, Quiet-then, Grows-bind, Grows-bind_ok,
  Grows-more, Grows-context, Grows-attempt, Grows-match_result,
}
use bottlerocket_test_system.Model.Test.{TestResults, is_pass}
use bottlerocket_test_system.Agents.TestAgent.{
  Error, Client, Runner, send_error_best_effort, terminate_best_effort, give_up, report, or_give_up,
  rerun, retry_loop, finish, allowed_retries, run_inner,
}

module _ {W E F : Type 0} (c : Client W E F) (r : Runner W F) (runs : W → ℕ) where
  -- A count of the runs: the runner's `run` and `rerun_failed` add one at most, nothing else counts.
  pub record CountsRuns : Type 0 where
    pub starting : Quiet runs c.send_test_starting
    pub update : (t : TestResults) → Quiet runs (c.send_test_update t)
    pub results : (t : TestResults) → Quiet runs (c.send_test_results t)
    pub error : (e : Error E F) → Quiet runs (c.send_error e)
    pub completed : Quiet runs c.send_test_completed
    pub retries : Quiet runs c.retries
    pub first : Grows runs 1 r.run
    pub again : (t : TestResults) → Grows runs 1 (r.rerun_failed t)
    pub terminate : Quiet runs r.terminate

  module _ (h : CountsRuns) where
    Quiet-send_error : (e : Error E F) → Quiet runs (send_error_best_effort c r e)
    unfolding send_error_best_effort
    Quiet-send_error e = Quiet-bind (Grows-attempt (h.error e)) (λ _. Quiet-pure tt)

    Quiet-terminate : Quiet runs (terminate_best_effort c r)
    unfolding terminate_best_effort
    Quiet-terminate =
        Quiet-bind (Grows-attempt (Grows-context _ h.terminate))
          λ t. Grows-match_result t (λ _. Quiet-pure tt) Quiet-send_error

    Quiet-give_up : (A : Type 0) (e : Error E F) → Quiet runs (give_up c r {A = A} e)
    unfolding give_up
    Quiet-give_up A e =
        Quiet-bind (Quiet-send_error e) λ _. Quiet-bind Quiet-terminate λ _. Quiet-throw e

    Quiet-report : (e : Error E F) → Quiet runs (report c r e)
    unfolding report
    Quiet-report e = Quiet-bind (Quiet-send_error e) λ _. Quiet-throw e

    Grows-or_give_up :
        {n : ℕ} (m : Exec W F TestResults) → Grows runs n m → Grows runs n (or_give_up c r m)
    unfolding or_give_up
    Grows-or_give_up {n} m g = Grows-more {m = n + 0} (omega arith) (
        Grows-bind (Grows-attempt (Grows-context _ g))
          λ t. Grows-match_result t Quiet-pure (Quiet-give_up TestResults))

    Grows-rerun : (t : TestResults) → Grows runs 1 (rerun c r t)
    unfolding rerun
    Grows-rerun t = Quiet-then (Grows-attempt (Grows-context _ (h.results t))) λ sent.
        Quiet-then (Grows-match_result sent (λ _. Quiet-pure tt) Quiet-send_error) λ _.
          Quiet-then (Grows-context _ (h.update _))
            λ _. Grows-or_give_up (r.rerun_failed t) (h.again t)

    Grows-retry_loop : (n : ℕ) (t : TestResults) → Grows runs n (retry_loop c r n t)
    unfolding retry_loop
    Grows-retry_loop zero t = Quiet-pure t
    Grows-retry_loop (suc n) t = elim (Bool-cases (is_pass t.outcome)) [
      | inl e ↦ rw e (Grows-more {m = 0} (omega arith) (Quiet-pure t))
      | inr e ↦
          rw e
            (Grows-more {m = 1 + n} (omega arith) (Grows-bind (Grows-rerun t) (Grows-retry_loop n)))
    ]

    Quiet-finish : (t : TestResults) → Quiet runs (finish c r t)
    unfolding finish
    Quiet-finish t = Quiet-bind (Grows-attempt (Grows-context _ (h.results t))) λ sent.
        Quiet-bind (Grows-match_result sent (λ _. Quiet-pure tt) (Quiet-give_up (Unit {0}))) λ _.
          Quiet-bind (Grows-attempt (Grows-context _ h.terminate)) λ ended.
            Quiet-bind (Grows-match_result ended (λ _. Quiet-pure tt) Quiet-report) λ _.
              Quiet-bind (Grows-attempt (Grows-context _ h.completed))
                λ done. Grows-match_result done (λ _. Quiet-pure tt) Quiet-report

    Quiet-allowed_retries : Quiet runs (allowed_retries c r)
    unfolding allowed_retries
    Quiet-allowed_retries = Quiet-bind (Grows-attempt h.retries) λ _. Quiet-pure _

    allowed_retries-le :
        (limit : ℕ)
        → ((w : W) (n : ℕ) → (c.retries w).0 ≡ ok n → n ≤ limit)
        → (w : W) (n : ℕ) → (allowed_retries c r w).0 ≡ ok n
        → n ≤ limit
    unfolding allowed_retries ◌>>=◌ attempt pure
    allowed_retries-le limit b w n e = ground (arith, b w n)

    -- When the client never allows more than `limit` retries, a test agent runs its tests `limit + 1`
    -- times at most, whatever the calls answer.
    pub run_inner-runs :
        (limit : ℕ)
        → ((w : W) (n : ℕ) → (c.retries w).0 ≡ ok n → n ≤ limit)
        → (w : W) → runs (run_inner c r w).1 ≤ runs w + (limit + 1)
    unfolding run_inner
    run_inner-runs limit b w =
        (Quiet-then (Grows-context _ h.starting) λ _. Quiet-then (Grows-context _ (h.update _)) λ _.
            Grows-more {m = 1 + (limit + 0)} (omega arith) (
              Grows-bind (Grows-or_give_up r.run h.first) λ first.
                Grows-more {m = 0 + (limit + 0)} (omega arith) (
                  Grows-bind_ok Quiet-allowed_retries λ v left e.
                    Grows-more {m = left + 0} (omega (arith, allowed_retries-le limit b v left e))
                      (Grows-bind (Grows-retry_loop left first) Quiet-finish)))).at
          w
