-- ===== src/Agents/TestAgent/Completion.antt =====
-- How a run of a test agent that succeeds ends.
use bottlerocket_test_system.Base.{
  ℕ, zero, suc, Bool, true, false, ◌≡◌, ◌∙◌, ◌⊎◌, inl, inr, refl, sym, ap, arith,
}
use bottlerocket_test_system.Base.Result.{ok}
use bottlerocket_test_system.Base.Exec.{Exec, pure, throw, context, attempt, match_result, ◌>>=◌}
use bottlerocket_test_system.Base.Exec.Runs.{Ensures, Ensures-bind, Ends, Ends-bind, chain-ok}
use bottlerocket_test_system.Model.Test.{TestResults, is_pass}
use bottlerocket_test_system.Agents.TestAgent.{
  Client, Runner, or_give_up, rerun, retry_loop, allowed_retries, send_error_best_effort,
  terminate_best_effort, give_up, report, finish, run_inner,
}

module _ {W E F : Type 0} (c : Client W E F) (r : Runner W F) where
  -- The three calls at the end of a run, from a world `v` to the last world.
  pub record Completed (t : TestResults) (v last : W) : Type 0 where
    pub sent : (c.send_test_results t v).0 ≡ ok tt
    pub terminated : (r.terminate (c.send_test_results t v).1).0 ≡ ok tt
    pub completed : (c.send_test_completed (r.terminate (c.send_test_results t v).1).1).0 ≡ ok tt
    pub ends : (c.send_test_completed (r.terminate (c.send_test_results t v).1).1).1 ≡ last

  -- `t` is what the last run of the tests answered, and `v` is the world after it, and after the
  -- number of retries was read if it was the first one.
  abbrev pub IsLast : TestResults → W → Type 0
  IsLast t v =
      ((u : W) × (before : TestResults) × ((r.rerun_failed before u).0 ≡ ok t)
        × ((r.rerun_failed before u).1 ≡ v))
      ⊎ ((u : W) × ((r.run u).0 ≡ ok t) × ((c.retries (r.run u).1).1 ≡ v))

  finish-Completed :
      (t : TestResults) (v : W) → (finish c r t v).0 ≡ ok tt → Completed t v (finish c r t v).1
  unfolding finish give_up report send_error_best_effort terminate_best_effort ◌>>=◌ attempt context
      match_result throw pure
  finish-Completed t v h = ground arith

  or_give_up-ok :
      (m : Exec W F TestResults) (w : W) (t : TestResults)
      → (or_give_up c r m w).0 ≡ ok t
      → ((m w).0 ≡ ok t) × ((or_give_up c r m w).1 ≡ (m w).1)
  unfolding or_give_up give_up ◌>>=◌ attempt context match_result throw pure
  or_give_up-ok m w t h = ground arith

  rerun-IsLast : (before : TestResults) → Ensures IsLast (rerun c r before)
  unfolding rerun
  rerun-IsLast before = Ensures-bind _ _ λ _. Ensures-bind _ _ λ _. Ensures-bind _ _ λ _. record {
    at = λ w t h.
        let a = or_give_up-ok (r.rerun_failed before) w t h in inl (w, before, a.0, sym a.1);
  }

  retry_loop-IsLast :
      (left : ℕ) (first : TestResults) (b : Bool) (w : W) (t : TestResults)
      → is_pass first.outcome ≡ b
      → IsLast first w
      → (retry_loop c r left first w).0 ≡ ok t
      → IsLast t (retry_loop c r left first w).1
  unfolding retry_loop pure
  retry_loop-IsLast zero first b w t e l h = let same : first ≡ t = cc in rw (← same) l
  retry_loop-IsLast (suc left) first true w t e l h =
      let same : first ≡ t = ground (arith, e) in rw (e, ← same) l
  retry_loop-IsLast (suc left) first false w t e l h =
      let again = rw e at h in
      let a = chain-ok (rerun c r first) (retry_loop c r left) w t again in
      let path = a.2 in
      rw (e, path)
        (retry_loop-IsLast left a.0 (is_pass (TestResults.outcome a.0)) (rerun c r first w).1 t refl
          ((rerun-IsLast first).at w a.0 a.1) a.3)

  retries-world : (v : W) → (allowed_retries c r v).1 ≡ (c.retries v).1
  unfolding allowed_retries ◌>>=◌ attempt pure
  retries-world v = refl

  -- the end of a run
  abbrev pub IsCompleted : W → Type 0
  IsCompleted last = (t : TestResults) × (v : W) × IsLast t v × Completed t v last

  -- a run from the first run of the tests on
  tested : Ends IsCompleted (
      or_give_up c r r.run >>= λ first.
      allowed_retries c r >>= λ left. retry_loop c r left first >>= finish c r)
  tested = record {
    at = λ w u h.
        let a = chain-ok (or_give_up c r r.run) _ w u h in
        let first = or_give_up-ok r.run w a.0 a.1 in
        let v = (or_give_up c r r.run w).1 in
        let b = chain-ok (allowed_retries c r) _ v u a.3 in
        let start : IsLast a.0 (allowed_retries c r v).1 =
          inr (w, first.0, sym (retries-world v ∙ ap (λ x. (c.retries x).1) first.1)) in
        let d = chain-ok (retry_loop c r b.0 a.0) (finish c r) (allowed_retries c r v).1 u b.3 in
        let last =
          retry_loop-IsLast b.0 a.0 (is_pass (TestResults.outcome a.0)) (allowed_retries c r v).1
            d.0 refl start d.1 in
        let v' = (retry_loop c r b.0 a.0 (allowed_retries c r v).1).1 in
        let path = a.2 ∙ b.2 ∙ d.2 in rw path (d.0, v', last, finish-Completed d.0 v' d.3);
  }

  -- A run that returns no error has sent the results of the last run of the tests, or of the last
  -- repetition of those that failed, directly after it; it has then ended the runner without an error,
  -- and has marked the test as completed, in this order, as its last calls.
  pub run_inner-Completed : (w : W) → (run_inner c r w).0 ≡ ok tt → IsCompleted (run_inner c r w).1
  unfolding run_inner
  run_inner-Completed w h =
      let whole = Ends-bind _ _ λ _. Ends-bind _ _ λ _. tested in whole.at w tt h
