-- ===== src/Agents/TestAgent/Waiting.antt =====
-- The wait for `keep_running` ends when the client says so.
use bottlerocket_test_system.Base.{ℕ, zero, suc, ◌<◌, false, some, ◌≡◌, ◌≢◌, arith}
use bottlerocket_test_system.Base.Result.{ok}
use bottlerocket_test_system.Base.Exec.{◌>>=◌, attempt, pure}
use bottlerocket_test_system.Agents.TestAgent.{
  Client, Runner, keep_running, wait_loop, run, run_inner, tar_results, first_error,
}

module _ {W E F : Type 0} (c : Client W E F) (r : Runner W F) (polls : W → ℕ) where
  -- Each answer but the last counts down the polls that are left, and the last one is false.
  pub record Stops : Type 0 where
    pub last : (w : W) → polls w ≡ 0 → (c.keep_running w).0 ≡ ok false
    pub next : (w : W) → polls w ≢ 0 → polls (c.keep_running w).1 < polls w

  module _ (h : Stops) where
    wait_loop-ends :
        (rounds : ℕ) (w : W) → polls w < rounds → (wait_loop c r rounds w).0 ≡ ok (some tt)
    unfolding wait_loop keep_running ◌>>=◌ attempt pure
    wait_loop-ends zero w l = ground arith
    wait_loop-ends (suc n) w l =
        ground (arith, wait_loop-ends n (c.keep_running w).1, h.last w, h.next w)

    -- Where fewer polls than `rounds` are left after the archive was made and the first poll was
    -- answered, `run` returns. Its result is the error of the test, or else that of the archive.
    run-returns :
        (rounds : ℕ) (w : W)
        → polls (c.keep_running (tar_results c r (run_inner c r w).1).1).1 < rounds
        → (run c r rounds w).0
          ≡ ok (some (first_error c r (run_inner c r w).0 (tar_results c r (run_inner c r w).1).0))
    unfolding run keep_running ◌>>=◌ attempt pure
    run-returns rounds w l =
        let v = (tar_results c r (run_inner c r w).1).1 in
        ground (arith, wait_loop-ends rounds (c.keep_running v).1 l)
