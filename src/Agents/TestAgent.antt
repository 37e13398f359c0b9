-- ===== src/Agents/TestAgent.antt =====
-- agent/test-agent/src/agent.rs: the run of a test, with its retries. The traits `Client` and
-- `Runner` are records of calls; the errors are those of the client `E` and of the runner `F`.
pub mod Retries
pub mod Completion
pub mod Waiting
pub mod DefaultClient
use bottlerocket_test_system.Base.{
  ℕ, zero, suc, String, Bool, true, Option, none, some, if◌then◌else◌,
}
use bottlerocket_test_system.Base.Result.{Result, ok, err, ok_or}
use bottlerocket_test_system.Base.Exec.{
  Exec, pure, throw, context, attempt, match_result, ◌>>=◌, ◌>>◌,
}
use bottlerocket_test_system.Model.Test.{TestResults, in_progress, is_pass, default_test_results}

pub data Error (E F : Type 0) : Type 0 where
  agent : String → Error E F
  client : E → Error E F
  runner : F → Error E F

-- the methods of `Client` that `run` calls, in a world `W`
pub record Client (W E F : Type 0) : Type 0 where
  pub send_test_starting : Exec W E (Unit {0})
  pub send_test_update : TestResults → Exec W E (Unit {0})
  pub send_test_results : TestResults → Exec W E (Unit {0})
  pub send_error : Error E F → Exec W E (Unit {0})
  pub send_test_completed : Exec W E (Unit {0})
  pub retries : Exec W E ℕ
  pub keep_running : Exec W E Bool
  pub results_directory : Exec W E String
  pub results_file : Exec W E String

-- `Runner`, and the file system calls that write the archive of a directory into a file
pub record Runner (W F : Type 0) : Type 0 where
  pub run : Exec W F TestResults
  pub rerun_failed : TestResults → Exec W F TestResults
  pub terminate : Exec W F (Unit {0})
  pub archive : String → String → Exec W String (Unit {0})

-- an update of a run that goes on
abbrev pub progress : String → TestResults
progress info = record default_test_results { outcome = in_progress; other_info = some info }

module _ {W E F : Type 0} (c : Client W E F) (r : Runner W F) where
  pub send_error_best_effort : Error E F → Exec W (Error E F) (Unit {0})
  send_error_best_effort e = do sent ← attempt (c.send_error e); pure tt

  pub terminate_best_effort : Exec W (Error E F) (Unit {0})
  unfolding send_error_best_effort
  terminate_best_effort = do
    terminated ← attempt (context runner r.terminate)
    match_result terminated (λ u. pure tt) send_error_best_effort

  -- reports an error, ends the runner and returns the error
  pub give_up : {A : Type 0} → Error E F → Exec W (Error E F) A
  unfolding send_error_best_effort terminate_best_effort
  give_up e = do send_error_best_effort e; terminate_best_effort; throw e

  -- reports an error and returns it
  unfoldable pub report : Error E F → Exec W (Error E F) (Unit {0})
  unfolding send_error_best_effort
  report e = do send_error_best_effort e; throw e

  -- a run whose error ends the test
  pub or_give_up : Exec W F TestResults → Exec W (Error E F) TestResults
  unfolding give_up
  or_give_up m = do results ← attempt (context runner m); match_result results pure give_up

  -- one round of the loop: the results are sent, and the failed tests are run again
  pub rerun : TestResults → Exec W (Error E F) TestResults
  unfolding or_give_up send_error_best_effort
  rerun results = do
    sent ← attempt (context client (c.send_test_results results))
    match_result sent (λ u. pure tt) send_error_best_effort
    context client (c.send_test_update (progress "Rerunning Test"))
    or_give_up (r.rerun_failed results)

  -- The loop, by the number of retries that are left.
  pub retry_loop : ℕ → TestResults → Exec W (Error E F) TestResults
  unfolding rerun
  retry_loop zero results = pure results
  retry_loop (suc left) results =
      let again = rerun results >>= retry_loop left in
      if is_pass results.outcome then pure results else again

  -- what follows the last run
  unfoldable pub finish : TestResults → Exec W (Error E F) (Unit {0})
  unfolding give_up report
  finish results = do
    sent ← attempt (context client (c.send_test_results results))
    match_result sent (λ u. pure tt) give_up
    terminated ← attempt (context runner r.terminate)
    match_result terminated (λ u. pure tt) report
    completed ← attempt (context client c.send_test_completed)
    match_result completed (λ u. pure tt) report

  -- the number of retries, zero if it cannot be read
  pub allowed_retries : Exec W (Error E F) ℕ
  allowed_retries = do answer ← attempt c.retries; pure (ok_or 0 answer)

  unfoldable pub run_inner : Exec W (Error E F) (Unit {0})
  unfolding or_give_up retry_loop finish allowed_retries
  run_inner = do
    context client c.send_test_starting
    context client (c.send_test_update (progress "Starting Test"))
    first ← or_give_up r.run
    left ← allowed_retries
    last ← retry_loop left first
    finish last

  unfoldable pub tar_results : Exec W (Error E F) (Unit {0})
  tar_results = do
    dir ← context client c.results_directory
    file ← context client c.results_file
    context agent (r.archive dir file)

  unfoldable pub keep_running : Exec W (Error E F) Bool
  keep_running = do answer ← attempt c.keep_running; pure (ok_or true answer)

  -- The loop that waits for `keep_running` to become false, for a number of rounds: `none` says
  -- that they were not enough.
  unfoldable pub wait_loop : ℕ → Exec W (Error E F) (Option (Unit {0}))
  unfolding keep_running
  wait_loop zero = pure none
  wait_loop (suc rounds) = do
    kept ← keep_running
    let again = wait_loop rounds
    if kept then again else pure (some tt)

  -- `run`: the error of the test comes before that of the archive.
  pub first_error :
      Result (Error E F) (Unit {0}) → Result (Error E F) (Unit {0}) → Result (Error E F) (Unit {0})
  first_error (err e) tar = err e
  first_error (ok u) tar = tar

  pub run : ℕ → Exec W (Error E F) (Option (Result (Error E F) (Unit {0})))
  unfolding run_inner tar_results keep_running wait_loop first_error
  run rounds = do
    result ← attempt run_inner
    tar ← attempt tar_results
    kept ← keep_running
    waited ← (if kept then wait_loop rounds else pure (some tt))
    pure (elim waited [ none ↦ none | some u ↦ some (first_error result tar) ])
