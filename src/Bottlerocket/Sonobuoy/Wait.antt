-- ===== src/Bottlerocket/Sonobuoy/Wait.antt =====
-- bottlerocket/agents/src/sonobuoy.rs: the waits for sonobuoy and its results. Programs that are run, the
-- parser of JSON, the updates that are sent and the credentials are calls of a world. A wait takes a
-- number of rounds; an answer `none` means that they were not enough.
pub mod Finished
pub mod GivesUp
use Prim.Native.String.{◌++◌ as concat}
use bottlerocket_test_system.Base.{
  ℕ, zero, suc, ◌+◌, ◌-◌, String, Bool, true, false, not, ◌&&◌, Option, none, some, List, [], ◌∷◌,
  ◌++◌, ltb, ◌==◌, str_eq, if◌then◌else◌,
}
use bottlerocket_test_system.Base.Result.{Result, ok, err, ok_or}
use bottlerocket_test_system.Base.Exec.{Exec, ◌>>=◌, ◌>>◌, pure, throw, context, attempt}
use bottlerocket_test_system.Model.Json.{Value, string}
use bottlerocket_test_system.Model.Test.{TestResults, Outcome}
use bottlerocket_test_system.Bottlerocket.Sonobuoy.{
  Error, sonobuoy_process, sonobuoy_run, sonobuoy_status, aws, get,
  process_incomplete_sonobuoy_test_results,
}

-- What the waits call in a world. A program answers whether it succeeded, and its output.
pub record Calls (W : Type 0) : Type 0 where
  pub output : List String → Exec W String (Bool × String)
  pub from_str : String → Result String Value
  pub send_test_update : TestResults → Exec W String (Unit {0})
  pub aws_config : Exec W String (Unit {0})
  pub sleep : ℕ → W → W
  pub show : ℕ → String

-- the arguments `status --json`, with the namespace if there is one
abbrev pub status_args : String → Option String → List String
status_args kubeconfig none = "--kubeconfig" ∷ kubeconfig ∷ "status" ∷ "--json" ∷ []
status_args kubeconfig (some n) =
    "--kubeconfig" ∷ kubeconfig ∷ "--namespace" ∷ n ∷ "status" ∷ "--json" ∷ []

-- the test of the status field
abbrev pub is_other : Value → Bool
is_other (string s) = not (str_eq s "running") && not (str_eq s "post-processing")
is_other _ = true

abbrev pub is_done : Value → Bool
is_done v = elim (get "status" v) [ none ↦ false | some s ↦ is_other s ]

-- the variables of the loop
pub record Waiting : Type 0 where
  pub results : TestResults
  pub retries : ℕ
  pub credential_refresh_countdown : ℕ

abbrev pub in_progress : String → TestResults
in_progress info = record {
  outcome = Outcome.in_progress;
  num_passed = 0;
  num_failed = 0;
  num_skipped = 0;
  other_info = some info;
}

module _ {W : Type 0} (c : Calls W) (args : List String) where
  -- one call of `sonobuoy status`
  pub read_status : Exec W Error String
  read_status = do
    run_result ← context sonobuoy_process (c.output args)
    if run_result.0 then pure run_result.1 else throw sonobuoy_run

  pub pause : Exec W Error (Unit {0})
  pause w = (ok tt, c.sleep 30_000 w)

  -- an update whose error is only logged
  pub update : TestResults → Exec W Error (Unit {0})
  update r = do sent ← attempt (c.send_test_update r); pure tt

  unfoldable pub wait_for_sonobuoy_status : ℕ → Exec W Error (Option (Unit {0}))
  unfolding read_status pause
  wait_for_sonobuoy_status zero = pure none
  wait_for_sonobuoy_status (suc rounds) = do
    stdout ← read_status
    elim (c.from_str stdout) [
      | ok v ↦ pure (some tt)
      | err e ↦ do pause; wait_for_sonobuoy_status rounds
    ]

  -- new credentials after 50 rounds
  pub refresh : ℕ → Exec W Error ℕ
  refresh zero = do context aws c.aws_config; pure 50
  refresh (suc n) = pure (suc n)

  -- a status that is no JSON
  pub retry : Waiting → ℕ → Exec W Error Waiting
  unfolding update pause
  retry s countdown = do
    let results = record (s.results) {
      other_info = some (concat "Status failed '" (concat (c.show s.retries) "'"));
    }
    update results
    pause
    pure (record {
      results = results;
      retries = s.retries + 1;
      credential_refresh_countdown = countdown;
    })

  -- a status of a run that goes on
  pub go_on : Waiting → ℕ → Value → Exec W Error Waiting
  unfolding update pause
  go_on s countdown run_status = do
    let results = ok_or s.results (process_incomplete_sonobuoy_test_results run_status)
    update results
    pause
    pure (record { results = results; retries = 0; credential_refresh_countdown = countdown - 1 })

  -- what follows from the parsed status; `none` is the end of the wait
  pub judge : Waiting → ℕ → Result String Value → Exec W Error (Option Waiting)
  unfolding retry go_on
  judge s countdown (err e) = do next ← retry s countdown; pure (some next)
  judge s countdown (ok v) =
      if is_done v then pure none else do next ← go_on s countdown v; pure (some next)

  pub check : Waiting → Exec W Error (Option Waiting)
  unfolding refresh read_status judge
  check s = do
    countdown ← refresh s.credential_refresh_countdown
    stdout ← read_status
    judge s countdown (c.from_str stdout)

  unfoldable pub round : Waiting → Exec W Error (Option Waiting)
  unfolding check
  round s = if ltb 5 s.retries then throw (sonobuoy_status s.retries) else check s

  -- the end of the wait, or the rounds that follow
  pub and_then :
      (Waiting → Exec W Error (Option (Unit {0})))
      → Option Waiting
      → Exec W Error (Option (Unit {0}))
  and_then again none = pure (some tt)
  and_then again (some s) = again s

  unfoldable pub rounds : ℕ → Waiting → Exec W Error (Option (Unit {0}))
  unfolding round and_then
  rounds zero s = pure none
  rounds (suc fuel) s = round s >>= and_then (λ t. rounds fuel t)

  unfoldable pub wait_for_sonobuoy_results : ℕ → Exec W Error (Option (Unit {0}))
  unfolding rounds
  wait_for_sonobuoy_results fuel =
      rounds fuel
        (record { results = in_progress "Running"; retries = 0; credential_refresh_countdown = 50 })
