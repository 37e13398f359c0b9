-- ===== src/Bottlerocket/Sonobuoy/Counts.antt =====
-- The numbers of tests in the progress of a run.
use bottlerocket_test_system.Base.{
  ℕ, ◌+◌, ◌-◌, ◌^◌, ◌≤◌, ◌<◌, Option, none, some, List, [], ◌∷◌, ◌≡◌, arith,
}
use bottlerocket_test_system.Base.Result.{ok}
use bottlerocket_test_system.Model.Json.{Value}
use bottlerocket_test_system.Model.Test.{TestResults, Outcome}
use bottlerocket_test_system.Bottlerocket.Sonobuoy.{
  get, add64, sub64, number_or_zero, length_or_zero, plugins_of, add_progress, add_reported,
  add_all_progress, process_incomplete_sonobuoy_test_results,
}

-- what a plugin says of its tests, 0 if it says nothing
abbrev completed_in : Option Value → ℕ
completed_in none = 0
completed_in (some q) = number_or_zero (get "completed" q)

abbrev failures_in : Option Value → ℕ
failures_in none = 0
failures_in (some q) = length_or_zero (get "failures" q)

abbrev pub completed : Value → ℕ
completed p = completed_in (get "progress" p)

abbrev pub failures : Value → ℕ
failures p = failures_in (get "progress" p)

abbrev pub total : (Value → ℕ) → List Value → ℕ
total f [] = 0
total f (p ∷ ps) = f p + total f ps

-- No plugin reports more failures than completed tests.
abbrev pub IsSound : List Value → Type 0
IsSound [] = Unit
IsSound (p ∷ ps) = (failures p ≤ completed p) × IsSound ps

add_small : (a b : ℕ) → a + b < 2 ^ 64 → add64 a b ≡ a + b
add_small a b h = omega arith

sub_small : (a b : ℕ) → b ≤ a → a < 2 ^ 64 → sub64 a b ≡ a - b
sub_small a b h k = omega arith

add_progress_lem :
    (q : Value) (a b : ℕ)
    → length_or_zero (get "failures" q) ≤ number_or_zero (get "completed" q)
    → a + b + number_or_zero (get "completed" q) < 2 ^ 64
    → add_progress (a, b) q ≡ (
      a + (number_or_zero (get "completed" q) - length_or_zero (get "failures" q)),
      b + length_or_zero (get "failures" q),
    )
unfolding add_progress
add_progress_lem q a b h k =
    let c = number_or_zero (get "completed" q) in
    let f = length_or_zero (get "failures" q) in
    rw (sub_small c f h (omega arith))
      (rw (add_small a (c - f) (omega arith)) (rw (add_small b f (omega arith))))

add_reported_lem :
    (o : Option Value) (a b : ℕ)
    → failures_in o ≤ completed_in o
    → a + b + completed_in o < 2 ^ 64
    → add_reported (a, b) o ≡ (a + (completed_in o - failures_in o), b + failures_in o)
unfolding add_reported
add_reported_lem none a b h k =
    let p : a + (0 - 0) ≡ a = omega arith in let q : b + 0 ≡ b = omega arith in rw p (rw q)
add_reported_lem (some q) a b h k = add_progress_lem q a b h k

add_all_progress_lem :
    (ps : List Value) (passed failed : ℕ)
    → IsSound ps
    → passed + failed + total completed ps < 2 ^ 64
    → ((add_all_progress (passed, failed) ps).0 + (add_all_progress (passed, failed) ps).1
        ≡ passed + failed + total completed ps)
      × ((add_all_progress (passed, failed) ps).1 ≡ failed + total failures ps)
unfolding add_all_progress
add_all_progress_lem [] a b s h = omega arith
add_all_progress_lem (p ∷ ps) a b s h =
    let e = add_reported_lem (get "progress" p) a b s.0 (omega arith) in
    let r =
      add_all_progress_lem ps (a + (completed p - failures p)) (b + failures p) s.1
        (omega (arith, s.0)) in
    rw (e, add_all_progress) (omega (arith, r, s.0))

-- While a run goes on, let no plugin report more failures than completed tests, and all plugins
-- together fewer than 2 ^ 64 completed tests. Then the reported numbers are exact: the passed and the
-- failed tests are together those that were completed, and the failed ones are those that the
-- plugins list as failures.
process_incomplete_sonobuoy_test_results-total :
    (run_status : Value) {ps : List Value}
    → plugins_of run_status ≡ ok ps
    → IsSound ps
    → total completed ps < 2 ^ 64
    → (r : TestResults) × (process_incomplete_sonobuoy_test_results run_status ≡ ok r)
      × (r.num_passed + r.num_failed ≡ total completed ps)
      × (r.num_failed ≡ total failures ps)
unfolding process_incomplete_sonobuoy_test_results
process_incomplete_sonobuoy_test_results-total run_status {ps} e s h =
    let c = add_all_progress_lem ps 0 0 s (omega arith) in
    (
      record {
        outcome = Outcome.in_progress;
        num_passed = (add_all_progress (0, 0) ps).0;
        num_failed = (add_all_progress (0, 0) ps).1;
        num_skipped = 0;
        other_info = some "Running";
      },
      ground (arith, e),
      omega (arith, c),
      omega (arith, c),
    )
