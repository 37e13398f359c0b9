-- ===== src/Bottlerocket/Sonobuoy.antt =====
-- bottlerocket/agents/src/sonobuoy.rs: what the agents read from the status that the program sonobuoy
-- prints. How a JSON value is written as a text is a parameter.
pub mod Outcomes
pub mod Counts
pub mod Wait
pub mod Run
use Prim.Native.String.{◌++◌ as concat}
use bottlerocket_test_system.Base.{
  ℕ, ◌+◌, ◌-◌, ◌%◌, ◌^◌, String, Bool, Option, none, some, List, [], ◌∷◌, ◌++◌, ltb, ◌||◌, str_eq,
  length, if◌then◌else◌,
}
use bottlerocket_test_system.Base.Result.{Result, ok, err, ◌>>=◌}
use bottlerocket_test_system.Model.Json.{
  Fields, Value, Values, object, array, string, number, no_value, value,
}
use bottlerocket_test_system.Model.Test.{TestResults, Outcome}
use bottlerocket_test_system.Clients.Templates.{lookup}

-- errors of error.rs; those of other crates are kept as texts
pub data Error : Type 0 where
  missing_sonobuoy_status_field deserialize_json sonobuoy_process aws : String → Error
  workload_process workload_test : String → Error
  file_write : (path source : String) → Error
  sonobuoy_run sonobuoy_delete sonobuoy_timeout workload_run workload_delete : Error
  sonobuoy_status : ℕ → Error

abbrev pub add64 : ℕ → ℕ → ℕ
add64 a b = (a + b) % 2 ^ 64

abbrev pub sub64 : ℕ → ℕ → ℕ
sub64 a b = (a + 2 ^ 64 - b) % 2 ^ 64

-- `Value::get`, `as_u64`, `as_str` and `as_array`
abbrev pub get : String → Value → Option Value
get k (object fields) = lookup k fields
get k _ = none

abbrev as_u64 : Value → Option ℕ
as_u64 (number n) = if ltb n (2 ^ 64) then some n else none
as_u64 _ = none

abbrev pub as_str : Value → Option String
as_str (string s) = some s
as_str _ = none

abbrev elements : Values → List Value
elements no_value = []
elements (value v vs) = v ∷ elements vs

abbrev as_array : Value → Option (List Value)
as_array (array vs) = some (elements vs)
as_array _ = none

-- `context` of an option
abbrev pub required : {A : Type 0} → String → Option A → Result Error A
required field none = err (missing_sonobuoy_status_field field)
required field (some a) = ok a

-- a number that may be missing, or 0
abbrev pub number_or_zero : Option Value → ℕ
number_or_zero none = 0
number_or_zero (some v) = elim (as_u64 v) [ none ↦ 0 | some n ↦ n ]

-- the length of an array that may be missing, or 0
abbrev pub length_or_zero : Option Value → ℕ
length_or_zero none = 0
length_or_zero (some v) = elim (as_array v) [ none ↦ 0 | some vs ↦ length vs ]

abbrev pub plugins_of : Value → Result Error (List Value)
plugins_of run_status = do
  plugins ← required "plugins" (get "plugins" run_status)
  required "plugins" (as_array plugins)

-- passed and failed tests so far
abbrev pub Counts : Type 0
Counts = ℕ × ℕ

pub add_progress : Counts → Value → Counts
add_progress c progress =
    let completed = number_or_zero (get "completed" progress) in
    let failed = length_or_zero (get "failures" progress) in
    (add64 c.0 (sub64 completed failed), add64 c.1 failed)

-- A plugin may report no progress.
pub add_reported : Counts → Option Value → Counts
unfolding add_progress
add_reported c none = c
add_reported c (some progress) = add_progress c progress

pub add_all_progress : Counts → List Value → Counts
unfolding add_reported
add_all_progress c [] = c
add_all_progress c (p ∷ ps) = add_all_progress (add_reported c (get "progress" p)) ps

pub process_incomplete_sonobuoy_test_results : Value → Result Error TestResults
unfolding add_all_progress
process_incomplete_sonobuoy_test_results run_status = do
  plugins ← plugins_of run_status
  let counts = add_all_progress (0, 0) plugins
  ok (record {
    outcome = Outcome.in_progress;
    num_passed = counts.0;
    num_failed = counts.1;
    num_skipped = 0;
    other_info = some "Running";
  })

-- `outcome_summary`: how often each status was reported. The source counts in `i32`, which suffices for
-- fewer than 2 ^ 31 plugins.
pub bump : String → List (String × ℕ) → List (String × ℕ)
bump k [] = (k, 1) ∷ []
bump k ((j, n) ∷ m) = if str_eq j k then (j, n + 1) ∷ m else (j, n) ∷ bump k m

pub count_of : String → List (String × ℕ) → ℕ
count_of k [] = 0
count_of k ((j, n) ∷ m) = if str_eq j k then n else count_of k m

abbrev pub no_outcomes : List (String × ℕ)
no_outcomes =
    ("pass", 0)
    ∷ ("passed", 0)
    ∷ ("fail", 0)
    ∷ ("failed", 0)
    ∷ ("timeout", 0)
    ∷ ("timed-out", 0)
    ∷ []

pub has : List (String × ℕ) → String → String → Bool
unfolding count_of
has summary a b = ltb 0 (count_of a summary) || ltb 0 (count_of b summary)

-- The later of the three tests wins.
pub outcome_of : List (String × ℕ) → Outcome
unfolding has
outcome_of summary =
    if has summary "fail" "failed"
    then Outcome.fail
    else if has summary "timeout" "timed-out"
    then Outcome.timeout
    else if has summary "pass" "passed"
    then Outcome.pass
    else Outcome.unknown

-- the variables of the loop over the plugins
pub record Totals : Type 0 where
  pub num_passed : ℕ
  pub num_failed : ℕ
  pub num_skipped : ℕ
  pub progress : List String
  pub summary : List (String × ℕ)

-- `join(", ")`
pub join : List String → String
join [] = ""
join (s ∷ []) = s
join (s ∷ (t ∷ ts)) = concat s (concat ", " (join (t ∷ ts)))

abbrev pub field_name : String → String → String
field_name plugin field = concat "plugins." (concat plugin (concat "." field))

module _ (show : Value → String) where
  -- one plugin
  pub add_plugin : Totals → Value → Result Error Totals
  unfolding bump
  add_plugin t result = do
    named ← required "plugins.[].plugin" (get "plugin" result)
    plugin ← required "plugins.[].plugin" (as_str named)
    status ← required (field_name plugin "result-status") (get "result-status" result)
    result_status ← required (field_name plugin "result-status") (as_str status)
    counts ← required (field_name plugin "result-counts") (get "result-counts" result)
    ok (record {
      num_passed = add64 t.num_passed (number_or_zero (get "passed" counts));
      num_failed = add64 t.num_failed (number_or_zero (get "failed" counts));
      num_skipped = add64 t.num_skipped (number_or_zero (get "skipped" counts));
      progress = elim (get "progress" result) [
        | none ↦ t.progress
        | some p ↦ t.progress ++ concat plugin (concat ": " (show p)) ∷ []
      ];
      summary = bump result_status t.summary;
    })

  pub add_plugins : Totals → List Value → Result Error Totals
  unfolding add_plugin
  add_plugins t [] = ok t
  add_plugins t (p ∷ ps) = add_plugin t p >>= λ u. add_plugins u ps

  unfoldable pub process_sonobuoy_test_results : Value → Result Error TestResults
  unfolding add_plugins outcome_of join
  process_sonobuoy_test_results run_status = do
    plugins ← plugins_of run_status
    totals ←
        add_plugins
          (record {
            num_passed = 0;
            num_failed = 0;
            num_skipped = 0;
            progress = [];
            summary = no_outcomes;
          })
          plugins
    ok (record {
      outcome = outcome_of totals.summary;
      num_passed = totals.num_passed;
      num_failed = totals.num_failed;
      num_skipped = totals.num_skipped;
      other_info = some (join totals.progress);
    })
