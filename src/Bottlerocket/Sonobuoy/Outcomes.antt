-- ===== src/Bottlerocket/Sonobuoy/Outcomes.antt =====
-- The outcome that the agents report of a finished run.
use bottlerocket_test_system.Base.{
  ℕ, ◌+◌, ◌<◌, String, true, Option, none, some, List, [], ◌∷◌, str_eq, eq_iff, if◌then◌else◌, ◌≡◌,
  ◌≢◌, ◌⊎◌, ◌↔◌, refl, arith,
}
use bottlerocket_test_system.Base.Result.{ok, bind-ok}
use bottlerocket_test_system.Model.Json.{Value}
use bottlerocket_test_system.Model.Test.{TestResults, Outcome}
use bottlerocket_test_system.Bottlerocket.Sonobuoy.{
  get, as_str, required, plugins_of, no_outcomes, bump, count_of, has, outcome_of, Totals,
  add_plugin, add_plugins, process_sonobuoy_test_results,
}

-- the status that a plugin reports
abbrev status_of : Value → Option String
status_of p = elim (get "result-status" p) [ none ↦ none | some v ↦ as_str v ]

-- One of the plugins reports the status.
abbrev Has : String → List Value → Type 0
Has s [] = ⊥
Has s (p ∷ ps) = (status_of p ≡ some s) ⊎ Has s ps

abbrev Failed : List Value → Type 0
Failed ps = Has "fail" ps ⊎ Has "failed" ps

abbrev TimedOut : List Value → Type 0
TimedOut ps = Has "timeout" ps ⊎ Has "timed-out" ps

abbrev Passed : List Value → Type 0
Passed ps = Has "pass" ps ⊎ Has "passed" ps

-- The outcome of a run by what its plugins report.
pub record IsOutcome (o : Outcome) (ps : List Value) : Type 0 where
  pub failed : (o ≡ Outcome.fail) ↔ Failed ps
  pub timed_out : (o ≡ Outcome.timeout) ↔ ((¬ Failed ps) × TimedOut ps)
  pub passed : (o ≡ Outcome.pass) ↔ ((¬ Failed ps) × (¬ TimedOut ps) × Passed ps)
  pub finished : o ≢ Outcome.in_progress

count_of-bump :
    (k j : String) (m : List (String × ℕ))
    → count_of k (bump j m) ≡ (if str_eq j k then count_of k m + 1 else count_of k m)
unfolding count_of bump
count_of-bump k j [] = ground (arith, eq_iff j k)
count_of-bump k j ((i, n) ∷ m) =
    ground (arith, eq_iff i j, eq_iff i k, eq_iff j k, count_of-bump k j m)

required_ok :
    {A : Type 0} (field : String) (o : Option A) {a : A} → required field o ≡ ok a → o ≡ some a
required_ok field none h = absurd (cc)
required_ok field (some b) h = cc

-- The summary counts the reports of a status.
abbrev Counts : List (String × ℕ) → List Value → String → Type 0
Counts m ps k = (0 < count_of k m) ↔ Has k ps

has_iff :
    (m : List (String × ℕ)) (ps : List Value) (a b : String)
    → Counts m ps a
    → Counts m ps b
    → (has m a b ≡ true) ↔ (Has a ps ⊎ Has b ps)
unfolding has
has_iff m ps a b p q = ground arith

decided :
    (m : List (String × ℕ)) {ps : List Value}
    → (has m "fail" "failed" ≡ true) ↔ Failed ps
    → (has m "timeout" "timed-out" ≡ true) ↔ TimedOut ps
    → (has m "pass" "passed" ≡ true) ↔ Passed ps
    → IsOutcome (outcome_of m) ps
unfolding outcome_of
decided m f t p = record {
  failed = ground (arith, f);
  timed_out = ground (arith, f, t);
  passed = ground (arith, f, t, p);
  finished = ground arith;
}

outcome_of-IsOutcome :
    (m : List (String × ℕ)) (ps : List Value)
    → ((k : String) → count_of k no_outcomes ≡ 0 → Counts m ps k)
    → IsOutcome (outcome_of m) ps
unfolding outcome_of count_of
outcome_of-IsOutcome m ps h =
    let f = has_iff m ps "fail" "failed" (h "fail" refl) (h "failed" refl) in
    let t = has_iff m ps "timeout" "timed-out" (h "timeout" refl) (h "timed-out" refl) in
    let p = has_iff m ps "pass" "passed" (h "pass" refl) (h "passed" refl) in decided m f t p

module _ (show : Value → String) where
  add_plugin-summary :
      (t u : Totals) (p : Value)
      → add_plugin show t p ≡ ok u
      → (s : String) × (status_of p ≡ some s) × (u.summary ≡ bump s t.summary)
  unfolding add_plugin
  add_plugin-summary t u p h =
      let a = bind-ok (required _ (get "plugin" p)) _ h in
      let b = bind-ok (required _ (as_str a.0)) _ a.2 in
      let c = bind-ok (required _ (get "result-status" p)) _ b.2 in
      let d = bind-ok (required _ (as_str c.0)) _ c.2 in
      let e = bind-ok (required _ (get "result-counts" p)) _ d.2 in
      (d.0, ground (arith, required_ok _ _ c.1, required_ok _ _ d.1), ground (arith, e.2))

  add_plugins-count :
      (k : String) (ps : List Value) (t u : Totals)
      → add_plugins show t ps ≡ ok u
      → (0 < count_of k u.summary) ↔ ((0 < count_of k t.summary) ⊎ Has k ps)
  unfolding add_plugins
  add_plugins-count k [] t u h = ground arith
  add_plugins-count k (p ∷ ps) t u h =
      let v = bind-ok (add_plugin show t p) _ h in
      let s = add_plugin-summary t v.0 p v.1 in
      ground (
        arith,
        s.1,
        s.2,
        count_of-bump k s.0 t.summary,
        eq_iff s.0 k,
        add_plugins-count k ps v.0 u v.2,
      )

  -- Let the results of the plugins of a finished run be complete, so that they are processed without
  -- an error. The run failed exactly when a plugin reports `fail` or `failed`; it timed out exactly when
  -- none does so, and one reports `timeout` or `timed-out`; it passed exactly when none does any of
  -- this, and one reports `pass` or `passed`. It is never in progress.
  pub process_sonobuoy_test_results-IsOutcome :
      (run_status : Value) {ps : List Value} {r : TestResults}
      → plugins_of run_status ≡ ok ps
      → process_sonobuoy_test_results show run_status ≡ ok r
      → IsOutcome r.outcome ps
  unfolding process_sonobuoy_test_results
  process_sonobuoy_test_results-IsOutcome run_status {ps} {r} e h =
      let a = bind-ok (plugins_of run_status) _ h in
      let b = bind-ok (add_plugins show _ a.0) _ a.2 in
      let same : a.0 ≡ ps = ground (arith, a.1, e) in
      let o : outcome_of b.0.summary ≡ r.outcome = ground (arith, b.2) in
      rw (← o) (
        rw (← same) (
          outcome_of-IsOutcome b.0.summary a.0
            (λ k zero. ground (arith, zero, add_plugins-count k a.0 _ b.0 b.1))))
