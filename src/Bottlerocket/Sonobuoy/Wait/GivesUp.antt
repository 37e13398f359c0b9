-- ===== src/Bottlerocket/Sonobuoy/Wait/GivesUp.antt =====
-- The wait for the results gives up.
use Prim.Native.String.{◌++◌ as concat}
use bottlerocket_test_system.Base.{
  ℕ, zero, suc, ◌+◌, ◌≤◌, String, true, some, List, ◌≡◌, ◌<◌, ◌∙◌, ap, arith,
}
use bottlerocket_test_system.Base.Result.{ok, err}
use bottlerocket_test_system.Base.Exec.{◌>>=◌, pure, throw, context, attempt}
use bottlerocket_test_system.Model.Test.{TestResults}
use bottlerocket_test_system.Bottlerocket.Sonobuoy.{sonobuoy_status}
use bottlerocket_test_system.Bottlerocket.Sonobuoy.Wait.{
  Calls, Waiting, check, round, and_then, rounds, wait_for_sonobuoy_results, in_progress,
}

module _ {W : Type 0} (c : Calls W) (args : List String) where
  -- `sonobuoy status` prints no JSON, whatever the world.
  pub record IsNoJson : Type 0 where
    pub prints :
        (w : W)
        → (text : String) × (e : String) × ((c.output args w).0 ≡ ok (true, text))
          × (c.from_str text ≡ err e)

  check-again :
      (r : TestResults) (n k : ℕ) (w : W)
      → IsNoJson
      → (t : TestResults) × ((check c args
            (record { results = r; retries = n; credential_refresh_countdown = suc k })
            w).0
          ≡ ok (
              some (record { results = t; retries = n + 1; credential_refresh_countdown = suc k })))
  unfolding check ◌>>=◌ pure throw context attempt
  check-again r n k w h =
      let p = h.prints w in
      (
        record r { other_info = some (concat "Status failed '" (concat (c.show n) "'")) },
        ground (arith, p.2, p.3),
      )

  -- the loop with a number of failed reads
  failing : TestResults → ℕ → ℕ → Waiting
  failing r n k = record { results = r; retries = n; credential_refresh_countdown = suc k }

  rounds-last :
      (fuel : ℕ) (r : TestResults) (n k : ℕ) (w : W)
      → n ≡ 6
      → (rounds c args (suc fuel) (failing r n k) w).0 ≡ err (sonobuoy_status 6)
  unfolding rounds round failing throw ◌>>=◌
  rounds-last fuel r n k w e = ground (arith, e)

  rounds-next :
      (fuel : ℕ) (r : TestResults) (n k : ℕ) (w : W)
      → IsNoJson
      → n ≤ 5
      → (t : TestResults) × (v : W) × (rounds c args (suc fuel) (failing r n k) w
          ≡ rounds c args fuel (failing t (n + 1) k) v)
  unfolding rounds round failing and_then ◌>>=◌
  rounds-next fuel r n k w h le =
      let s = check-again r n k w h in
      (s.0, (check c args (failing r n k) w).1, ground (arith, s.1))

  gives_up :
      (left fuel : ℕ) (r : TestResults) (n k : ℕ) (w : W)
      → IsNoJson
      → n + left ≡ 6
      → left < fuel
      → (rounds c args fuel (failing r n k) w).0 ≡ err (sonobuoy_status 6)
  gives_up left zero r n k w h e l = absurd (omega arith)
  gives_up zero (suc fuel) r n k w h e l = rounds-last fuel r n k w (omega arith)
  gives_up (suc left) (suc fuel) r n k w h e l =
      let s = rounds-next fuel r n k w h (omega arith) in
      ap (λ x. x.0) s.2 ∙ gives_up left fuel s.0 (n + 1) k s.1 h (omega arith) (omega arith)

  -- If `sonobuoy status` succeeds but never prints JSON, the wait for the results ends within seven
  -- rounds, with an error that says that the status was read six times.
  pub wait_for_sonobuoy_results-gives_up :
      (fuel : ℕ) (w : W)
      → IsNoJson
      → 7 ≤ fuel
      → (wait_for_sonobuoy_results c args fuel w).0 ≡ err (sonobuoy_status 6)
  unfolding wait_for_sonobuoy_results failing
  wait_for_sonobuoy_results-gives_up fuel w h l =
      gives_up 6 fuel (in_progress "Running") 0 49 w h (omega arith) (omega arith)
