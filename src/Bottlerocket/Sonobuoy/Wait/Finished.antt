-- ===== src/Bottlerocket/Sonobuoy/Wait/Finished.antt =====
-- When the wait for the results ends.
use bottlerocket_test_system.Base.{
  ℕ, zero, suc, String, Bool, true, false, Option, none, some, List, ltb, Bool-cases, Option-cases,
  ◌≡◌, ◌≢◌, ◌∙◌, inl, inr, refl, sym, ap, arith,
}
use bottlerocket_test_system.Base.Result.{Result, ok, err}
use bottlerocket_test_system.Base.Exec.{Exec, ◌>>=◌, pure, throw, context}
use bottlerocket_test_system.Base.Exec.Runs.{chain-ok}
use bottlerocket_test_system.Model.Json.{Value, string}
use bottlerocket_test_system.Bottlerocket.Sonobuoy.{Error, get}
use bottlerocket_test_system.Bottlerocket.Sonobuoy.Wait.{
  Calls, Waiting, is_done, is_other, read_status, refresh, retry, go_on, judge, check, round,
  and_then, rounds, wait_for_sonobuoy_results,
}

-- a text for which the test of the status field fails
is_other-not :
    (s : Value) (n : String) → is_other s ≡ true → is_other (string n) ≡ false → s ≢ string n
is_other-not s n h e q =
    let k : is_other s ≡ is_other (string n) = ap (λ v. is_other v) q in absurd (cc)

-- A status is the end only if its field is there, and neither of the two texts.
is_done-over :
    (v : Value)
    → is_done v ≡ true
    → (s : Value) × (get "status" v ≡ some s)
      × (s ≢ string "running")
      × (s ≢ string "post-processing")
is_done-over v h = elim (Option-cases (get "status" v)) [
  | inl e ↦ absurd (ground (arith, e))
  | inr (s, e) ↦
      let o : is_other s ≡ true = ground (arith, e) in
      (s, e, is_other-not s "running" o refl, is_other-not s "post-processing" o refl)
]

module _ {W : Type 0} (c : Calls W) (args : List String) where
  -- The last call of the wait was a successful `sonobuoy status`, and it said that the run is over.
  pub record Finished (last : W) : Type 0 where
    pub before : W
    pub text : String
    pub status : Value
    pub answered : (c.output args before).0 ≡ ok (true, text)
    pub parsed : c.from_str text ≡ ok status
    pub says : Value
    pub has : get "status" status ≡ some says
    pub not_running : says ≢ string "running"
    pub not_post_processing : says ≢ string "post-processing"
    pub ends : (c.output args before).1 ≡ last

  read_status-ok :
      (w : W) (text : String)
      → (read_status c args w).0 ≡ ok text
      → ((c.output args w).0 ≡ ok (true, text)) × ((read_status c args w).1 ≡ (c.output args w).1)
  unfolding read_status ◌>>=◌ context pure throw
  read_status-ok w text h = ground arith

  judge-none :
      (s : Waiting) (n : ℕ) (r : Result String Value) (w : W)
      → (judge c args s n r w).0 ≡ ok none
      → (v : Value) × (r ≡ ok v) × (is_done v ≡ true) × ((judge c args s n r w).1 ≡ w)
  unfolding judge pure
  judge-none s n (ok v) w h = elim (Bool-cases (is_done v)) [
    | inl e ↦ (v, refl, e, ground (arith, e))
    | inr e ↦
        let k =
          chain-ok (go_on c args s n v) (λ next. pure (some next)) w none (ground (arith, e)) in
        absurd (cc)
  ]
  judge-none s n (err e) w h =
      let k = chain-ok (retry c args s n) (λ next. pure (some next)) w none h in absurd (cc)

  check-Finished :
      (s : Waiting) (w : W) → (check c args s w).0 ≡ ok none → Finished (check c args s w).1
  unfolding check
  check-Finished s w h =
      let a = chain-ok (refresh c args s.credential_refresh_countdown) _ w none h in
      let v = (refresh c args s.credential_refresh_countdown w).1 in
      let b = chain-ok (read_status c args) _ v none a.3 in
      let read = read_status-ok v b.0 b.1 in
      let j = judge-none s a.0 (c.from_str b.0) (read_status c args v).1 b.3 in
      let over = is_done-over j.0 j.2 in
      record {
        before = v;
        text = b.0;
        status = j.0;
        answered = read.0;
        parsed = j.1;
        says = over.0;
        has = over.1;
        not_running = over.2;
        not_post_processing = over.3;
        ends = sym (ap (λ x. x.1) (a.2 ∙ b.2) ∙ j.3 ∙ read.1);
      }

  round-Finished :
      (s : Waiting) (b : Bool) (w : W)
      → ltb 5 s.retries ≡ b
      → (round c args s w).0 ≡ ok none
      → Finished (round c args s w).1
  unfolding round
  round-Finished s true w e h = absurd (unfold throw in ground (arith, e))
  round-Finished s false w e h =
      let same : round c args s ≡ check c args s = ground (arith, e) in
      rw same (check-Finished s w (rw same at h))

  and_then-Finished :
      (again : Waiting → Exec W Error (Option (Unit {0}))) (s : Waiting) (o : Option Waiting)
      (w : W)
      → ((t : Waiting) (v : W) → (again t v).0 ≡ ok (some tt) → Finished (again t v).1)
      → (round c args s w).0 ≡ ok o
      → (and_then c args again o (round c args s w).1).0 ≡ ok (some tt)
      → Finished (and_then c args again o (round c args s w).1).1
  unfolding and_then pure
  and_then-Finished again s none w ih e h = round-Finished s (ltb 5 s.retries) w refl e
  and_then-Finished again s (some t) w ih e h = ih t (round c args s w).1 h

  rounds-Finished :
      (fuel : ℕ) (s : Waiting) (w : W)
      → (rounds c args fuel s w).0 ≡ ok (some tt)
      → Finished (rounds c args fuel s w).1
  unfolding rounds pure
  rounds-Finished zero s w h = absurd (cc)
  rounds-Finished (suc fuel) s w h =
      let again = λ (t : Waiting). rounds c args fuel t in
      let a = chain-ok (round c args s) (and_then c args again) w (some tt) h in
      let e = a.2 in rw e (and_then-Finished again s a.0 w (rounds-Finished fuel) a.1 a.3)

  -- If the wait for the results of a run returns without an error, its last call was `sonobuoy status`,
  -- which succeeded and printed JSON with a status that is neither `running` nor `post-processing`.
  pub wait_for_sonobuoy_results-Finished :
      (fuel : ℕ) (w : W)
      → (wait_for_sonobuoy_results c args fuel w).0 ≡ ok (some tt)
      → Finished (wait_for_sonobuoy_results c args fuel w).1
  unfolding wait_for_sonobuoy_results
  wait_for_sonobuoy_results-Finished fuel w h = rounds-Finished fuel _ w h
