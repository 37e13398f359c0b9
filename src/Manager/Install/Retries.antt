-- ===== src/Manager/Install/Retries.antt =====
-- How often an object is created or updated, and what is answered.
use bottlerocket_test_system.Base.{
  ℕ, zero, suc, ◌<◌, String, Option, none, some, ◌≡◌, ◌⊎◌, inl, inr, refl, sym, ap, ◌∙◌, arith,
}
use bottlerocket_test_system.Base.Result.{Result, ok, err, Result-cases}
use bottlerocket_test_system.Manager.{Error}
use bottlerocket_test_system.Manager.Install.{
  ObjectApi, backoff, max_retries, create_or_update_internal, attempts, create_or_update,
}

module _ {W D : Type 0} (api : ObjectApi W D) (sleep : ℕ → W → W) (d : D) (what : String) where
  abbrev one : W → Result Error (Unit {0}) × W
  one = create_or_update_internal api sleep d what

  -- the world before an attempt, when those before it failed
  abbrev pub before : ℕ → W → W
  before zero w = w
  before (suc k) w = before k (sleep backoff (one w).1)

  -- The first attempts, as many as said, fail.
  abbrev pub Fail : ℕ → W → Type 0
  Fail zero w = Unit
  Fail (suc k) w = ((e : Error) × ((one w).0 ≡ err e)) × Fail k (sleep backoff (one w).1)

  -- the answer of the last attempt, or the earlier one
  abbrev answer : Option Error → ℕ → W → Result Error (Unit {0})
  answer none zero w = ok tt
  answer (some e) zero w = err e
  answer last (suc n) w = (one (before n w)).0

  -- What the loop answers that has `n` attempts and an earlier error.
  Outcome : ℕ → Option Error → W → Result Error (Unit {0}) × W → Type 0
  Outcome n last w r =
      ((k : ℕ) × (k < n) × Fail k w × (one (before k w) ≡ r) × (r.0 ≡ ok tt))
      ⊎ (Fail n w × (r ≡ (answer last n w, before n w)))

  answer_step :
      (n : ℕ) (last : Option Error) (e : Error) (w : W)
      → (one w).0 ≡ err e
      → answer (some e) n (sleep backoff (one w).1) ≡ answer last (suc n) w
  answer_step zero last e w p = sym p
  answer_step (suc n) last e w p = refl

  attempts_ok :
      (n : ℕ) (last : Option Error) (w : W)
      → (one w).0 ≡ ok tt
      → one w ≡ attempts api sleep (suc n) last d what w
  unfolding attempts
  attempts_ok n last w h = ground (arith, h)

  attempts_err :
      (n : ℕ) (last : Option Error) (w : W) (e : Error)
      → (one w).0 ≡ err e
      → attempts api sleep (suc n) last d what w
        ≡ attempts api sleep n (some e) d what (sleep backoff (one w).1)
  unfolding attempts
  attempts_err n last w e h = ground (arith, h)

  attempts_lem :
      (n : ℕ) (last : Option Error) (w : W) → Outcome n last w (attempts api sleep n last d what w)
  unfolding Outcome
  attempts_lem zero none w = unfold attempts in inr (tt, refl)
  attempts_lem zero (some e) w = unfold attempts in inr (tt, refl)
  attempts_lem (suc n) last w = elim (Result-cases (one w).0) [
    | inr (u, e) ↦
        let same = attempts_ok n last w e in
        inl (0, omega arith, tt, same, ap (λ x. x.0) (sym same) ∙ e)
    | inl (e, p) ↦
        let same = attempts_err n last w e p in
        elim (attempts_lem n (some e) (sleep backoff (one w).1)) [
          | inl s ↦
              inl (
                suc s.0,
                omega (arith, s.1),
                ((e, p), s.2),
                s.3 ∙ sym same,
                ap (λ x. x.0) same ∙ s.4,
              )
          | inr s ↦ inr (
            ((e, p), s.0),
            same
                ∙ s.1
                ∙ ap (λ a. (a, before n (sleep backoff (one w).1))) (answer_step n last e w p),
          )
        ]
  ]

  -- An object is created or updated in at most three attempts. Either one of the three succeeds after
  -- all earlier ones have failed, and the loop ends there with success; or all three fail, and the
  -- loop ends with the error of the third, after a last pause.
  pub create_or_update-Attempts :
      (w : W)
      → ((k : ℕ) × (k < max_retries)
          × Fail k w
          × (one (before k w) ≡ create_or_update api sleep d what w)
          × ((create_or_update api sleep d what w).0 ≡ ok tt))
        ⊎ (Fail max_retries w
            × (create_or_update api sleep d what w ≡ ((one (before 2 w)).0, before max_retries w)))
  unfolding create_or_update Outcome
  create_or_update-Attempts w = attempts_lem 3 none w
