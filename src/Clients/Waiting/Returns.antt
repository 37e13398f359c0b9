-- ===== src/Clients/Waiting/Returns.antt =====
-- When the waits return, and what they have seen then.
use bottlerocket_test_system.Base.{
  ℕ, zero, suc, ◌<◌, ◌≤◌, String, true, some, ◌≡◌, ◌≢◌, ◌⊎◌, inl, inr, refl, Bool-cases, arith,
}
use bottlerocket_test_system.Base.Result.{Result, ok, err}
use bottlerocket_test_system.Model.Resource.{Resource}
use bottlerocket_test_system.Clients.Error.{ClientError, delete_fail}
use bottlerocket_test_system.Clients.CrdClient.{CrdClient}
use bottlerocket_test_system.Clients.Waiting.{
  pause, is_gone, wait_for_deletion, Seen, there, gone, errored, seen, wait_for_resource_deletion,
}

Seen-cases : (s : Seen) → ((s ≡ there) ⊎ (s ≡ gone)) ⊎ ((n : String) × (s ≡ errored n))
Seen-cases there = inl (inl refl)
Seen-cases gone = inl (inr refl)
Seen-cases (errored n) = inr (n, refl)

-- the world after a number of pauses
abbrev pub after : {W : Type 0} → (ℕ → W → W) → ℕ → W → W
after sleep zero w = w
after sleep (suc k) w = after sleep k (sleep pause w)

module _ {W C : Type 0} (c : CrdClient W C) (sleep : ℕ → W → W) (name : String) where
  pub wait_for_deletion-is_gone :
      (rounds : ℕ) (w last : W)
      → wait_for_deletion c sleep rounds name w ≡ some last
      → is_gone (c.api.get name last) ≡ true
  unfolding wait_for_deletion
  wait_for_deletion-is_gone zero w last h = absurd (cc)
  wait_for_deletion-is_gone (suc rounds) w last h = elim (Bool-cases (is_gone (c.api.get name w))) [
    | inl e ↦ let same : w ≡ last = ground arith in rw (← same) e
    | inr e ↦ wait_for_deletion-is_gone rounds (sleep pause w) last (ground arith)
  ]

  -- If a read finds that the object is gone after fewer pauses than there are rounds, the wait returns.
  -- It returns in a world in which a read finds that the object is gone, no later than this.
  wait_for_deletion-returns :
      (k rounds : ℕ) (w : W)
      → k < rounds
      → is_gone (c.api.get name (after sleep k w)) ≡ true
      → (j : ℕ) × (j ≤ k)
        × (wait_for_deletion c sleep rounds name w ≡ some (after sleep j w))
        × (is_gone (c.api.get name (after sleep j w)) ≡ true)
  unfolding wait_for_deletion
  wait_for_deletion-returns k zero w h g = absurd (omega arith)
  wait_for_deletion-returns zero (suc rounds) w h g = (0, omega arith, rw (g, wait_for_deletion), g)
  wait_for_deletion-returns (suc k) (suc rounds) w h g =
      elim (Bool-cases (is_gone (c.api.get name w))) [
        | inl e ↦ (0, omega arith, rw (e, wait_for_deletion), e)
        | inr e ↦
            let r = wait_for_deletion-returns k rounds (sleep pause w) (omega arith) g in
            (suc r.0, omega (arith, r.1), rw (e, wait_for_deletion) r.2, r.3)
      ]

module _ {W : Type 0} (c : CrdClient W Resource) (sleep : ℕ → W → W) (name : String) where
  -- What the wait for a resource answers in a world.
  record Answer (r : Result ClientError (Unit {0})) (w : W) : Type 0 where
    pub gone_or_failed :
        ((r ≡ ok tt) × (seen (c.api.get name w) ≡ gone))
        ⊎ ((n : String) × (r ≡ err (delete_fail n)) × (seen (c.api.get name w) ≡ errored n))

  -- If after fewer pauses than there are rounds a read finds the resource gone, or its destruction
  -- ended with an error, the wait returns no later than this. It succeeds in a world in which the
  -- resource is gone, and fails in one in which its destruction ended with an error.
  wait_for_resource_deletion-returns :
      (k rounds : ℕ) (w : W)
      → k < rounds
      → seen (c.api.get name (after sleep k w)) ≢ there
      → (j : ℕ) × (r : Result ClientError (Unit {0})) × (j ≤ k)
        × (wait_for_resource_deletion c sleep rounds name w ≡ some (r, after sleep j w))
        × Answer r (after sleep j w)
  unfolding wait_for_resource_deletion
  wait_for_resource_deletion-returns k zero w h g = absurd (omega arith)
  wait_for_resource_deletion-returns zero (suc rounds) w h g =
      elim (Seen-cases (seen (c.api.get name w))) [
        | inl (inl e) ↦ absurd (g e)
        | inl (inr e) ↦ (
          0,
          ok tt,
          omega arith,
          rw (e, wait_for_resource_deletion),
          record { gone_or_failed = inl (refl, e) },
        )
        | inr (n, e) ↦ (
          0,
          err (delete_fail n),
          omega arith,
          rw (e, wait_for_resource_deletion),
          record { gone_or_failed = inr (n, refl, e) },
        )
      ]
  wait_for_resource_deletion-returns (suc k) (suc rounds) w h g =
      elim (Seen-cases (seen (c.api.get name w))) [
        | inl (inl e) ↦
            let r = wait_for_resource_deletion-returns k rounds (sleep pause w) (omega arith) g in
            (suc r.0, r.1, omega (arith, r.2), rw (e, wait_for_resource_deletion) r.3, r.4)
        | inl (inr e) ↦ (
          0,
          ok tt,
          omega arith,
          rw (e, wait_for_resource_deletion),
          record { gone_or_failed = inl (refl, e) },
        )
        | inr (n, e) ↦ (
          0,
          err (delete_fail n),
          omega arith,
          rw (e, wait_for_resource_deletion),
          record { gone_or_failed = inr (n, refl, e) },
        )
      ]
