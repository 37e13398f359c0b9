-- ===== src/Base/Exec/Grows.antt =====
-- How far calls let a measure of the world grow.
use Prim.Native.Nat.{ℕ, ◌+◌, ◌≤◌}
use mathlib.Core.Path.{◌≡◌, refl}
use native.Mathlib.Omega.{arith}
use bottlerocket_test_system.Base.Result.{Result, ok, err}
use bottlerocket_test_system.Base.Exec.{Exec, pure, throw, context, attempt, match_result, ◌>>=◌}

-- The measure grows by `n` at most, whether the call succeeds or fails.
pub record Grows {W E A : Type 0} (size : W → ℕ) (n : ℕ) (m : Exec W E A) : Type 0 where
  pub at : (w : W) → size (m w).1 ≤ size w + n

-- The measure does not grow.
abbrev pub Quiet : {W E A : Type 0} → (W → ℕ) → Exec W E A → Type 0
Quiet size m = Grows size 0 m

module _ {W E A : Type 0} {size : W → ℕ} where
  pub Quiet-pure : (a : A) → Grows {E = E} size 0 (pure a)
  unfolding pure
  Quiet-pure a = record { at = λ w. omega arith }

  pub Quiet-throw : (e : E) → Grows {A = A} size 0 (throw e)
  unfolding throw
  Quiet-throw e = record { at = λ w. omega arith }

  pub Grows-more : {m n : ℕ} {x : Exec W E A} → m ≤ n → Grows size m x → Grows size n x
  Grows-more h g = record { at = λ w. omega (arith, g.at w) }

module _ {W E F A : Type 0} {size : W → ℕ} {n : ℕ} where
  pub Grows-context : (f : E → F) {m : Exec W E A} → Grows size n m → Grows size n (context f m)
  unfolding context
  Grows-context f g = record { at = g.at }

  pub Grows-attempt : {m : Exec W E A} → Grows size n m → Grows {E = F} size n (attempt m)
  unfolding attempt
  Grows-attempt g = record { at = g.at }

module _ {W E F A B : Type 0} {size : W → ℕ} where
  pub Grows-match_result :
      {n : ℕ} (r : Result E A) {f : A → Exec W F B} {g : E → Exec W F B}
      → ((a : A) → Grows size n (f a))
      → ((e : E) → Grows size n (g e))
      → Grows size n (match_result r f g)
  unfolding match_result
  Grows-match_result (ok a) p q = record { at = (p a).at }
  Grows-match_result (err e) p q = record { at = (q e).at }

module _ {W F A B : Type 0} {size : W → ℕ} where
  after :
      (n : ℕ) (r : Result F A × W) (f : A → Exec W F B)
      → ((a : A) → r.0 ≡ ok a → Grows size n (f a))
      → size (elim (r.0) as (λ _. Result F B × W) [ ok a ↦ f a (r.1) | err e ↦ (err e, r.1) ]).1
        ≤ size r.1 + n
  after n (ok a, w) f p = (p a refl).at w
  after n (err e, w) f p = omega arith

  -- the rest may use that the first call succeeded
  pub Grows-bind_ok :
      {i j : ℕ} {m : Exec W F A} {f : A → Exec W F B}
      → Grows size i m
      → ((w : W) (a : A) → (m w).0 ≡ ok a → Grows size j (f a))
      → Grows size (i + j) (m >>= f)
  unfolding ◌>>=◌
  Grows-bind_ok {j = j} {m} {f} g h = record {
    at = λ w. omega (arith, g.at w, after j (m w) f (h w));
  }

  pub Grows-bind :
      {i j : ℕ} {m : Exec W F A} {f : A → Exec W F B}
      → Grows size i m
      → ((a : A) → Grows size j (f a))
      → Grows size (i + j) (m >>= f)
  Grows-bind g h = Grows-bind_ok g (λ _ a _. h a)

  pub Quiet-bind :
      {m : Exec W F A} {f : A → Exec W F B}
      → Grows size 0 m
      → ((a : A) → Grows size 0 (f a))
      → Grows size 0 (m >>= f)
  Quiet-bind g h = Grows-more (omega arith) (Grows-bind g h)

  pub Quiet-then :
      {n : ℕ} {m : Exec W F A} {f : A → Exec W F B}
      → Grows size 0 m
      → ((a : A) → Grows size n (f a))
      → Grows size n (m >>= f)
  Quiet-then g h = Grows-more (omega arith) (Grows-bind g h)
