-- ===== src/Base/Exec/Preserves.antt =====
-- Calls that keep a property of the world, whether they succeed or fail.
use mathlib.Core.Path.{◌≡◌, refl}
use mathlib.Core.Bool.{Bool, true, false}
use bottlerocket_test_system.Base.Tests.{if◌then◌else◌}
use bottlerocket_test_system.Base.Result.{Result, ok, err, map_err, map_err-ok, ok-injective}
use bottlerocket_test_system.Base.Exec.{
  Exec, pure, throw, read, context, attempt, match_result, ◌>>=◌,
}

-- The property is kept, and the answer of a call that succeeds has another one.
pub record Preserves {W E A : Type 0} (P : W → Type 0) (Q : A → Type 0) (m : Exec W E A)
    : Type 0 where
  pub at : (w : W) → P w → P (m w).1
  pub yields : (w : W) → P w → (a : A) → (m w).0 ≡ ok a → Q a

abbrev pub Anything : {A : Type 0} → A → Type 0
Anything a = Unit

failed :
    {E F A : Type 0} (f : E → F) (r : Result E A) (e : F)
    → map_err f r ≡ err e
    → (x : E) × (r ≡ err x)
failed f (ok a) e h = absurd (cc)
failed f (err x) e h = (x, refl)

chained : {W F A B : Type 0} → (A → Exec W F B) → Result F A × W → Result F B × W
chained f r = elim (r.0) [ ok a ↦ f a (r.1) | err e ↦ (err e, r.1) ]

-- The property is kept where the call fails.
pub record FailsIn {W E A : Type 0} (P : W → Type 0) (m : Exec W E A) : Type 0 where
  pub at : (w : W) → P w → (e : E) → (m w).0 ≡ err e → P (m w).1

module _ {W E A : Type 0} {P : W → Type 0} {Q : A → Type 0} where
  pub Preserves-pure : (a : A) → Q a → Preserves {E = E} P Q (pure a)
  unfolding pure
  Preserves-pure a q = record {
    at = λ w p. p;
    yields = λ w p b h. let e = ok-injective h in rw (← e) q;
  }

  pub Preserves-throw : (e : E) → Preserves {A = A} P Q (throw e)
  unfolding throw
  Preserves-throw e = record { at = λ w p. p; yields = λ w p b h. absurd (cc) }

  pub Preserves-if :
      (b : Bool) {m n : Exec W E A}
      → Preserves P Q m
      → Preserves P Q n
      → Preserves P Q (if b then m else n)
  Preserves-if true h k = h
  Preserves-if false h k = k

  pub Preserves-read :
      (f : W → Result E A) → ((w : W) (a : A) → f w ≡ ok a → Q a) → Preserves P Q (read f)
  unfolding read
  Preserves-read f q = record { at = λ w p. p; yields = λ w p a h. q w a h }

  Preserves-anything : {m : Exec W E A} → Preserves P Q m → Preserves P Anything m
  Preserves-anything k = record { at = k.at; yields = λ w p a h. tt }

  pub Preserves-FailsIn : {m : Exec W E A} → Preserves P Q m → FailsIn P m
  Preserves-FailsIn k = record { at = λ w p e h. k.at w p }

module _ {W E F A : Type 0} {P : W → Type 0} where
  pub Preserves-context :
      {Q : A → Type 0} (f : E → F) {m : Exec W E A} → Preserves P Q m → Preserves P Q (context f m)
  unfolding context
  Preserves-context f {m} k = record {
    at = k.at;
    yields = λ w p a h. k.yields w p a (map_err-ok f (m w).0 h);
  }

  pub Preserves-attempt :
      {Q : A → Type 0} {m : Exec W E A} → Preserves P Q m → Preserves {E = F} P Anything (attempt m)
  unfolding attempt
  Preserves-attempt k = record { at = k.at; yields = λ w p a h. tt }

  pub FailsIn-context : (f : E → F) {m : Exec W E A} → FailsIn P m → FailsIn P (context f m)
  unfolding context
  FailsIn-context f {m} k = record {
    at = λ w p e h. let s = failed f (m w).0 e h in k.at w p s.0 s.1;
  }

module _ {W F A B : Type 0} where
  chain-last :
      (P : W → Type 0) (f : A → B) (r : Result F A × W)
      → ((e : F) → r.0 ≡ err e → P r.1)
      → (e : F) → (chained (λ a w. (ok (f a), w)) r).0 ≡ err e
      → P (chained (λ a w. (ok (f a), w)) r).1
  unfolding chained
  chain-last P f (ok a, w) k e h = absurd (cc)
  chain-last P f (err x, w) k e h = k x refl

module _ {W F A B : Type 0} {P : W → Type 0} where
  chain-at :
      (R : B → Type 0) (f : A → Exec W F B) (r : Result F A × W)
      → P r.1
      → ((a : A) → r.0 ≡ ok a → Preserves P R (f a))
      → P (chained f r).1 × ((b : B) → (chained f r).0 ≡ ok b → R b)
  unfolding chained
  chain-at R f (ok a, w) p k = ((k a refl).at w p, λ b h. (k a refl).yields w p b h)
  chain-at R f (err e, w) p k = (p, λ b h. absurd (cc))

  pub Preserves-bind :
      {Q : A → Type 0} {R : B → Type 0} {m : Exec W F A} {f : A → Exec W F B}
      → Preserves P Q m
      → ((a : A) → Q a → Preserves P R (f a))
      → Preserves P R (m >>= f)
  unfolding ◌>>=◌ chained
  Preserves-bind {R = R} {m} {f} k g = record {
    at = λ w p. (chain-at R f (m w) (k.at w p) (λ a h. g a (k.yields w p a h))).0;
    yields = λ w p b h. (chain-at R f (m w) (k.at w p) (λ a h. g a (k.yields w p a h))).1 b h;
  }

  chain-FailsIn :
      (f : A → Exec W F B) (r : Result F A × W)
      → P r.1
      → ((a : A) → r.0 ≡ ok a → FailsIn P (f a))
      → (e : F) → (chained f r).0 ≡ err e
      → P (chained f r).1
  unfolding chained
  chain-FailsIn f (ok a, w) p k e h = (k a refl).at w p e h
  chain-FailsIn f (err x, w) p k e h = p

  pub FailsIn-bind :
      {Q : A → Type 0} {m : Exec W F A} {f : A → Exec W F B}
      → Preserves P Q m
      → ((a : A) → Q a → FailsIn P (f a))
      → FailsIn P (m >>= f)
  unfolding ◌>>=◌ chained
  FailsIn-bind {m = m} {f} k g = record {
    at = λ w p e h. chain-FailsIn f (m w) (k.at w p) (λ a o. g a (k.yields w p a o)) e h;
  }

  -- the last call of a chain is the one that may change the property
  pub FailsIn-last : {m : Exec W F A} (f : A → B) → FailsIn P m → FailsIn P (m >>= λ a. pure (f a))
  unfolding ◌>>=◌ chained pure
  FailsIn-last {m} f k = record { at = λ w p e h. chain-last P f (m w) (k.at w p) e h }

module _ {W E F A B : Type 0} {P : W → Type 0} {Q : B → Type 0} where
  pub Preserves-match_result :
      (r : Result E A) {f : A → Exec W F B} {g : E → Exec W F B}
      → ((a : A) → Preserves P Q (f a))
      → ((e : E) → Preserves P Q (g e))
      → Preserves P Q (match_result r f g)
  unfolding match_result
  Preserves-match_result (ok a) p q = record { at = (p a).at; yields = (p a).yields }
  Preserves-match_result (err e) p q = record { at = (q e).at; yields = (q e).yields }
