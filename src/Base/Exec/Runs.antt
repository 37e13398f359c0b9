-- ===== src/Base/Exec/Runs.antt =====
-- What holds of the world in which a call that succeeds ends.
use mathlib.Core.Path.{◌≡◌, refl}
use native.Mathlib.Omega.{arith}
use bottlerocket_test_system.Base.Result.{Result, ok, err, ok-injective, map_err-ok}
use bottlerocket_test_system.Base.Exec.{Exec, ◌>>=◌, pure, throw, context, match_result}

pub record Ends {W E A : Type 0} (P : W → Type 0) (m : Exec W E A) : Type 0 where
  pub at : (w : W) (a : A) → (m w).0 ≡ ok a → P (m w).1

module _ {W E A B : Type 0} (m : Exec W E A) (f : A → Exec W E B) where
  -- a chain succeeds by its first call, and ends as the rest does
  pub chain-ok :
      (w : W) (b : B)
      → ((m >>= f) w).0 ≡ ok b
      → (a : A) × ((m w).0 ≡ ok a) × ((m >>= f) w ≡ f a (m w).1) × ((f a (m w).1).0 ≡ ok b)
  unfolding ◌>>=◌
  chain-ok w b h = ground arith

  pub Ends-bind : {P : W → Type 0} → ((a : A) → Ends P (f a)) → Ends P (m >>= f)
  Ends-bind {P} rest = record {
    at = λ w b h.
        let s = chain-ok w b h in let e = s.2 in rw e ((rest s.0).at (m w).1 b (rw (← e) h));
  }

-- What holds of the answer of a call that succeeds, and of the world in which it ends.
pub record Ensures {W E A : Type 0} (P : A → W → Type 0) (m : Exec W E A) : Type 0 where
  pub at : (w : W) (a : A) → (m w).0 ≡ ok a → P a (m w).1

-- the same of the answer alone
abbrev pub Yields : {W E A : Type 0} → (A → Type 0) → Exec W E A → Type 0
Yields P m = Ensures (λ a w. P a) m

module _ {W E A B : Type 0} {P : B → W → Type 0} (m : Exec W E A) (f : A → Exec W E B) where
  pub Ensures-after :
      (Q : A → Type 0) → Yields Q m → ((a : A) → Q a → Ensures P (f a)) → Ensures P (m >>= f)
  Ensures-after Q first rest = record {
    at = λ w b h.
        let s = chain-ok m f w b h in
        let e = s.2 in rw e ((rest s.0 (first.at w s.0 s.1)).at (m w).1 b (rw (← e) h));
  }

  pub Ensures-bind : ((a : A) → Ensures P (f a)) → Ensures P (m >>= f)
  Ensures-bind rest = record {
    at = λ w b h.
        let s = chain-ok m f w b h in let e = s.2 in rw e ((rest s.0).at (m w).1 b (rw (← e) h));
  }

pub Ensures-pure :
    {W E A : Type 0} {P : A → W → Type 0} (a : A)
    → ((w : W) → P a w)
    → Ensures P (pure {W = W} {E = E} a)
unfolding pure
Ensures-pure {P} a p = record { at = λ w b h. let e = ok-injective h in rw (← e) (p w) }

pub Ensures-match_result :
    {W E F A B : Type 0} {P : B → W → Type 0} (f : A → Exec W F B) (g : E → Exec W F B)
    (r : Result E A)
    → ((a : A) → Ensures P (f a))
    → ((e : E) → Ensures P (g e))
    → Ensures P (match_result r f g)
unfolding match_result
Ensures-match_result f g (ok a) p q = record { at = (p a).at }
Ensures-match_result f g (err e) p q = record { at = (q e).at }

-- a call that fails ensures everything
Ensures-throw : {W E A : Type 0} {P : A → W → Type 0} (e : E) → Ensures P (throw {W = W} {A = A} e)
unfolding throw
Ensures-throw e = record { at = λ w a h. absurd (cc) }

pub Ensures-context :
    {W E F A : Type 0} {P : A → W → Type 0} (f : E → F) (m : Exec W E A)
    → Ensures P m
    → Ensures P (context f m)
unfolding context
Ensures-context f m p = record { at = λ w a h. p.at w a (map_err-ok f (m w).0 h) }

-- the first call of a chain succeeds, in some world
pub Ensures-first :
    {W E A B : Type 0} (m : Exec W E A) (f : A → Exec W E B)
    → Ensures (λ b w. (v : W) × (a : A) × ((m v).0 ≡ ok a)) (m >>= f)
Ensures-first m f = record { at = λ w b h. let s = chain-ok m f w b h in (w, s.0, s.1) }

module _ {W E A B : Type 0} where
  agree :
      (r : Result E A × W) (f g : A → Exec W E B)
      → ((a : A) → r.0 ≡ ok a → (v : W) → f a v ≡ g a v)
      → elim (r.0) as (λ _. Result E B × W) [ ok a ↦ f a (r.1) | err e ↦ (err e, r.1) ]
        ≡ elim (r.0) as (λ _. Result E B × W) [ ok a ↦ g a (r.1) | err e ↦ (err e, r.1) ]
  agree (ok a, w) f g same = same a refl w
  agree (err e, w) f g same = refl

  -- Two chains that begin alike agree, if their rests agree on what the first call answers.
  pub bind-agree :
      (m : Exec W E A) (f g : A → Exec W E B) (w : W)
      → ((a : A) → (m w).0 ≡ ok a → (v : W) → f a v ≡ g a v)
      → (m >>= f) w ≡ (m >>= g) w
  unfolding ◌>>=◌
  bind-agree m f g w same = agree (m w) f g same
