-- ===== src/Base/Exec.antt =====
-- Calls that change a world and may fail: `async` functions that return a `Result`.
pub mod Grows
pub mod Preserves
pub mod Runs
use bottlerocket_test_system.Base.Result.{Result, ok, err, map_err}

abbrev pub Exec : Type 0 → Type 0 → Type 0 → Type 0
Exec W E A = W → Result E A × W

module _ {W : Type 0} where
  infixl 5 ◌>>=◌ ◌>>◌
  unfoldable pub ◌>>=◌ : {E A B : Type 0} → Exec W E A → (A → Exec W E B) → Exec W E B
  ◌>>=◌ m f w = let r = m w in elim (r.0) [ ok a ↦ f a (r.1) | err e ↦ (err e, r.1) ]

  abbrev pub ◌>>◌ : {E A B : Type 0} → Exec W E A → Exec W E B → Exec W E B
  m >> k = m >>= λ _. k

  unfoldable pub pure : {E A : Type 0} → A → Exec W E A
  pure a w = (ok a, w)

  unfoldable pub throw : {E A : Type 0} → E → Exec W E A
  throw e w = (err e, w)

  -- a value that was computed by a read of the world
  unfoldable pub read : {E A : Type 0} → (W → Result E A) → Exec W E A
  read f w = (f w, w)

  unfoldable pub context : {E F A : Type 0} → (E → F) → Exec W E A → Exec W F A
  context f m w = let r = m w in (map_err f r.0, r.1)

  -- the result of a call as a value, `match call.await { Ok(..) => .., Err(..) => .. }`
  unfoldable pub attempt : {E F A : Type 0} → Exec W E A → Exec W F (Result E A)
  attempt m w = let r = m w in (ok r.0, r.1)

  -- the two arms of such a match
  unfoldable pub match_result :
      {E F A B : Type 0} → Result E A → (A → Exec W F B) → (E → Exec W F B) → Exec W F B
  match_result (ok a) f g w = f a w
  match_result (err e) f g w = g e w
