-- ===== src/Manager/Dependencies/Ends.antt =====
-- When the loop that adds dependencies ends.
use bottlerocket_test_system.Base.{
  In, ℕ, zero, suc, ◌≤◌, ◌<◌, none, some, List, [], ◌∷◌, ◌++◌, ◌≡◌, ◌⊎◌, inl, inr, refl, arith,
}
use mathlib.Core.List.{reverse}
use bottlerocket_test_system.Base.Result.{Result, ok, err, Result-cases}
use bottlerocket_test_system.Model.Crd.{Crd}
use bottlerocket_test_system.Manager.{TestManager, Error}
use bottlerocket_test_system.Manager.Dependencies.{
  needs, push_all, existing, visit, add_dependencies_to_vec,
}
use bottlerocket_test_system.Manager.Dependencies.Closed.{
  total, total-push_all, total-reverse, In-push_all, In-reverse,
}

module _ {W : Type 0} (m : TestManager W) (w : W) where
  -- positive costs that fall from an object to all that it depends on together
  abbrev pub Falls : (Crd → ℕ) → Type 0
  Falls cost =
      (c : Crd)
      → (0 < cost c) × ((rs : List Crd) → existing m w (needs c) ≡ ok rs → total cost rs < cost c)

  visit-returns :
      (cost : Crd → ℕ)
      → Falls cost
      → (visits : ℕ) (todo deps : List Crd) → total cost todo ≤ visits
      → (r : Result Error (List Crd)) × (visit m w visits todo deps ≡ some r)
  unfolding visit
  visit-returns cost falls visits [] deps h = (ok deps, refl)
  visit-returns cost falls zero (c ∷ cs) deps h = let f = falls c in absurd (omega (arith, f.0))
  visit-returns cost falls (suc visits) (c ∷ cs) deps h =
      elim (Result-cases (existing m w (needs c))) [
        | inl (e, p) ↦ (err e, rw (p, visit))
        | inr (rs, p) ↦
            let f = falls c in
            let less = f.1 rs p in
            let n =
              visit-returns cost falls visits (push_all rs cs) (deps ++ c ∷ [])
                (omega (arith, less, total-push_all cost rs cs)) in
            (n.0, rw (p, visit) n.1)
      ]

  -- Let each object have a positive cost, which is more than that of the existing resources that it
  -- depends on together. Then the dependencies of a list of objects are added, or a read fails, in as
  -- many visits as the objects cost together.
  pub add_dependencies_to_vec-returns :
      (cost : Crd → ℕ) (visits : ℕ) (objects : List Crd)
      → Falls cost
      → total cost objects ≤ visits
      → (r : Result Error (List Crd)) × (add_dependencies_to_vec m w visits objects ≡ some r)
  unfolding add_dependencies_to_vec
  add_dependencies_to_vec-returns cost visits objects falls h =
      visit-returns cost falls visits (reverse objects) []
        (omega (arith, total-reverse cost objects))

  -- objects each of which depends on another one of them, or on itself
  abbrev pub IsCyclic : (Crd → Type 0) → Type 0
  IsCyclic P =
      (c : Crd) → P c → (rs : List Crd) → existing m w (needs c) ≡ ok rs → (y : Crd) × P y × In y rs

  stays :
      (P : Crd → Type 0)
      → IsCyclic P
      → (c x : Crd) (cs rs : List Crd) → existing m w (needs c) ≡ ok rs
      → P x
      → (x ≡ c) ⊎ In x cs
      → (y : Crd) × P y × In y (push_all rs cs)
  stays P cyclic c x cs rs p member (inl e) =
      let y = cyclic x member rs (rw e p) in (y.0, y.1, In-push_all y.0 rs cs (inl y.2))
  stays P cyclic c x cs rs p member (inr i) = (x, member, In-push_all x rs cs (inr i))

  visit-cyclic :
      (P : Crd → Type 0)
      → IsCyclic P
      → ((c : Crd) → (rs : List Crd) × (existing m w (needs c) ≡ ok rs))
      → (visits : ℕ) (todo deps : List Crd) (x : Crd) → P x
      → In x todo
      → visit m w visits todo deps ≡ none
  unfolding visit
  visit-cyclic P cyclic reads visits [] deps x member i = absurd i
  visit-cyclic P cyclic reads zero (c ∷ cs) deps x member i = refl
  visit-cyclic P cyclic reads (suc visits) (c ∷ cs) deps x member i =
      let rs = reads c in
      let y = stays P cyclic c x cs rs.0 rs.1 member i in
      let e = rs.1 in
      rw (e, visit)
        (visit-cyclic P cyclic reads visits (push_all rs.0 cs) (deps ++ c ∷ []) y.0 y.1 y.2)

  -- Let every read succeed. If one of the given objects is on a cycle of dependencies, that is in a
  -- set of objects each of which depends on an existing one of the set, then no number of visits is
  -- enough: the loop does not end.
  pub add_dependencies_to_vec-cyclic :
      (P : Crd → Type 0) (visits : ℕ) (objects : List Crd) (x : Crd)
      → IsCyclic P
      → ((c : Crd) → (rs : List Crd) × (existing m w (needs c) ≡ ok rs))
      → P x
      → In x objects
      → add_dependencies_to_vec m w visits objects ≡ none
  unfolding add_dependencies_to_vec
  add_dependencies_to_vec-cyclic P visits objects x cyclic reads member i =
      visit-cyclic P cyclic reads visits (reverse objects) [] x member (In-reverse x objects i)
