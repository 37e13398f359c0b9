-- ===== src/Examples/Manager/Visits.antt =====
-- The theorems on the visits of dependencies, at a world with one resource.
use bottlerocket_test_system.Base.{
  In, ℕ, ◌+◌, ◌≤◌, String, none, some, List, [], ◌∷◌, length, str_eq, Bool-cases, ◌≡◌, inl, inr,
  refl, arith,
}
use bottlerocket_test_system.Base.Result.{Result, ok}
use bottlerocket_test_system.Model.Crd.{Crd}
use bottlerocket_test_system.Clients.HttpStatusCode.{allow_not_found, is_status_code}
use bottlerocket_test_system.Clients.CrdClient.{get}
use bottlerocket_test_system.Manager.{Error}
use bottlerocket_test_system.Manager.Dependencies.{needs, existing, add_dependencies_to_vec}
use bottlerocket_test_system.Manager.Dependencies.Closed.{total}
use bottlerocket_test_system.Manager.Dependencies.Ends.{
  Falls, IsCyclic, add_dependencies_to_vec-returns, add_dependencies_to_vec-cyclic,
}
use bottlerocket_test_system.Examples.Server.{Server}
use bottlerocket_test_system.Examples.Manager.{manager, resource, world}

-- one resource `a`
abbrev one : List String → Server
one ds = world (resource "a" ds ∷ [])

reads :
    (ds ns : List String)
    → (rs : List Crd) × (existing manager (one ds) ns ≡ ok rs) × (total (λ c. 1) rs ≤ length ns)
unfolding existing get allow_not_found is_status_code
reads ds [] = ([], refl, omega arith)
reads ds (n ∷ ns) =
    let r = reads ds ns in
    elim (Bool-cases (str_eq "a" n)) [
      | inl e ↦ (Crd.resource (resource "a" ds) ∷ r.0, ground (arith, e, r.1), omega (arith, r.2))
      | inr e ↦ (r.0, ground (arith, e, r.1), omega (arith, r.2))
    ]

abbrev cost : Crd → ℕ
cost c = 1 + length (needs c)

costs :
    (ns : List String) (rs : List Crd)
    → existing manager (one []) ns ≡ ok rs
    → total cost rs ≤ length ns
unfolding existing get allow_not_found is_status_code
costs [] rs h = ground arith
costs (n ∷ ns) rs h = let r = reads [] ns in let c = costs ns r.0 r.1 in ground (arith, r.1, c)

cost-Falls : Falls manager (one []) cost
cost-Falls c = (omega arith, λ rs h. omega (arith, costs (needs c) rs h))

add_dependencies_to_vec-returns_example :
    (r : Result Error (List Crd)) × (add_dependencies_to_vec manager
        (one [])
        2
        (Crd.resource (resource "b" ("a" ∷ [])) ∷ [])
      ≡ some r)
add_dependencies_to_vec-returns_example =
    add_dependencies_to_vec-returns manager (one []) cost 2
      (Crd.resource (resource "b" ("a" ∷ [])) ∷ []) cost-Falls (omega arith)

-- the resource `a` that depends on itself
abbrev itself : Crd
itself = Crd.resource (resource "a" ("a" ∷ []))

abbrev IsItself : Crd → Type 0
IsItself c = c ≡ itself

finds_itself : (rs : List Crd) → existing manager (one ("a" ∷ [])) ("a" ∷ []) ≡ ok rs → In itself rs
unfolding existing get allow_not_found is_status_code
finds_itself rs h = let e : itself ∷ [] ≡ rs = cc in rw (← e) (inl refl)

cycle-IsCyclic : IsCyclic manager (one ("a" ∷ [])) IsItself
cycle-IsCyclic c e rs h = let k = rw e at h in (itself, refl, finds_itself rs k)

add_dependencies_to_vec-cyclic_example :
    add_dependencies_to_vec manager (one ("a" ∷ [])) 100 (itself ∷ []) ≡ none
add_dependencies_to_vec-cyclic_example =
    add_dependencies_to_vec-cyclic manager (one ("a" ∷ [])) IsItself 100 (itself ∷ []) itself
      cycle-IsCyclic (λ c. let r = reads ("a" ∷ []) (needs c) in (r.0, r.1)) refl (inl refl)
