-- ===== src/Manager/Dependencies.antt =====
-- model/src/test_manager/manager_impl.rs, `add_dependencies_to_vec`: objects with all that they
-- depend on. The loop takes a number of visits; `none` means that they were not enough.
pub mod Closed
pub mod Ends
use bottlerocket_test_system.Base.{
  ℕ, zero, suc, String, Option, none, some, List, [], ◌∷◌, ◌++◌, unwrap_or,
}
use mathlib.Core.List.{reverse}
use bottlerocket_test_system.Base.Result.{Result, ok, err}
use bottlerocket_test_system.Model.Crd.{Crd}
use bottlerocket_test_system.Model.Resource.{Resource}
use bottlerocket_test_system.Clients.Error.{client_error_status}
use bottlerocket_test_system.Clients.HttpStatusCode.{allow_not_found}
use bottlerocket_test_system.Clients.CrdClient.{get}
use bottlerocket_test_system.Manager.{TestManager, Error, client}

-- what an object depends on
abbrev pub needs : Crd → List String
needs (Crd.test t) = t.spec.resources
needs (Crd.resource r) = unwrap_or [] r.spec.depends_on

-- `push` of each item. The last item of the vector, which `pop` takes, is the first of the list.
abbrev pub push_all : List Crd → List Crd → List Crd
push_all [] todo = todo
push_all (x ∷ xs) todo = push_all xs (x ∷ todo)

module _ {W : Type 0} (m : TestManager W) (w : W) where
  -- the named resources that exist, in order
  unfoldable pub existing : List String → Result Error (List Crd)
  existing [] = ok []
  existing (n ∷ ns) =
      let rest = existing ns in
      elim (allow_not_found (get m.resource_client n w)) [
        | err e ↦ err (client "get resource" e)
        | ok none ↦ rest
        | ok (some r) ↦ elim rest [ err e ↦ err e | ok rs ↦ ok (Crd.resource r ∷ rs) ]
      ]

  -- the loop over `to_be_visited` with the dependencies so far
  pub visit : ℕ → List Crd → List Crd → Option (Result Error (List Crd))
  unfolding existing
  visit visits [] dependencies = some (ok dependencies)
  visit zero (c ∷ cs) dependencies = none
  visit (suc visits) (c ∷ cs) dependencies = elim (existing (needs c)) [
    | err e ↦ some (err e)
    | ok rs ↦ visit visits (push_all rs cs) (dependencies ++ c ∷ [])
  ]

  unfoldable pub add_dependencies_to_vec : ℕ → List Crd → Option (Result Error (List Crd))
  unfolding visit
  add_dependencies_to_vec visits objects = visit visits (reverse objects) []
