-- ===== src/Manager/Install.antt =====
-- model/src/test_manager/manager_impl.rs and install.rs: objects that are created, or updated if they
-- exist. `D` is a kind of Kubernetes objects.
pub mod Retries
use bottlerocket_test_system.Base.{ℕ, zero, suc, String, Bool, Option, none, some, if◌then◌else◌}
use bottlerocket_test_system.Base.Result.{Result, ok, err, map_err, is_ok}
use bottlerocket_test_system.Base.Exec.{Exec, ◌>>=◌, ◌>>◌, context}
use bottlerocket_test_system.Model.Constants.{namespace}
use bottlerocket_test_system.Clients.HttpStatusCode.{allow_not_found, kube_error_status}
use bottlerocket_test_system.Kube.{KubeError}
use bottlerocket_test_system.Manager.{Error, create, kube}

-- `kube::Api<D>` with `Patch::Merge`
pub record ObjectApi (W D : Type 0) : Type 0 where
  pub name_any : D → String
  pub get : String → W → Result KubeError D
  pub merge : String → D → Exec W KubeError D
  pub create : D → Exec W KubeError D
  pub delete : String → Exec W KubeError (Unit {0})

abbrev pub max_retries : ℕ
max_retries = 3

-- in milliseconds
abbrev pub backoff : ℕ
backoff = 500

module _ {W D : Type 0} (api : ObjectApi W D) (sleep : ℕ → W → W) where
  pub create_or_update_internal : D → String → Exec W Error (Unit {0})
  create_or_update_internal d what w =
      let r =
        (elim (api.get (api.name_any d) w) as (λ _. Exec W KubeError D) [
          | ok deployment ↦ api.merge (api.name_any deployment) d
          | err e ↦ api.create d
        ])
          w in
      elim (r.0) [ ok a ↦ (ok tt, r.1) | err e ↦ (err (Error.create what e), r.1) ]

  -- the attempts that are left, and the last error
  pub attempts : ℕ → Option Error → D → String → Exec W Error (Unit {0})
  unfolding create_or_update_internal
  attempts zero none d what w = (ok tt, w)
  attempts zero (some e) d what w = (err e, w)
  attempts (suc n) last d what w =
      let r = create_or_update_internal d what w in
      elim (r.0) [ ok a ↦ (ok tt, r.1) | err e ↦ attempts n (some e) d what (sleep backoff r.1) ]

  pub create_or_update : D → String → Exec W Error (Unit {0})
  unfolding attempts
  create_or_update d what = attempts max_retries none d what

module _ {W N : Type 0} (api : ObjectApi W N) (sleep : ℕ → W → W) where
  -- the reads until the namespace is there, at most a number of them
  settle : ℕ → W → W
  settle zero w = w
  settle (suc n) w =
      let later = settle n (sleep 50 w) in if is_ok (api.get namespace w) then w else later

  unfoldable pub create_namespace : N → Exec W Error (Unit {0})
  unfolding create_or_update settle
  create_namespace ns = do
    create_or_update api sleep ns "namespace"
    λ w.
        let v = settle 20 w in
        elim (api.get namespace v) [
          | ok n ↦ (ok tt, v)
          | err e ↦ (err (Error.create "namespace" e), v)
        ]

  -- `none`: the rounds were not enough.
  unfoldable pub wait_for_namespace_deletion : ℕ → Exec W Error (Option (Unit {0}))
  wait_for_namespace_deletion zero w = (ok none, w)
  wait_for_namespace_deletion (suc rounds) w =
      let again = wait_for_namespace_deletion rounds (sleep 5_000 w) in
      elim (allow_not_found (api.get namespace w)) [
        | err e ↦ (err (kube "get Namespace CRD" e), w)
        | ok none ↦ (ok (some tt), w)
        | ok (some n) ↦ again
      ]

-- `uninstall_testsys`: the namespace, and the definitions of the two kinds of objects
unfoldable pub uninstall_testsys :
    {W N D : Type 0}
    → ObjectApi W N
    → ObjectApi W D
    → (test_crd resource_crd : String) → Exec W Error (Unit {0})
uninstall_testsys n d test_crd resource_crd = do
  context (kube "delete TestSys namespace") (n.delete namespace)
  context (kube "delete TestSys Test CRD") (d.delete test_crd)
  context (kube "delete TestSys Resource CRD") (d.delete resource_crd)
