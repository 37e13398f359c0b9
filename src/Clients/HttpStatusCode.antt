-- ===== src/Clients/HttpStatusCode.antt =====
-- model/src/clients/http_status_code.rs: status codes of errors. `StatusCode` is its number.
use bottlerocket_test_system.Base.{
  ℕ, Bool, false, ◌&&◌, Option, none, some, ltb, leb, ◌==◌, if◌then◌else◌,
}
use bottlerocket_test_system.Base.Result.{Result, ok, err}
use bottlerocket_test_system.Kube.{KubeError, api, other}

abbrev pub not_found : ℕ
not_found = 404

abbrev pub conflict : ℕ
conflict = 409

pub record HttpStatusCode (E : Type 0) : Type 0 where
  pub status_code : E → Option ℕ

-- `StatusCode::from_u16` takes the codes from 100 to 999.
abbrev kube_status_code : KubeError → Option ℕ
kube_status_code (api code) = if leb 100 code && ltb code 1000 then some code else none
kube_status_code (other _) = none

instance abbrev pub kube_error_status : HttpStatusCode KubeError
kube_error_status = record { status_code = kube_status_code }

unfoldable pub is_status_code : {E : Type 0} ⦃h : HttpStatusCode E⦄ → E → ℕ → Bool
is_status_code ⦃h⦄ e code = elim (h.status_code e) [ none ↦ false | some c ↦ c == code ]

-- the same test of a `Result`
unfoldable pub result_is_status_code : {E A : Type 0} ⦃h : HttpStatusCode E⦄ → Result E A → ℕ → Bool
result_is_status_code (ok _) code = false
result_is_status_code (err e) code = is_status_code e code

unfoldable pub allow_not_found :
    {E A : Type 0} ⦃h : HttpStatusCode E⦄ → Result E A → Result E (Option A)
allow_not_found (ok a) = ok (some a)
allow_not_found (err e) = if is_status_code e not_found then ok none else err e
