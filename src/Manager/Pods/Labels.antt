-- ===== src/Manager/Pods/Labels.antt =====
-- The labels by which pods are looked up.
use Prim.Native.Nat.{ℕ, zero, suc, ◌≤◌, ◌<◌}
use Prim.Native.String.{String, [], ◌∷◌, ◌++◌, count}
use text.Mathlib.TextLemmas.{length-append, length-cons}
use mathlib.Core.List.{[] as nil}
use bottlerocket_test_system.Base.{unwrap_or, some, ap, ◌≡◌, ◌≢◌, arith}
use bottlerocket_test_system.Base.Result.{ok}
use bottlerocket_test_system.Model.Constants.{trunc_len}
use bottlerocket_test_system.Model.Crd.{CrdName}
use bottlerocket_test_system.Model.Meta.{ObjectMeta}
use bottlerocket_test_system.Model.Resource.JobName.{
  ResourceState, creation, destruction, take_chars, suffix, job_name,
}
use bottlerocket_test_system.Model.Resource.JobName.Bounds.{length-job_name}
use bottlerocket_test_system.Manager.{TestManager}
use bottlerocket_test_system.Manager.Pods.{job_label, get_pods}

length-take_chars_all : (n : ℕ) (s : String) → count s ≤ n → count (take_chars n s) ≡ count s
unfolding take_chars
length-take_chars_all zero [] h = omega arith
length-take_chars_all zero (c ∷ s) h = absurd (omega (arith, length-cons c s))
length-take_chars_all (suc n) [] h = omega arith
length-take_chars_all (suc n) (c ∷ s) h =
    let l = length-cons c s in
    omega (arith, l, length-take_chars_all n s (omega (arith, l)), length-cons c (take_chars n s))

length-suffix_bounds : (s : ResourceState) → (8 ≤ count (suffix s)) × (count (suffix s) ≤ 11)
length-suffix_bounds creation = omega arith
length-suffix_bounds destruction = omega arith

-- the label of a job is longer than a label without the unique identifier
label-differs :
    (m : ObjectMeta) (n tail : String) (state : ResourceState)
    → m.name ≡ some n
    → count n ≤ trunc_len
    → 3 < count (unwrap_or "" m.uid)
    → count tail ≤ 12
    → job_label (n ++ tail) ≢ job_label (job_name m state)
label-differs m n tail state named short long small e =
    let name : unwrap_or "" m.name ≡ n = rw named in
    let l : count (unwrap_or "" m.name) ≡ count n = ap count name in
    absurd (
      omega (
        arith,
        ap count e,
        length-append "job-name=" (n ++ tail),
        length-append "job-name=" (job_name m state),
        length-append n tail,
        length-job_name m state,
        length-take_chars_all trunc_len (unwrap_or "" m.name) (omega (arith, l)),
        l,
        length-suffix_bounds state,
      ))

module _ {W : Type 0} (m : TestManager W) where
  -- Let a resource have a name that is not truncated in the names of its jobs and a unique identifier of
  -- more than 3 characters, and let all pods carry the label of one of its two jobs. Then `get_pods`
  -- finds none of its pods: it leaves the unique identifier out of the labels.
  pub get_pods-misses :
      (o : ObjectMeta) (n : String) (w : W)
      → o.name ≡ some n
      → count n ≤ trunc_len
      → 3 < count (unwrap_or "" o.uid)
      → ((label : String)
          → label ≢ job_label (job_name o creation)
          → label ≢ job_label (job_name o destruction)
          → m.list_pods label w ≡ ok nil)
      → get_pods m w (CrdName.resource n) ≡ ok nil
  unfolding get_pods
  get_pods-misses o n w named short long only =
      let none_at = λ (tail : String) (small : count tail ≤ 12).
        only (job_label (n ++ tail)) (label-differs o n tail creation named short long small)
          (label-differs o n tail destruction named short long small) in
      ground (arith, none_at "-creation" (omega arith), none_at "-destruction" (omega arith))
