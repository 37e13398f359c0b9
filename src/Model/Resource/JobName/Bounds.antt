-- ===== src/Model/Resource/JobName/Bounds.antt =====
-- How long the name of a job is, and which jobs have the same name.
use Prim.Native.Nat.{ℕ, zero, suc, ◌+◌, ◌≤◌}
use Prim.Native.String.{String, [], ◌∷◌, ◌++◌, count}
use text.Mathlib.TextLemmas.{length-append, length-cons}
use bottlerocket_test_system.Base.{unwrap_or, ap, ◌≡◌, ◌≢◌, arith}
use bottlerocket_test_system.Model.Constants.{trunc_len}
use bottlerocket_test_system.Model.Meta.{ObjectMeta}
use bottlerocket_test_system.Model.Resource.JobName.{
  ResourceState, creation, destruction, take_chars, suffix, job_name,
}

length-take_chars : (n : ℕ) (s : String) → count (take_chars n s) ≤ n
unfolding take_chars
length-take_chars zero s = omega arith
length-take_chars (suc n) [] = omega arith
length-take_chars (suc n) (c ∷ s) =
    omega (arith, length-take_chars n s, length-cons c (take_chars n s))

length-suffix : (state : ResourceState) → count (suffix state) ≤ 11
length-suffix creation = omega arith
length-suffix destruction = omega arith

pub length-job_name :
    (m : ObjectMeta) (state : ResourceState)
    → count (job_name m state)
      ≡ count (take_chars trunc_len (unwrap_or "" m.name))
        + (count (unwrap_or "" m.uid) + (1 + count (suffix state)))
unfolding job_name
length-job_name m state = omega (
  arith,
  length-append (take_chars trunc_len (unwrap_or "" m.name))
      (unwrap_or "" m.uid ++ ("-" ++ suffix state)),
  length-append (unwrap_or "" m.uid) ("-" ++ suffix state),
  length-append "-" (suffix state),
)

-- Where the unique identifier has 36 characters at most, as a UUID has, the name of a job has 63
-- characters at most, which is the limit of Kubernetes.
length-job_name-le :
    (m : ObjectMeta) (state : ResourceState)
    → count (unwrap_or "" m.uid) ≤ 36
    → count (job_name m state) ≤ 63
length-job_name-le m state h = omega (
  arith,
  length-job_name m state,
  length-take_chars trunc_len (unwrap_or "" m.name),
  length-suffix state,
)

-- The two jobs of a resource have different names.
job_name-differs : (m : ObjectMeta) → job_name m creation ≢ job_name m destruction
job_name-differs m p =
    omega (arith, ap count p, length-job_name m creation, length-job_name m destruction)
