-- ===== src/Model/Resource/JobName.antt =====
-- model/src/resource.rs, `Resource::job_name`. A name is ASCII (an RFC 1123 subdomain), so its
-- bytes are its characters, and `truncate` cuts between two of them.
pub mod Bounds
use Prim.Native.Nat.{ℕ, zero, suc}
use Prim.Native.String.{String, [], ◌∷◌, ◌++◌}
use bottlerocket_test_system.Base.{unwrap_or}
use bottlerocket_test_system.Model.Constants.{trunc_len}
use bottlerocket_test_system.Model.Meta.{ObjectMeta}

-- `ResourceState` of model/src/test_manager/mod.rs
pub data ResourceState : Type 0 where
  creation destruction : ResourceState

-- `String::truncate`
unfoldable pub take_chars : ℕ → String → String
take_chars zero s = []
take_chars (suc n) [] = []
take_chars (suc n) (c ∷ s) = c ∷ take_chars n s

abbrev pub suffix : ResourceState → String
suffix creation = "creation"
suffix destruction = "destruction"

pub job_name : ObjectMeta → ResourceState → String
unfolding take_chars
job_name m state =
    take_chars trunc_len (unwrap_or "" m.name) ++ (unwrap_or "" m.uid ++ ("-" ++ suffix state))
