-- ===== src/Model/Crd.antt =====
-- model/src/lib.rs: the two kinds of objects as one, and their names.
use bottlerocket_test_system.Base.{String, Bool, false, Option, List, [], unwrap_or, str_eq}
use bottlerocket_test_system.Model.Meta.{name_any}
use bottlerocket_test_system.Model.Resource.{Resource}
use bottlerocket_test_system.Model.Test.{Test}

pub data CrdName : Type 0 where
  test resource : String → CrdName

pub data Crd : Type 0 where
  test : Test → Crd
  resource : Resource → Crd

-- `==` of `CrdName`
abbrev pub crd_name_eq : CrdName → CrdName → Bool
crd_name_eq (CrdName.test a) (CrdName.test b) = str_eq a b
crd_name_eq (CrdName.resource a) (CrdName.resource b) = str_eq a b
crd_name_eq _ _ = false

-- `CrdName::name`
abbrev name_of : CrdName → String
name_of (CrdName.test n) = n
name_of (CrdName.resource n) = n

-- `Crd::name`
unfoldable pub name : Crd → Option String
name (test t) = t.metadata.name
name (resource r) = r.metadata.name

-- `Crd::labels`
unfoldable pub labels : Crd → List (String × String)
labels (test t) = unwrap_or [] t.metadata.labels
labels (resource r) = unwrap_or [] r.metadata.labels

-- `CrdName::from`
unfoldable pub crd_name : Crd → CrdName
crd_name (test t) = CrdName.test (name_any t.metadata)
crd_name (resource r) = CrdName.resource (name_any r.metadata)
