-- ===== src/Model/Meta.antt =====
-- model/src/crd_ext.rs: queries on the metadata of an object. `CrdExt` gives each object its
-- `object_meta`; the functions here take that metadata.
pub mod Finalizers
pub mod Release
use bottlerocket_test_system.Base.{
  ℕ, String, Bool, false, not, Option, none, some, List, [], ◌∷◌, is_empty, contains, position,
  is_some, unwrap_or, if◌then◌else◌,
}

-- the fields of `ObjectMeta` that the code reads or sets
pub record ObjectMeta : Type 0 where
  pub name : Option String
  pub namespace : Option String
  pub uid : Option String
  pub labels : Option (List (String × String))
  pub finalizers : Option (List String)
  pub deletion_timestamp : Option String
  pub resource_version : Option String

-- `ResourceExt::name_any`: an object of the server has a name.
abbrev pub name_any : ObjectMeta → String
name_any m = unwrap_or "" m.name

unfoldable pub object_name : ObjectMeta → String
object_name m = unwrap_or "" m.name

-- Duplicates are dropped. The order of a `HashSet` is not visible, the list keeps the first ones.
insert_all : List String → List String → List String
unfolding contains
insert_all seen [] = seen
insert_all seen (x ∷ xs) = insert_all (if contains seen x then seen else x ∷ seen) xs

unfoldable pub finalizer_set : ObjectMeta → List String
unfolding insert_all
finalizer_set m = elim m.finalizers [ none ↦ [] | some fs ↦ insert_all [] fs ]

unfoldable pub has_finalizers : ObjectMeta → Bool
has_finalizers m = elim m.finalizers [ none ↦ false | some fs ↦ not (is_empty fs) ]

unfoldable pub has_finalizer : ObjectMeta → String → Bool
has_finalizer m finalizer = elim m.finalizers [ none ↦ false | some fs ↦ contains fs finalizer ]

unfoldable pub finalizer_position : ObjectMeta → String → Option ℕ
finalizer_position m finalizer = elim m.finalizers [ none ↦ none | some fs ↦ position fs finalizer ]

unfoldable pub is_delete_requested : ObjectMeta → Bool
is_delete_requested m = is_some m.deletion_timestamp
