-- ===== src/Model/Meta/Finalizers.antt =====
-- The queries on finalizers agree with one another.
use bottlerocket_test_system.Base.{
  ℕ, zero, suc, String, ◌≡◌, ◌≢◌, true, none, some, List, [], ◌∷◌, contains, position, get_elem?,
  arith, eq_iff,
}
use bottlerocket_test_system.Model.Meta.{
  ObjectMeta, has_finalizer, has_finalizers, finalizer_position,
}

pub has_finalizers-has_finalizer :
    (m : ObjectMeta) (f : String) → has_finalizer m f ≡ true → has_finalizers m ≡ true
unfolding has_finalizer has_finalizers contains
has_finalizers-has_finalizer m f h = ground arith

-- an item that the list has is found
position-contains : (xs : List String) (a : String) → contains xs a ≡ true → position xs a ≢ none
unfolding contains position
position-contains [] a h p = cc
position-contains (x ∷ xs) a h p = ground (arith, position-contains xs a)

pub finalizer_position-has_finalizer :
    (m : ObjectMeta) (f : String) → has_finalizer m f ≡ true → finalizer_position m f ≢ none
unfolding has_finalizer finalizer_position
finalizer_position-has_finalizer m f h p = grind (arith, position-contains)

-- what stands at the found position
pub get_elem?-position :
    (xs : List String) (a : String) (i : ℕ) → position xs a ≡ some i → get_elem? xs i ≡ some a
unfolding position
get_elem?-position [] a i h = cc
get_elem?-position (x ∷ xs) a zero h = ground (arith, eq_iff x a)
get_elem?-position (x ∷ xs) a (suc i) h = ground (arith, eq_iff x a, get_elem?-position xs a i)
