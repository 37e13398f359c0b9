-- ===== src/Model/Meta/Release.antt =====
-- The metadata of an object that has lost a finalizer, as a removal leaves it.
use bottlerocket_test_system.Base.{
  String, false, none, some, List, [], ◌∷◌, contains, str_eq, if◌then◌else◌, ◌≡◌, arith, eq_iff,
}
use bottlerocket_test_system.Model.Meta.{ObjectMeta, has_finalizer}

-- a list without the copies of a text
abbrev without : String → List String → List String
without f [] = []
without f (x ∷ xs) = if str_eq x f then without f xs else x ∷ without f xs

-- the metadata of an object after a finalizer was taken away, with all copies if there are more
abbrev pub release : String → ObjectMeta → ObjectMeta
release f m = record m {
  finalizers = elim m.finalizers [ none ↦ none | some fs ↦ some (without f fs) ];
}

contains-without :
    (f g : String) (xs : List String)
    → contains (without f xs) g ≡ (if str_eq f g then false else contains xs g)
unfolding contains
contains-without f g [] = ground arith
contains-without f g (x ∷ xs) =
    ground (arith, contains-without f g xs, eq_iff x f, eq_iff f g, eq_iff x g)

pub has_finalizer-release :
    (f g : String) (m : ObjectMeta)
    → has_finalizer (release f m) g ≡ (if str_eq f g then false else has_finalizer m g)
unfolding has_finalizer
has_finalizer-release f g m = grind (arith, contains-without f g)
