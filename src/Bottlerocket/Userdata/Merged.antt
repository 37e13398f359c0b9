-- ===== src/Bottlerocket/Userdata/Merged.antt =====
-- What a merge of two TOML values holds at each path.
use bottlerocket_test_system.Base.{
  ◌<◌, String, false, Option, none, some, List, [], ◌∷◌, ◌≡◌, refl, arith, inl, inr, Bool-cases,
  str_eq, eq_iff, if◌then◌else◌,
}
use bottlerocket_test_system.Base.Result.{ok, bind-ok}
use bottlerocket_test_system.Bottlerocket.Userdata.{
  Table, no_entry, entry, Value, string, integer, float, datetime, boolean, array, table, kind,
  lookup, put, replace, merge_entry, merge_values, merge_table,
}

-- the value at a path of keys
pub at : List String → Value → Option Value
at [] v = some v
at (k ∷ ks) (table t) = elim (lookup k t) [ none ↦ none | some v ↦ at ks v ]
at (k ∷ ks) v = none

-- No table has a key twice, at any depth.
unfoldable mutual
  pub IsMap : Value → Type 0
  IsMap (table t) = IsMapTable t
  IsMap v = Unit

  IsMapTable : Table → Type 0
  IsMapTable no_entry = Unit
  IsMapTable (entry k v t) = (lookup k t ≡ none) × (IsMap v × IsMapTable t)

-- What is read of a merge, from what is read of the value that is merged and of the value it is merged
-- into.
pub Overlays : Option Value → Option Value → Option Value → Type 0
Overlays none old new = new ≡ old
Overlays (some (table t)) none new = new ≡ some (table t)
Overlays (some (table t)) (some old) new =
    (kind old ≡ kind (table t)) × ((u : Table) × (new ≡ some (table u)))
Overlays (some v) none new = new ≡ some v
Overlays (some v) (some old) new = (kind old ≡ kind v) × (new ≡ some v)

-- one key of a table
abbrev OfKey : Option Value → Option Value → Option Value → Type 0
OfKey none old new = new ≡ old
OfKey (some v) none new = new ≡ some v
OfKey (some v) (some old) new =
    (merged : Value) × (merge_values v old ≡ ok merged) × (new ≡ some merged)

lookup-put :
    (j k : String) (v : Value) (t : Table)
    → lookup k (put j v t) ≡ (if str_eq j k then some v else lookup k t)
lookup-put j k v no_entry = ground arith
lookup-put j k v (entry i w t) =
    ground (arith, lookup-put j k v t, eq_iff i j, eq_iff j k, eq_iff i k)

-- what one entry does to the key it is about
entry_same :
    (j : String) (v : Value) (o : Option Value) (to t : Table)
    → merge_entry j (merge_values v) v o to ≡ ok t
    → (lookup j to ≡ o)
    → OfKey (some v) o (lookup j t)
entry_same j v none to t h e = ground (arith, lookup-put j j v to, eq_iff j j)
entry_same j v (some old) to t h e =
    let s = bind-ok (merge_values v old) (λ new. ok (put j new to)) h in
    (s.0, s.1, ground (arith, s.2, lookup-put j j s.0 to, eq_iff j j))

-- and to the others
entry_other :
    (j k : String) (v : Value) (o : Option Value) (to t : Table)
    → merge_entry j (merge_values v) v o to ≡ ok t
    → str_eq j k ≡ false
    → lookup k t ≡ lookup k to
entry_other j k v none to t h e = ground (arith, lookup-put j k v to)
entry_other j k v (some old) to t h e =
    let s = bind-ok (merge_values v old) (λ new. ok (put j new to)) h in
    ground (arith, s.2, lookup-put j k s.0 to)

-- The rest of the entries leaves a key alone that it has not.
untouched :
    (k : String) (from mid t : Table)
    → lookup k from ≡ none
    → OfKey (lookup k from) (lookup k mid) (lookup k t)
    → lookup k t ≡ lookup k mid
untouched k from mid t e h = rw e at h

merge_table-OfKey :
    (from to t : Table) (k : String)
    → IsMapTable from
    → merge_table from to ≡ ok t
    → OfKey (lookup k from) (lookup k to) (lookup k t)
unfolding merge_table IsMapTable
merge_table-OfKey no_entry to t k m h = ground arith
merge_table-OfKey (entry j v from) to t k m h =
    let s = bind-ok (merge_entry j (merge_values v) v (lookup j to) to) (merge_table from) h in
    let ih = merge_table-OfKey from s.0 t k m.1.1 s.2 in
    elim (Bool-cases (str_eq j k)) [
      | inl e ↦
          let same : j ≡ k = (eq_iff j k).0 e in
          let first : OfKey (some v) (lookup k to) (lookup k s.0) =
            rw (← same) (entry_same j v (lookup j to) to s.0 s.1 refl) in
          let kept : lookup k t ≡ lookup k s.0 = untouched k from s.0 t (rw (← same) m.0) ih in
          rw (e, kept) first
      | inr e ↦ let other = entry_other j k v (lookup j to) to s.0 s.1 e in rw (e, ← other) ih
    ]

-- the two values are of one kind, at a scalar and at an array
replaced : (v w r : Value) → replace v w ≡ ok r → (kind w ≡ kind v) × (r ≡ v)
replaced v w r h = ground arith

merge_values-Overlays_here :
    (v w r : Value) → merge_values v w ≡ ok r → Overlays (some v) (some w) (some r)
unfolding merge_values Overlays
merge_values-Overlays_here (table from) (table to) r h =
    let s = bind-ok (merge_table from to) (λ t. ok (table t)) h in
    (refl, (s.0, ground (arith, s.2)))
merge_values-Overlays_here (table from) w r h = absurd (cc)
merge_values-Overlays_here (string x) w r h = ground (arith, replaced (string x) w r h)
merge_values-Overlays_here (integer x) w r h = ground (arith, replaced (integer x) w r h)
merge_values-Overlays_here (float x) w r h = ground (arith, replaced (float x) w r h)
merge_values-Overlays_here (datetime x) w r h = ground (arith, replaced (datetime x) w r h)
merge_values-Overlays_here (boolean x) w r h = ground (arith, replaced (boolean x) w r h)
merge_values-Overlays_here (array x) w r h = ground (arith, replaced (array x) w r h)

Overlays-new : (o : Option Value) → Overlays o none o
unfolding Overlays
Overlays-new none = refl
Overlays-new (some (table t)) = refl
Overlays-new (some (string s)) = refl
Overlays-new (some (integer s)) = refl
Overlays-new (some (float s)) = refl
Overlays-new (some (datetime s)) = refl
Overlays-new (some (boolean s)) = refl
Overlays-new (some (array s)) = refl

-- a value that is no table has no keys
at-none : (k : String) (ks : List String) (v : Value) → kind v < 6 → at (k ∷ ks) v ≡ none
unfolding at
at-none k ks (table t) l = absurd (omega arith)
at-none k ks (string s) l = refl
at-none k ks (integer s) l = refl
at-none k ks (float s) l = refl
at-none k ks (datetime s) l = refl
at-none k ks (boolean s) l = refl
at-none k ks (array s) l = refl

-- a value that is no table, at a path below it
below :
    (k : String) (ks : List String) (v w r : Value)
    → kind v < 6
    → replace v w ≡ ok r
    → Overlays (at (k ∷ ks) v) (at (k ∷ ks) w) (at (k ∷ ks) r)
unfolding Overlays
below k ks v w r l h =
    let s = replaced v w r h in
    let old = at-none k ks w (omega (arith, s.0)) in
    let new = at-none k ks r (rw s.1 l) in rw (at-none k ks v l, old, new) refl

IsMap-lookup : (t : Table) (k : String) (v : Value) → IsMapTable t → lookup k t ≡ some v → IsMap v
unfolding IsMapTable
IsMap-lookup no_entry k v m e = absurd (cc)
IsMap-lookup (entry j w t) k v m e = elim (Bool-cases (str_eq j k)) [
  | inl same ↦ let e2 : w ≡ v = ground (arith, e, same) in rw (← e2) m.1.0
  | inr other ↦ IsMap-lookup t k v m.1.1 (rw other at e)
]

abbrev under : List String → Option Value → Option Value
under ks o = elim o [ none ↦ none | some v ↦ at ks v ]

deeper :
    (ks : List String) (from old new : Option Value)
    → ((v w r : Value)
        → from ≡ some v
        → merge_values v w ≡ ok r
        → Overlays (at ks v) (at ks w) (at ks r))
    → OfKey from old new
    → Overlays (under ks from) (under ks old) (under ks new)
unfolding Overlays
deeper ks none old new rest h = rw h refl
deeper ks (some v) none new rest h = rw h (Overlays-new (at ks v))
deeper ks (some v) (some old) new rest h = rw h.2 (rest v old h.0 refl h.1)

-- The keys of every table of the value that is merged are different. If the merge succeeds, then at
-- every path of keys the result has what that value has there, or else what the other value had.
-- Where both values have one, the two are of the same type; tables of both give a table.
pub merge_values-Overlays :
    (path : List String) (from into merged : Value)
    → IsMap from
    → merge_values from into ≡ ok merged
    → Overlays (at path from) (at path into) (at path merged)
unfolding merge_values IsMap at
merge_values-Overlays [] v w r m h = merge_values-Overlays_here v w r h
merge_values-Overlays (k ∷ ks) (table from) (table to) r m h =
    let s = bind-ok (merge_table from to) (λ t. ok (table t)) h in
    let known = merge_table-OfKey from to s.0 k m s.1 in
    let rest =
      deeper ks (lookup k from) (lookup k to) (lookup k s.0)
        (λ v w n e g. merge_values-Overlays ks v w n (IsMap-lookup from k v m e) g) known in
    let e : r ≡ table s.0 = cc in rw e rest
merge_values-Overlays (k ∷ ks) (table from) w r m h = absurd (cc)
merge_values-Overlays (k ∷ ks) (string s) w r m h = below k ks (string s) w r (omega arith) h
merge_values-Overlays (k ∷ ks) (integer s) w r m h = below k ks (integer s) w r (omega arith) h
merge_values-Overlays (k ∷ ks) (float s) w r m h = below k ks (float s) w r (omega arith) h
merge_values-Overlays (k ∷ ks) (datetime s) w r m h = below k ks (datetime s) w r (omega arith) h
merge_values-Overlays (k ∷ ks) (boolean s) w r m h = below k ks (boolean s) w r (omega arith) h
merge_values-Overlays (k ∷ ks) (array s) w r m h = below k ks (array s) w r (omega arith) h
