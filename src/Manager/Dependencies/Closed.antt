-- ===== src/Manager/Dependencies/Closed.antt =====
-- The dependencies that are added: each comes with its own dependencies.
use bottlerocket_test_system.Base.{
  ℕ, zero, suc, ◌+◌, String, none, some, List, [], ◌∷◌, ◌++◌, ◌≡◌, ◌⊎◌, inl, inr, refl, arith, In,
}
use mathlib.Core.List.{reverse, reverse-append}
use bottlerocket_test_system.Base.Result.{ok, Result-cases}
use bottlerocket_test_system.Model.Crd.{Crd}
use bottlerocket_test_system.Model.Resource.{Resource}
use bottlerocket_test_system.Clients.Error.{client_error_status}
use bottlerocket_test_system.Clients.HttpStatusCode.{allow_not_found}
use bottlerocket_test_system.Clients.CrdClient.{get}
use bottlerocket_test_system.Manager.{TestManager}
use bottlerocket_test_system.Manager.Dependencies.{
  needs, push_all, existing, visit, add_dependencies_to_vec,
}

abbrev pub total : (Crd → ℕ) → List Crd → ℕ
total cost [] = 0
total cost (x ∷ xs) = cost x + total cost xs

pub total-push_all :
    (cost : Crd → ℕ) (xs todo : List Crd)
    → total cost (push_all xs todo) ≡ total cost xs + total cost todo
total-push_all cost [] todo = omega arith
total-push_all cost (x ∷ xs) todo = omega (arith, total-push_all cost xs (x ∷ todo))

total-append :
    (cost : Crd → ℕ) (xs ys : List Crd) → total cost (xs ++ ys) ≡ total cost xs + total cost ys
total-append cost [] ys = omega arith
total-append cost (x ∷ xs) ys = omega (arith, total-append cost xs ys)

pub total-reverse : (cost : Crd → ℕ) (xs : List Crd) → total cost (reverse xs) ≡ total cost xs
total-reverse cost [] = refl
total-reverse cost (x ∷ xs) =
    rw (reverse-append (x ∷ []) xs)
      (omega (arith, total-append cost (reverse xs) (x ∷ []), total-reverse cost xs))

In-append_left : (x : Crd) (xs ys : List Crd) → In x xs → In x (xs ++ ys)
In-append_left x [] ys h = absurd h
In-append_left x (z ∷ xs) ys (inl e) = inl e
In-append_left x (z ∷ xs) ys (inr h) = inr (In-append_left x xs ys h)

In-append_right : (x : Crd) (xs ys : List Crd) → In x ys → In x (xs ++ ys)
In-append_right x [] ys h = h
In-append_right x (z ∷ xs) ys h = inr (In-append_right x xs ys h)

In-append : (x : Crd) (xs ys : List Crd) → In x (xs ++ ys) → In x xs ⊎ In x ys
In-append x [] ys h = inr h
In-append x (z ∷ xs) ys (inl e) = inl (inl e)
In-append x (z ∷ xs) ys (inr h) = elim (In-append x xs ys h) [ inl a ↦ inl (inr a) | inr b ↦ inr b ]

pub In-reverse : (x : Crd) (xs : List Crd) → In x xs → In x (reverse xs)
In-reverse x [] h = absurd h
In-reverse x (z ∷ xs) (inl e) =
    rw (reverse-append (z ∷ []) xs) (In-append_right x (reverse xs) (z ∷ []) (inl e))
In-reverse x (z ∷ xs) (inr h) =
    rw (reverse-append (z ∷ []) xs) (In-append_left x (reverse xs) (z ∷ []) (In-reverse x xs h))

pub In-push_all : (x : Crd) (xs todo : List Crd) → In x xs ⊎ In x todo → In x (push_all xs todo)
In-push_all x [] todo (inl h) = absurd h
In-push_all x [] todo (inr h) = h
In-push_all x (z ∷ xs) todo (inl (inl e)) = In-push_all x xs (z ∷ todo) (inr (inl e))
In-push_all x (z ∷ xs) todo (inl (inr h)) = In-push_all x xs (z ∷ todo) (inl h)
In-push_all x (z ∷ xs) todo (inr h) = In-push_all x xs (z ∷ todo) (inr (inr h))

-- A test depends on the resources that it lists, and a resource on those that its field lists, if
-- it has one.
abbrev pub DependsOn : String → Crd → Type 0
DependsOn n (Crd.test t) = In n t.spec.resources
DependsOn n (Crd.resource r) = (ds : List String) × (r.spec.depends_on ≡ some ds) × In n ds

DependsOn-needs : (n : String) (c : Crd) → DependsOn n c → In n (needs c)
DependsOn-needs n (Crd.test t) h = h
DependsOn-needs n (Crd.resource r) (ds, e, h) = rw e h

module _ {W : Type 0} (m : TestManager W) (w : W) where
  -- What the server has of the resources that an object depends on is in the list.
  abbrev pub HasNeeds : Crd → List Crd → Type 0
  HasNeeds c list =
      (n : String)
      → DependsOn n c
      → (r : Resource) → m.resource_client.api.get n w ≡ ok r
      → In (Crd.resource r) list

  -- a resource that is found comes first
  existing-first :
      (n : String) (ns : List String) (rs : List Crd) (r : Resource)
      → existing m w (n ∷ ns) ≡ ok rs
      → m.resource_client.api.get n w ≡ ok r
      → (rest : List Crd) × (rs ≡ Crd.resource r ∷ rest)
  unfolding existing get allow_not_found
  existing-first n ns rs r h g = elim (Result-cases (existing m w ns)) [
    | inl (e, p) ↦ absurd (ground (arith, g, p))
    | inr (rest, p) ↦ (rest, ground (arith, g, p))
  ]

  -- what is found of the other names follows
  existing-rest :
      (n : String) (ns : List String) (rs : List Crd)
      → existing m w (n ∷ ns) ≡ ok rs
      → (rest : List Crd) × (existing m w ns ≡ ok rest) × ((x : Crd) → In x rest → In x rs)
  unfolding existing
  existing-rest n ns rs h = elim (Result-cases (existing m w ns)) [
    | inl (e, p) ↦ absurd (ground (arith, p))
    | inr (rest, p) ↦ elim (Result-cases (allow_not_found (get m.resource_client n w))) [
      | inl (e, q) ↦ absurd (ground (arith, p, q))
      | inr (none, q) ↦
          let same : rest ≡ rs = ground (arith, p, q) in (rest, p, λ x i. rw (← same) i)
      | inr (some y, q) ↦
          let same : Crd.resource y ∷ rest ≡ rs = ground (arith, p, q) in
          (rest, p, λ x i. rw (← same) (inr i))
    ]
  ]

  existing-has :
      (ns : List String) (rs : List Crd) (n : String) (r : Resource)
      → existing m w ns ≡ ok rs
      → In n ns
      → m.resource_client.api.get n w ≡ ok r
      → In (Crd.resource r) rs
  existing-has [] rs n r h i g = absurd i
  existing-has (x ∷ ns) rs n r h (inl e) g =
      let s = existing-first x ns rs r h (rw (← e) g) in rw s.1 (inl refl)
  existing-has (x ∷ ns) rs n r h (inr i) g =
      let s = existing-rest x ns rs h in s.2 (Crd.resource r) (existing-has ns s.0 n r s.1 i g)

  -- `rs` are the existing resources that an object depends on, and they are in the list.
  abbrev HasFound : Crd → List Crd → Type 0
  HasFound c list =
      (rs : List Crd) × (existing m w (needs c) ≡ ok rs) × ((x : Crd) → In x rs → In x list)

  visit_step :
      (visits : ℕ) (c : Crd) (cs deps r : List Crd)
      → visit m w (suc visits) (c ∷ cs) deps ≡ some (ok r)
      → (rs : List Crd) × (existing m w (needs c) ≡ ok rs)
        × (visit m w visits (push_all rs cs) (deps ++ c ∷ []) ≡ some (ok r))
  unfolding visit
  visit_step visits c cs deps r h = elim (Result-cases (existing m w (needs c))) [
    | inl (e, p) ↦ absurd (ground arith)
    | inr (rs, p) ↦ (rs, p, ground arith)
  ]

  visit-has :
      (visits : ℕ) (todo deps r : List Crd)
      → visit m w visits todo deps ≡ some (ok r)
      → (x : Crd) → In x deps ⊎ In x todo
      → In x r
  unfolding visit
  visit-has visits [] deps r h x (inl i) = let e : deps ≡ r = cc in rw (← e) i
  visit-has visits [] deps r h x (inr i) = absurd i
  visit-has zero (c ∷ cs) deps r h x i = absurd (cc)
  visit-has (suc visits) (c ∷ cs) deps r h x i =
      let s = visit_step visits c cs deps r h in
      visit-has visits (push_all s.0 cs) (deps ++ c ∷ []) r s.2 x (elim i [
        | inl a ↦ inl (In-append_left x deps (c ∷ []) a)
        | inr (inl e) ↦ inl (In-append_right x deps (c ∷ []) (inl e))
        | inr (inr b) ↦ inr (In-push_all x s.0 cs (inr b))
      ])

  visit-HasFound :
      (visits : ℕ) (todo deps r : List Crd)
      → visit m w visits todo deps ≡ some (ok r)
      → (x : Crd) → In x r
      → In x deps ⊎ HasFound x r
  unfolding visit
  visit-HasFound visits [] deps r h x i = let e : deps ≡ r = cc in inl (rw e i)
  visit-HasFound zero (c ∷ cs) deps r h x i = absurd (cc)
  visit-HasFound (suc visits) (c ∷ cs) deps r h x i =
      let s = visit_step visits c cs deps r h in
      let rest = visit-HasFound visits (push_all s.0 cs) (deps ++ c ∷ []) r s.2 x i in
      elim rest [
        | inr n ↦ inr n
        | inl d ↦ elim (In-append x deps (c ∷ []) d) [
          | inl a ↦ inl a
          | inr (inl e) ↦ inr (
            s.0,
            rw e s.1,
            λ y j.
                visit-has visits (push_all s.0 cs) (deps ++ c ∷ []) r s.2 y
                  (inr (In-push_all y s.0 cs (inl j))),
          )
          | inr (inr b) ↦ absurd b
        ]
      ]

  -- When the dependencies of a list of objects are added, each of the objects is in the result. With
  -- each test of the result, each resource that it lists and that the server has is in the result too;
  -- and with each resource of the result, each one that its dependencies list and that the server has.
  pub add_dependencies_to_vec-HasNeeds :
      (visits : ℕ) (objects : List Crd) {r : List Crd}
      → add_dependencies_to_vec m w visits objects ≡ some (ok r)
      → ((x : Crd) → In x objects → In x r) × ((x : Crd) → In x r → HasNeeds x r)
  unfolding add_dependencies_to_vec
  add_dependencies_to_vec-HasNeeds visits objects {r} h = (
    λ x i. visit-has visits (reverse objects) [] r h x (inr (In-reverse x objects i)),
    λ x i. elim (visit-HasFound visits (reverse objects) [] r h x i) [
      | inl h ↦ absurd h
      | inr (rs, e, all) ↦ λ n d y g.
          all (Crd.resource y) (existing-has (needs x) rs n y e (DependsOn-needs n x d) g)
    ],
  )
