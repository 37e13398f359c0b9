-- ===== src/Clients/CrdClient/Finalizers.antt =====
-- When the client adds or removes a finalizer.
use bottlerocket_test_system.Base.{
  ℕ, String, some, true, false, List, get_elem?, [], ◌∷◌, ◌∙◌, ◌≡◌, arith, inl, inr, Option-cases,
  if◌then◌else◌,
}
use bottlerocket_test_system.Base.Result.{is_ok}
use bottlerocket_test_system.Base.Exec.{Exec, context}
use bottlerocket_test_system.Kube.{key, index, Payload, PatchOperation}
use bottlerocket_test_system.Clients.JsonPatch.{
  new_timestamp, new_test_operation, new_remove_operation, into_json_patch_operation,
}
use bottlerocket_test_system.Model.Meta.{
  has_finalizer, has_finalizers, finalizer_position, object_name,
}
use bottlerocket_test_system.Model.Meta.Finalizers.{
  finalizer_position-has_finalizer, get_elem?-position,
}
use bottlerocket_test_system.Clients.CrdClient.{
  CrdClient, patch, add_finalizer, remove_finalizer, first_finalizer, next_finalizer,
  drop_finalizer,
}

-- The operations of a patch that removes the finalizer at an index, if it is still there.
abbrev pub removal : String → ℕ → String → List PatchOperation
removal f i now =
    PatchOperation.replace (key "status" ∷ key "lastUpdate" ∷ []) (Payload.timestamp now)
    ∷ PatchOperation.test (key "metadata" ∷ key "finalizers" ∷ index i ∷ []) (Payload.text f)
    ∷ PatchOperation.remove (key "metadata" ∷ key "finalizers" ∷ index i ∷ [])
    ∷ []

module _ {W C : Type 0} (c : CrdClient W C) (crd : C) (f : String) (w : W) where
  -- A call asks the server for the patch that removes a finalizer. The index in the patch holds that
  -- finalizer in the object as it was read. The call changes nothing else, and succeeds if the server
  -- takes the patch.
  pub record Removes {E A : Type 0} (m : Exec W E A) : Type 0 where
    pub finalizers : List String
    pub i : ℕ
    pub has : (c.object_meta crd).finalizers ≡ some finalizers
    pub found : get_elem? finalizers i ≡ some f
    pub ends : (m w).1 ≡ (c.api.patch (object_name (c.object_meta crd)) (removal f i (c.now w)) w).1
    pub answers :
        is_ok (m w).0
        ≡ is_ok (c.api.patch (object_name (c.object_meta crd)) (removal f i (c.now w)) w).0

  -- another call that does the same
  pub Removes-same :
      {E F A B : Type 0} (m : Exec W E A) (n : Exec W F B)
      → (n w).1 ≡ (m w).1
      → is_ok (n w).0 ≡ is_ok (m w).0
      → Removes m
      → Removes n
  Removes-same m n ends answers s = record {
    finalizers = s.finalizers;
    i = s.i;
    has = s.has;
    found = s.found;
    ends = ends ∙ s.ends;
    answers = answers ∙ s.answers;
  }

  removal_at :
      (fs : List String) (i : ℕ)
      → (c.object_meta crd).finalizers ≡ some fs
      → finalizer_position (c.object_meta crd) f ≡ some i
      → Removes (remove_finalizer c f crd)
  unfolding remove_finalizer finalizer_position patch drop_finalizer context new_timestamp
      new_test_operation new_remove_operation into_json_patch_operation
  removal_at fs i e p = record {
    finalizers = fs;
    i = i;
    has = e;
    found = ground (arith, get_elem?-position fs f i);
    ends = ground arith;
    answers = ground arith;
  }

  -- A finalizer that the object has is removed by a patch of the object.
  pub has_finalizer-Removes :
      has_finalizer (c.object_meta crd) f ≡ true → Removes (remove_finalizer c f crd)
  unfolding has_finalizer
  has_finalizer-Removes h = elim (Option-cases (c.object_meta crd).finalizers) [
    | inl e ↦ ground arith
    | inr fs ↦ elim (Option-cases (finalizer_position (c.object_meta crd) f)) [
      | inl e ↦ ground (arith, finalizer_position-has_finalizer (c.object_meta crd) f h e)
      | inr i ↦ removal_at (fs.0) (i.0) (fs.1) (i.1)
    ]
  ]

  -- A finalizer that the object does not have is added by a patch of the object. The patch tests that
  -- the finalizers are those that were read.
  pub add_finalizer-patch :
      has_finalizer (c.object_meta crd) f ≡ false
      → add_finalizer c f crd w
        ≡ patch c
            (object_name (c.object_meta crd))
            (if has_finalizers (c.object_meta crd)
              then next_finalizer c f crd (c.now w)
              else first_finalizer c f (c.now w))
            "add finalizer"
            w
  unfolding add_finalizer
  add_finalizer-patch h = ground arith
