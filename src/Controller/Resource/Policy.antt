-- ===== src/Controller/Resource/Policy.antt =====
-- When the destruction policy of a resource asks for its deletion.
use bottlerocket_test_system.Base.{
  String, ◌≡◌, refl, ◌↔◌, ◌⊎◌, true, false, List, [], ◌∷◌, All, is_none, arith,
}
use bottlerocket_test_system.Base.Result.{ok}
use bottlerocket_test_system.Model.Agent.{TaskState}
use bottlerocket_test_system.Model.Meta.{is_delete_requested}
use bottlerocket_test_system.Model.Resource.{
  Resource, DestructionPolicy, on_deletion, never, on_test_success, on_test_completion,
  created_resource,
}
use bottlerocket_test_system.Model.Test.{Test, TestUserState, agent_status, test_user_state}
use bottlerocket_test_system.Clients.CrdClient.{get_all}
use bottlerocket_test_system.Controller.Cluster.{Cluster}
use bottlerocket_test_system.Controller.Resource.Interface.{ResourceInterface, name}
use bottlerocket_test_system.Controller.Resource.Action.{action, destruction}
use bottlerocket_test_system.Controller.Resource.Action.{
  destruction_action, start_resource_deletion,
}
use bottlerocket_test_system.Controller.Resource.Action.Waits.{
  depends_on, any_depends_on, requires, holds_back, any_holds_back, is_deletion_required,
}

-- What a policy waits for in a test that requires the resource.
abbrev IsSettled : DestructionPolicy → Test → Type 0
IsSettled on_test_completion t = (agent_status t).task_state ≡ TaskState.completed
IsSettled on_test_success t = test_user_state t ≡ TestUserState.passed
IsSettled _ t = Unit

any_depends_on-false :
    (n : String) (rs : List Resource)
    → any_depends_on n rs ≡ false
    → All (λ x. depends_on n x ≡ false) rs
unfolding any_depends_on
any_depends_on-false n [] h = tt
any_depends_on-false n (r ∷ rs) h = ground (arith, any_depends_on-false n rs)

false-any_depends_on :
    (n : String) (rs : List Resource)
    → All (λ x. depends_on n x ≡ false) rs
    → any_depends_on n rs ≡ false
unfolding any_depends_on
false-any_depends_on n [] h = refl
false-any_depends_on n (r ∷ rs) h = ground (arith, false-any_depends_on n rs h.1)

holds_back-false :
    (p : DestructionPolicy) (n : String) (t : Test)
    → holds_back p n t ≡ false
    → requires n t ≡ true
    → IsSettled p t
unfolding holds_back
holds_back-false on_test_completion n t h q = ground arith
holds_back-false on_test_success n t h q = ground arith
holds_back-false on_deletion n t h q = tt
holds_back-false never n t h q = tt

false-holds_back :
    (p : DestructionPolicy) (n : String) (t : Test)
    → (requires n t ≡ true → IsSettled p t)
    → holds_back p n t ≡ false
unfolding holds_back
false-holds_back on_test_completion n t h = ground arith
false-holds_back on_test_success n t h = ground arith
false-holds_back on_deletion n t h = refl
false-holds_back never n t h = refl

any_holds_back-false :
    (p : DestructionPolicy) (n : String) (ts : List Test)
    → any_holds_back p n ts ≡ false
    → All (λ t. requires n t ≡ true → IsSettled p t) ts
unfolding any_holds_back
any_holds_back-false p n [] h = tt
any_holds_back-false p n (t ∷ ts) h =
    (holds_back-false p n t (ground arith), any_holds_back-false p n ts (ground arith))

false-any_holds_back :
    (p : DestructionPolicy) (n : String) (ts : List Test)
    → All (λ t. requires n t ≡ true → IsSettled p t) ts
    → any_holds_back p n ts ≡ false
unfolding any_holds_back
false-any_holds_back p n [] h = refl
false-any_holds_back p n (t ∷ ts) h =
    ground (arith, false-holds_back p n t h.0, false-any_holds_back p n ts h.1)

module _ {W : Type 0} (k : Cluster W) (r : ResourceInterface) (w : W) where
  -- What a policy that follows the tests asks for before a deletion.
  pub record MustDelete : Type 0 where
    pub follows :
        (r.resource.spec.destruction_policy ≡ on_test_completion)
        ⊎ (r.resource.spec.destruction_policy ≡ on_test_success)
    pub was_created : is_none (created_resource r.resource) ≡ false
    pub no_dependents :
        (rs : List Resource) × (get_all k.resource_client w ≡ ok rs)
        × All (λ x. depends_on (name r) x ≡ false) rs
    pub tests_settled :
        (ts : List Test) × (get_all k.test_client w ≡ ok ts)
        × All (λ t. requires (name r) t ≡ true → IsSettled r.resource.spec.destruction_policy t) ts

  required-parts :
      is_deletion_required k r w ≡ ok true
      → ((r.resource.spec.destruction_policy ≡ on_test_completion)
          ⊎ (r.resource.spec.destruction_policy ≡ on_test_success))
        × (is_none (created_resource r.resource) ≡ false)
        × ((rs : List Resource) × (get_all k.resource_client w ≡ ok rs)
            × (any_depends_on (name r) rs ≡ false))
        × ((ts : List Test) × (get_all k.test_client w ≡ ok ts)
            × (any_holds_back r.resource.spec.destruction_policy (name r) ts ≡ false))
  unfolding is_deletion_required
  required-parts h = ground arith

  required-MustDelete : is_deletion_required k r w ≡ ok true → MustDelete
  required-MustDelete h =
      let (p, c, (rs, e, d), (ts, f, q)) = required-parts h in
      record {
        follows = p;
        was_created = c;
        no_dependents = (rs, e, any_depends_on-false (name r) rs d);
        tests_settled =
            (ts, f, any_holds_back-false r.resource.spec.destruction_policy (name r) ts q);
      }

  MustDelete-required : MustDelete → is_deletion_required k r w ≡ ok true
  unfolding is_deletion_required
  MustDelete-required m =
      let rs = m.no_dependents.0 in
      let ts = m.tests_settled.0 in
      ground (
        arith,
        m.follows,
        m.was_created,
        m.no_dependents.1,
        m.tests_settled.1,
        false-any_depends_on (name r) rs m.no_dependents.2,
        false-any_holds_back r.resource.spec.destruction_policy (name r) ts m.tests_settled.2,
      )

  -- The policy asks for a deletion exactly when it follows the tests, the resource was created, no
  -- resource depends on it, and every test that requires it is complete (under OnTestCompletion) or
  -- has passed (under OnTestSuccess).
  pub is_deletion_required_iff : (is_deletion_required k r w ≡ ok true) ↔ MustDelete
  is_deletion_required_iff = (required-MustDelete, MustDelete-required)

  -- The controller asks the server to delete a resource whose deletion nobody requested exactly when
  -- the policy asks for it.
  pub action-start_deletion :
      is_delete_requested r.resource.metadata ≡ false
      → (action k r w ≡ ok (destruction start_resource_deletion)) ↔ MustDelete
  unfolding action destruction_action
  action-start_deletion h =
      (λ e. required-MustDelete (ground arith), λ m. ground (arith, MustDelete-required m))
