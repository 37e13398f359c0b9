-- ===== src/Controller/Resource/Progress.antt =====
-- The way of a deleted resource out of the cluster.
use bottlerocket_test_system.Base.{
  ℕ, suc, ◌≤◌, String, true, false, none, some, str_eq, ◌≡◌, ◌⊎◌, inl, inr, Bool-cases, refl, arith,
}
use bottlerocket_test_system.Base.Result.{ok}
use bottlerocket_test_system.Controller.Cluster.{Cluster}
use bottlerocket_test_system.Controller.Job.{absent}
use bottlerocket_test_system.Model.Constants.{
  finalizer_creation_job, finalizer_main, finalizer_resource, finalizer_cleanup_required,
}
use bottlerocket_test_system.Model.Meta.{has_finalizer, is_delete_requested}
use bottlerocket_test_system.Model.Meta.Release.{release, has_finalizer-release}
use bottlerocket_test_system.Model.Resource.{
  ResourceAction, DestructionPolicy, destruction_task_state,
}
use bottlerocket_test_system.Model.Agent.{TaskState}
use bottlerocket_test_system.Controller.Resource.Interface.{ResourceInterface, job_state}
use bottlerocket_test_system.Controller.Resource.Action.{
  DestructionAction, destruction_action, creation_cleanup_action, destruction_action_with_resources,
  destruction_action_without_resources, remove_main_finalizer, remove_resource_finalizer,
  remove_cleanup_finalizer, remove_creation_job_finalizer,
}
use bottlerocket_test_system.Controller.Resource.Removal.{removed}

-- a resource after a finalizer was taken away
abbrev pub released : String → ResourceInterface → ResourceInterface
released f r = record r {
  resource = record r.resource { metadata = release f r.resource.metadata };
}

-- a resource after an action, whose effect is that the finalizer it removes is gone
abbrev pub next : DestructionAction → ResourceInterface → ResourceInterface
next a r = elim (removed a) [ none ↦ r | some f ↦ released f r ]

module _ {W : Type 0} (k : Cluster W) (w : W) where
  -- `n` actions, each after the effect of the one before, and then the removal of the main finalizer.
  pub data Leaves : ResourceInterface → ℕ → Type 0 where
    last :
        (r : ResourceInterface) → destruction_action k r w ≡ ok remove_main_finalizer → Leaves r 0
    step :
        (r : ResourceInterface) (a : DestructionAction) (n : ℕ)
        → destruction_action k r w ≡ ok a
        → Leaves (next a r) n
        → Leaves r (suc n)

  -- A deleted resource whose jobs are gone, and whose destruction is done or not wanted.
  pub record IsOver (r : ResourceInterface) : Type 0 where
    pub requested : is_delete_requested r.resource.metadata ≡ true
    pub main : has_finalizer r.resource.metadata finalizer_main ≡ true
    pub no_creation : job_state k r ResourceAction.create w ≡ ok absent
    pub no_destruction : job_state k r ResourceAction.destroy w ≡ ok absent
    pub done :
        (r.resource.spec.destruction_policy ≡ DestructionPolicy.never)
        ⊎ (destruction_task_state r.resource ≡ TaskState.completed)

  released-IsOver :
      (f : String) (r : ResourceInterface)
      → str_eq f finalizer_main ≡ false
      → IsOver r
      → IsOver (released f r)
  unfolding job_state is_delete_requested destruction_task_state
  released-IsOver f r e h = record {
    requested = h.requested;
    main = ground (arith, has_finalizer-release f finalizer_main r.resource.metadata, h.main);
    no_creation = h.no_creation;
    no_destruction = h.no_destruction;
    done = h.done;
  }

  last_step :
      (r : ResourceInterface)
      → IsOver r
      → has_finalizer r.resource.metadata finalizer_creation_job ≡ false
      → has_finalizer r.resource.metadata finalizer_resource ≡ false
      → has_finalizer r.resource.metadata finalizer_cleanup_required ≡ false
      → destruction_action k r w ≡ ok remove_main_finalizer
  unfolding destruction_action creation_cleanup_action destruction_action_without_resources
  last_step r h a b c = ground (arith, h.requested, h.main, h.no_destruction)

  resource_step :
      (r : ResourceInterface)
      → IsOver r
      → has_finalizer r.resource.metadata finalizer_creation_job ≡ false
      → has_finalizer r.resource.metadata finalizer_resource ≡ true
      → has_finalizer r.resource.metadata finalizer_cleanup_required ≡ false
      → destruction_action k r w ≡ ok remove_resource_finalizer
  unfolding destruction_action creation_cleanup_action destruction_action_with_resources
  resource_step r h a b c = ground (arith, h.requested, h.done, h.no_destruction)

  cleanup_step :
      (r : ResourceInterface)
      → IsOver r
      → has_finalizer r.resource.metadata finalizer_creation_job ≡ false
      → has_finalizer r.resource.metadata finalizer_cleanup_required ≡ true
      → destruction_action k r w ≡ ok remove_cleanup_finalizer
  unfolding destruction_action creation_cleanup_action destruction_action_with_resources
  cleanup_step r h a c = ground (arith, h.requested, h.done, h.no_destruction)

  creation_step :
      (r : ResourceInterface)
      → IsOver r
      → has_finalizer r.resource.metadata finalizer_creation_job ≡ true
      → destruction_action k r w ≡ ok remove_creation_job_finalizer
  unfolding destruction_action creation_cleanup_action
  creation_step r h a = ground (arith, h.requested, h.no_creation)

  from_resource :
      (r : ResourceInterface)
      → IsOver r
      → has_finalizer r.resource.metadata finalizer_creation_job ≡ false
      → has_finalizer r.resource.metadata finalizer_cleanup_required ≡ false
      → (n : ℕ) × (n ≤ 1) × Leaves r n
  from_resource r h a c = elim (Bool-cases (has_finalizer r.resource.metadata finalizer_resource)) [
    | inl b ↦
        let m = r.resource.metadata in
        (
          1,
          omega arith,
          step r remove_resource_finalizer 0 (resource_step r h a b c) (
              last (released finalizer_resource r) (
                last_step (released finalizer_resource r)
                  (released-IsOver finalizer_resource r refl h)
                  (ground
                    (arith, has_finalizer-release finalizer_resource finalizer_creation_job m))
                  (ground (arith, has_finalizer-release finalizer_resource finalizer_resource m))
                  (ground (
                    arith,
                    has_finalizer-release finalizer_resource finalizer_cleanup_required m,
                  )))),
        )
    | inr b ↦ (0, omega arith, last r (last_step r h a b c))
  ]

  from_cleanup :
      (r : ResourceInterface)
      → IsOver r
      → has_finalizer r.resource.metadata finalizer_creation_job ≡ false
      → (n : ℕ) × (n ≤ 2) × Leaves r n
  from_cleanup r h a =
      elim (Bool-cases (has_finalizer r.resource.metadata finalizer_cleanup_required)) [
        | inl c ↦
            let m = r.resource.metadata in
            let rest =
              from_resource (released finalizer_cleanup_required r)
                (released-IsOver finalizer_cleanup_required r refl h)
                (ground (
                  arith,
                  has_finalizer-release finalizer_cleanup_required finalizer_creation_job m,
                ))
                (ground (
                  arith,
                  has_finalizer-release finalizer_cleanup_required finalizer_cleanup_required m,
                )) in
            (
              suc rest.0,
              omega (arith, rest.1),
              step r remove_cleanup_finalizer rest.0 (cleanup_step r h a c) rest.2,
            )
        | inr c ↦ let rest = from_resource r h a c in (rest.0, omega (arith, rest.1), rest.2)
      ]

  -- A deleted resource whose jobs are gone, and whose destruction is done or not wanted, loses its main
  -- finalizer after three other actions at most, if each removal of a finalizer takes effect: it leaves
  -- no copy of the finalizer.
  pub IsOver-Leaves : (r : ResourceInterface) → IsOver r → (n : ℕ) × (n ≤ 3) × Leaves r n
  IsOver-Leaves r h = elim (Bool-cases (has_finalizer r.resource.metadata finalizer_creation_job)) [
    | inl a ↦
        let rest =
          from_cleanup (released finalizer_creation_job r)
            (released-IsOver finalizer_creation_job r refl h)
            (ground (
              arith,
              has_finalizer-release finalizer_creation_job finalizer_creation_job
                  r.resource.metadata,
            )) in
        (
          suc rest.0,
          omega (arith, rest.1),
          step r remove_creation_job_finalizer rest.0 (creation_step r h a) rest.2,
        )
    | inr a ↦ let rest = from_cleanup r h a in (rest.0, omega (arith, rest.1), rest.2)
  ]
