-- ===== src/Agents/ResourceAgent/Reports.antt =====
-- What a resource agent reports to the server.
use bottlerocket_test_system.Base.{Option, none, ◌≡◌, arith}
use bottlerocket_test_system.Base.Result.{ok, ok_or}
use bottlerocket_test_system.Base.Exec.{Exec, throw, context, attempt, match_result, ◌>>=◌, ◌>>◌}
use bottlerocket_test_system.Base.Exec.Runs.{Ends, Ends-bind}
use bottlerocket_test_system.Agents.ResourceAgent.{
  AgentError, client, provider, AgentClient, Provider, create_resource, destroy_resource, known,
}

module _ {W E P C R : Type 0} (c : AgentClient W E P C R) (p : Provider W P C R) where
  -- The provider created a resource in the world `v`, and the agent reported it as its last call.
  pub record Created (config : C) (resource : R) (v last : W) : Type 0 where
    pub created : (p.create config v).0 ≡ ok resource
    pub reported : (c.send_create_succeeded resource (p.create config v).1).0 ≡ ok tt
    pub ends : (c.send_create_succeeded resource (p.create config v).1).1 ≡ last

  -- what `create` does with a configuration
  abbrev created_from : C → Exec W (AgentError E P) (Unit {0})
  created_from config = attempt (p.create config) >>= λ created.
      match_result created (λ resource. context client (c.send_create_succeeded resource))
        (λ e. attempt (c.send_create_failed e) >> throw (provider e))

  created_from-Created :
      (config : C) (v : W) (u : Unit {0})
      → (created_from config v).0 ≡ ok u
      → (resource : R) × Created config resource v (created_from config v).1
  unfolding ◌>>=◌ attempt context match_result throw
  created_from-Created config v u h = ground arith

  abbrev IsCreated : W → Type 0
  IsCreated last = (config : C) × (resource : R) × (v : W) × Created config resource v last

  create_resource-Ends : Ends IsCreated (create_resource c p)
  unfolding create_resource
  create_resource-Ends = Ends-bind _ _ λ _. Ends-bind _ _ λ config. record {
    at = λ v u e. let s = created_from-Created config v u e in (config, s.0, v, s.1);
  }

  -- A creation that returns no error has reported, as its last call, the resource that the provider
  -- created.
  pub create_resource-Created :
      (w : W)
      → (create_resource c p w).0 ≡ ok tt
      → (config : C) × (resource : R) × (v : W) × Created config resource v
          (create_resource c p w).1
  create_resource-Created w h = create_resource-Ends.at w tt h

  -- The provider destroyed what it was given in the world `v`, and the agent reported it as its last
  -- call.
  record Destroyed (config : Option C) (resource : Option R) (v last : W) : Type 0 where
    pub destroyed : (p.destroy config resource v).0 ≡ ok tt
    pub reported : (c.send_destroy_succeeded (p.destroy config resource v).1).0 ≡ ok tt
    pub ends : (c.send_destroy_succeeded (p.destroy config resource v).1).1 ≡ last

  -- what `destroy` does with a configuration and a resource
  abbrev destroyed_from : Option C → Option R → Exec W (AgentError E P) (Unit {0})
  destroyed_from config resource = attempt (p.destroy config resource) >>= λ destroyed.
      match_result destroyed (λ u. context client c.send_destroy_succeeded)
        (λ e. attempt (c.send_destroy_failed e) >> throw (provider e))

  destroyed_from-Destroyed :
      (config : Option C) (resource : Option R) (v : W) (u : Unit {0})
      → (destroyed_from config resource v).0 ≡ ok u
      → Destroyed config resource v (destroyed_from config resource v).1
  unfolding ◌>>=◌ attempt context match_result throw
  destroyed_from-Destroyed config resource v u h = ground arith

  abbrev IsDestroyed : W → Type 0
  IsDestroyed last =
      (config : Option C) × (resource : Option R) × (v : W) × Destroyed config resource v last

  destroy_resource-Ends : Ends IsDestroyed (destroy_resource c p)
  unfolding destroy_resource
  destroy_resource-Ends = Ends-bind _ _ λ _. Ends-bind _ _ λ resource. Ends-bind _ _ λ spec.
      record {
        at = λ v u e. (
          known spec,
          ok_or none resource,
          v,
          destroyed_from-Destroyed (known spec) (ok_or none resource) v u e,
        );
      }

  -- A destruction that returns no error has reported, as its last call, that the provider destroyed
  -- what it was given.
  destroy_resource-Destroyed :
      (w : W)
      → (destroy_resource c p w).0 ≡ ok tt
      → (config : Option C) × (resource : Option R) × (v : W) × Destroyed config resource v
          (destroy_resource c p w).1
  destroy_resource-Destroyed w h = destroy_resource-Ends.at w tt h
