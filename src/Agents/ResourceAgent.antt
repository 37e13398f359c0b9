-- ===== src/Agents/ResourceAgent.antt =====
-- agent/resource-agent/src/agent.rs: the creation and the destruction of a resource. The traits are
-- records of calls; `E` is the client's error and `P` the provider's.
pub mod Reports
pub mod ProviderError
pub mod DefaultClient
use bottlerocket_test_system.Base.{ℕ, zero, suc, Bool, true, Option, none, some, if◌then◌else◌}
use bottlerocket_test_system.Base.Result.{Result, ok, err, ok_or}
use bottlerocket_test_system.Base.Exec.{
  Exec, pure, throw, context, attempt, match_result, ◌>>=◌, ◌>>◌,
}
use bottlerocket_test_system.Model.Resource.{ResourceAction}

pub data AgentError (E P : Type 0) : Type 0 where
  client : E → AgentError E P
  provider : P → AgentError E P

-- `AgentClient`, for the types of the configuration and of the resource
pub record AgentClient (W E P Config Resource : Type 0) : Type 0 where
  pub get_spec : Exec W E Config
  pub get_created_resource : Exec W E (Option Resource)
  pub send_create_starting : Exec W E (Unit {0})
  pub send_create_succeeded : Resource → Exec W E (Unit {0})
  pub send_create_failed : P → Exec W E (Unit {0})
  pub send_destroy_starting : Exec W E (Unit {0})
  pub send_destroy_succeeded : Exec W E (Unit {0})
  pub send_destroy_failed : P → Exec W E (Unit {0})
  pub get_keep_running : Exec W E Bool

-- `Create` and `Destroy`
pub record Provider (W P Config Resource : Type 0) : Type 0 where
  pub create : Config → Exec W P Resource
  pub destroy : Option Config → Option Resource → Exec W P (Unit {0})

-- a read whose error is only logged
abbrev pub known : {E A : Type 0} → Result E A → Option A
known (ok a) = some a
known (err e) = none

module _ {W E P C R : Type 0} (c : AgentClient W E P C R) (p : Provider W P C R) where
  unfoldable pub create_resource : Exec W (AgentError E P) (Unit {0})
  create_resource = do
    context client c.send_create_starting
    config ← context client c.get_spec
    created ← attempt (p.create config)
    match_result created (λ resource. context client (c.send_create_succeeded resource))
        (λ e. attempt (c.send_create_failed e) >> throw (provider e))

  unfoldable pub destroy_resource : Exec W (AgentError E P) (Unit {0})
  destroy_resource = do
    context client c.send_destroy_starting
    resource ← attempt c.get_created_resource
    spec ← attempt c.get_spec
    destroyed ← attempt (p.destroy (known spec) (ok_or none resource))
    match_result destroyed (λ u. context client c.send_destroy_succeeded)
        (λ e. attempt (c.send_destroy_failed e) >> throw (provider e))

  act : ResourceAction → Exec W (AgentError E P) (Unit {0})
  unfolding create_resource destroy_resource
  act ResourceAction.create = create_resource
  act ResourceAction.destroy = destroy_resource

  unfoldable pub keep_running : Exec W (AgentError E P) Bool
  keep_running = do answer ← attempt c.get_keep_running; pure (ok_or true answer)

  -- The loop that waits for `keep_running` to become false, for a number of rounds: `none` says
  -- that they were not enough.
  unfoldable pub wait_loop : ℕ → Exec W (AgentError E P) (Option (Unit {0}))
  unfolding keep_running
  wait_loop zero = pure none
  wait_loop (suc rounds) = do
    kept ← keep_running
    let again = wait_loop rounds
    if kept then again else pure (some tt)

  unfoldable pub run :
      ℕ → ResourceAction → Exec W (AgentError E P) (Option (Result (AgentError E P) (Unit {0})))
  unfolding act keep_running wait_loop
  run rounds a = do
    result ← attempt (act a)
    kept ← keep_running
    waited ← (if kept then wait_loop rounds else pure (some tt))
    pure (elim waited [ none ↦ none | some u ↦ some result ])
