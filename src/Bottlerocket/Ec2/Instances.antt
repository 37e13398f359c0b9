-- ===== src/Bottlerocket/Ec2/Instances.antt =====
-- bottlerocket/agents/src/bin/ec2-resource-agent/ec2_provider.rs: the state of instances, and the waits for
-- it.
use Prim.Native.String.{◌++◌ as concat}
use bottlerocket_test_system.Base.{
  ℕ, zero, suc, String, Bool, true, false, Option, none, some, List, [], ◌∷◌, ◌++◌, is_empty,
  contains, if◌then◌else◌,
}
use bottlerocket_test_system.Base.Result.{Result, ok, err}
use bottlerocket_test_system.Base.Exec.{Exec, ◌>>=◌, pure, attempt, match_result}
use bottlerocket_test_system.Agents.ResourceAgent.ProviderError.{ProviderError}
use bottlerocket_test_system.Bottlerocket.Provider.{tried, needed}
use bottlerocket_test_system.Bottlerocket.Ec2.{
  ProductionMemo, Filter, Instance, Ec2Client, EcsClient, instance_uuid_tag_name,
  resources_situation, insert,
}

pub data DesiredInstanceState : Type 0 where
  running terminated : DesiredInstanceState

-- `{:?}`
abbrev state_text : DesiredInstanceState → String
state_text running = "Running"
state_text terminated = "Terminated"

-- the last of the states that do not conform
abbrev opposite : DesiredInstanceState → String
opposite running = "terminated"
opposite terminated = "running"

-- `DesiredInstanceState::filter`
pub filter : DesiredInstanceState → Filter
filter s =
    ("instance-state-name", "pending" ∷ "shutting-down" ∷ "stopping" ∷ "stopped" ∷ opposite s ∷ [])

-- the ids that are there
unfoldable pub ids_of : List Instance → List String
ids_of [] = []
ids_of (none ∷ is) = ids_of is
ids_of (some i ∷ is) = i ∷ ids_of is

-- all instances of all reservations
instances_of : List (Option (List Instance)) → List Instance
instances_of [] = []
instances_of (none ∷ rs) = instances_of rs
instances_of (some is ∷ rs) = is ++ instances_of rs

-- `collect` into a `HashSet`
collect : List String → List String → List String
unfolding insert
collect s [] = s
collect s (x ∷ xs) = collect (insert x s) xs

-- a request that failed, or no id
abbrev conforming : Result ProviderError (List String) → Bool
conforming (err e) = true
conforming (ok ids) = is_empty ids

module _ {W : Type 0} (ec2_client : Ec2Client W) where
  unfoldable pub non_conforming_instances :
      List String → DesiredInstanceState → ProductionMemo → Exec W ProviderError (List String)
  unfolding tried needed filter ids_of resources_situation
  non_conforming_instances instance_ids state memo = do
    described ←
        tried (resources_situation memo)
          (concat "Unable to list instances in the '" (concat (state_text state) "' state."))
          (ec2_client.describe_instance_status (filter state) instance_ids)
    statuses ← needed (resources_situation memo) "No instance statuses were provided." described
    pure (ids_of statuses)

  -- The loop, for a number of rounds: `none` says that they were not enough.
  unfoldable pub wait_for_conforming_instances :
      (ℕ → W → W)
      → List String
      → DesiredInstanceState
      → ProductionMemo
      → ℕ
      → Exec W ProviderError (Option (Unit {0}))
  unfolding non_conforming_instances
  wait_for_conforming_instances sleep ids state memo zero = pure none
  wait_for_conforming_instances sleep ids state memo (suc rounds) = do
    checked ← attempt (non_conforming_instances ids state memo)
    let again : Exec W ProviderError (Option (Unit {0})) =
        λ w. wait_for_conforming_instances sleep ids state memo rounds (sleep 1_000 w)
    (if conforming checked then pure (some tt) else again)

  unfoldable pub get_instances_by_uuid :
      String → ProductionMemo → Exec W ProviderError (List String)
  unfolding tried needed instances_of ids_of collect resources_situation
  get_instances_by_uuid uuid memo = do
    described ← tried (resources_situation memo) "Unable to get instances." (
        ec2_client.describe_instances ("tag", concat instance_uuid_tag_name (concat "=" uuid) ∷ []))
    reservations ← needed (resources_situation memo) "No instances were provided." described
    pure (collect [] (ids_of (instances_of reservations)))

-- the first item
abbrev first : List String → Option String
first [] = none
first (x ∷ xs) = some x

-- Whether no instance of one list is in the other.
none_listed : List String → List String → Bool
unfolding contains
none_listed [] listed = true
none_listed (x ∷ xs) listed = if contains listed x then false else none_listed xs listed

-- `unwrap_or_default` of a list
abbrev or_empty : Option (List String) → List String
or_empty none = []
or_empty (some l) = l

-- the first of a list that may be missing
abbrev first_of : Option (List String) → Option String
first_of none = none
first_of (some l) = first l

module _ {W E : Type 0} (ecs_client : EcsClient W) (cluster_name : String) where
  -- the container instance of a list, deregistered; an error is only logged
  pub deregister : Option String → Exec W E (List String)
  deregister none = pure []
  deregister (some i) = do
    answer ← attempt (ecs_client.deregister_container_instance cluster_name i true)
    pure (i ∷ [])

  -- one instance; an error of the list is skipped
  deregister_one : String → Exec W E (List String)
  unfolding deregister
  deregister_one instance_id = do
    listed ← attempt (
        ecs_client.list_container_instances cluster_name
          (some (concat "ec2InstanceId==" instance_id)))
    match_result listed (λ l. deregister (first_of l)) (λ e. pure [])

  deregister_all : List String → Exec W E (List String)
  unfolding deregister_one
  deregister_all [] = pure []
  deregister_all (i ∷ is) = do
    container ← deregister_one i
    rest ← deregister_all is
    pure (container ++ rest)

  -- The loop ends where the list fails. `none` says that the rounds were not enough.
  unfoldable pub wait_for_ecs_instances_deregister :
      (ℕ → W → W) → List String → ℕ → Exec W E (Option (Unit {0}))
  unfolding none_listed
  wait_for_ecs_instances_deregister sleep container_instances zero = pure none
  wait_for_ecs_instances_deregister sleep container_instances (suc rounds) = do
    listed ← attempt (ecs_client.list_container_instances cluster_name none)
    let again : Exec W E (Option (Unit {0})) =
        λ w. wait_for_ecs_instances_deregister sleep container_instances rounds (sleep 5_000 w)
    match_result listed
        (λ l. if none_listed container_instances (or_empty l) then pure (some tt) else again)
        (λ e. pure (some tt))

-- No error ends it, nor the end of its time.
unfoldable pub deregister_ecs_container_instances :
    {W E : Type 0} → EcsClient W → (ℕ → W → W) → ProductionMemo → ℕ → Exec W E (Unit {0})
unfolding deregister_all wait_for_ecs_instances_deregister
deregister_ecs_container_instances ecs_client sleep memo rounds = do
  container_instances ← deregister_all ecs_client memo.cluster_name memo.instance_ids
  waited ←
      wait_for_ecs_instances_deregister ecs_client memo.cluster_name sleep container_instances
        rounds
  pure tt
