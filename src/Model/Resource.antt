-- ===== src/Model/Resource.antt =====
-- model/src/resource.rs: the resource objects and the queries on them.
pub mod JobName
use bottlerocket_test_system.Base.{String, Bool, Option, none, some, List}
use bottlerocket_test_system.Model.Json.{Fields}
use bottlerocket_test_system.Model.Agent.{Agent, TaskState, default_task_state}
use bottlerocket_test_system.Model.Meta.{ObjectMeta}

pub data DestructionPolicy : Type 0 where
  on_deletion never on_test_success on_test_completion : DestructionPolicy

pub data ResourceAction : Type 0 where
  create destroy : ResourceAction

pub data ErrorResources : Type 0 where
  orphaned remaining clear unknown : ErrorResources

pub record ResourceError : Type 0 where
  pub error : String
  pub error_resources : ErrorResources

pub record ResourceAgentState : Type 0 where
  pub task_state : TaskState
  pub error : Option ResourceError

pub record ResourceStatus : Type 0 where
  pub creation : ResourceAgentState
  pub destruction : ResourceAgentState
  pub agent_info : Option Fields
  pub created_resource : Option Fields
  pub last_update : Option String

pub record ResourceSpec : Type 0 where
  pub depends_on : Option (List String)
  pub conflicts_with : Option (List String)
  pub agent : Agent
  pub destruction_policy : DestructionPolicy

pub record Resource : Type 0 where
  pub metadata : ObjectMeta
  pub spec : ResourceSpec
  pub status : Option ResourceStatus

-- the defaults that the derived `Default` gives
abbrev pub default_agent_state : ResourceAgentState
default_agent_state = record { task_state = default_task_state; error = none }

abbrev pub default_resource_status : ResourceStatus
default_resource_status = record {
  creation = default_agent_state;
  destruction = default_agent_state;
  agent_info = none;
  created_resource = none;
  last_update = none;
}

unfoldable pub created_resource : Resource → Option Fields
created_resource r = elim r.status [ none ↦ none | some s ↦ s.created_resource ]

unfoldable pub creation_error : Resource → Option ResourceError
creation_error r = elim r.status [ none ↦ none | some s ↦ s.creation.error ]

unfoldable pub creation_task_state : Resource → TaskState
creation_task_state r = elim r.status [ none ↦ default_task_state | some s ↦ s.creation.task_state ]

destruction_error : Resource → Option ResourceError
destruction_error r = elim r.status [ none ↦ none | some s ↦ s.destruction.error ]

unfoldable pub destruction_task_state : Resource → TaskState
destruction_task_state r = elim r.status [
  | none ↦ default_task_state
  | some s ↦ s.destruction.task_state
]

unfoldable pub error : Resource → ResourceAction → Option ResourceError
unfolding creation_error destruction_error
error r create = creation_error r
error r destroy = destruction_error r

unfoldable pub task_state : Resource → ResourceAction → TaskState
unfolding creation_task_state destruction_task_state
task_state r create = creation_task_state r
task_state r destroy = destruction_task_state r

-- `ErrorResources::description`
unfoldable pub description : ErrorResources → String
description orphaned = "An error left resources that cannot be destroyed"
description remaining = "An error left resources that can be destroyed"
description clear = "An error occurred but no resources were left behind"
description unknown = "An error occurred but it is unknown if resources exist"
