-- ===== src/Model/Agent.antt =====
-- model/src/agent.rs: what a specification says of its agent, and the states of an agent's task.
use bottlerocket_test_system.Base.{String, Bool, true, false, Option, List}
use bottlerocket_test_system.Model.Json.{Fields}

pub data TaskState : Type 0 where
  unknown running completed error : TaskState

-- `Default` of `TaskState`
abbrev pub default_task_state : TaskState
default_task_state = unknown

-- `==` of `TaskState`
abbrev pub task_state_eq : TaskState → TaskState → Bool
task_state_eq unknown unknown = true
task_state_eq running running = true
task_state_eq completed completed = true
task_state_eq error error = true
task_state_eq _ _ = false

-- A secret's type with its name. The map is ordered by its keys and holds each key once.
pub record Agent : Type 0 where
  pub name : String
  pub image : String
  pub pull_secret : Option String
  pub keep_running : Bool
  pub timeout : Option String
  pub configuration : Option Fields
  pub secrets : Option (List (String × String))
  pub capabilities : Option (List String)
  pub privileged : Option Bool
