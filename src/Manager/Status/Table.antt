-- ===== src/Manager/Status/Table.antt =====
-- model/src/test_manager/status.rs: the columns of the status table and its cells. How numbers and
-- states are written is left to other crates: a record of functions.
pub mod Heights
use bottlerocket_test_system.Base.{
  ℕ, zero, suc, String, Option, none, some, List, [], ◌∷◌, ◌++◌, map, length, leb, unwrap_or,
  if◌then◌else◌,
}
use bottlerocket_test_system.Model.Agent.{TaskState}
use bottlerocket_test_system.Model.Crd.{Crd, name}
use bottlerocket_test_system.Model.Resource.{Resource, creation_task_state, destruction_task_state}
use bottlerocket_test_system.Model.Test.{
  Test, TestResults, TestUserState, agent_status, test_user_state,
}

pub data TextAlignment : Type 0 where
  left right : TextAlignment

pub record StatusColumn : Type 0 where
  pub header : String
  pub values : Crd → List String
  pub alignment : TextAlignment
  pub width : Option ℕ

-- `to_string` of the values in cells
pub record Display : Type 0 where
  pub task_state : TaskState → String
  pub user_state : TestUserState → String
  pub number : ℕ → String

pub data ResultType : Type 0 where
  passed failed skipped : ResultType

-- `Option::into_iter().collect()`
abbrev pub cells : Option String → List String
cells none = []
cells (some s) = s ∷ []

unfoldable pub crd_time : Crd → List String
crd_time (Crd.test t) = elim t.status [ none ↦ [] | some s ↦ cells s.last_update ]
crd_time (Crd.resource r) = elim r.status [ none ↦ [] | some s ↦ cells s.last_update ]

unfoldable pub crd_type : Crd → List String
crd_type (Crd.test t) = "Test" ∷ []
crd_type (Crd.resource r) = "Resource" ∷ []

-- the destruction's state, or that of the creation while it is unknown
shown_state : TaskState → TaskState → TaskState
shown_state created TaskState.unknown = created
shown_state created s = s

result_count : ResultType → TestResults → ℕ
result_count passed r = r.num_passed
result_count failed r = r.num_failed
result_count skipped r = r.num_skipped

-- `test_iter.chain(current_test)`
abbrev pub chained : List TestResults → Option TestResults → List TestResults
chained rs none = rs
chained rs (some r) = rs ++ r ∷ []

unfoldable pub crd_progress : Crd → List String
unfolding agent_status
crd_progress (Crd.resource r) = []
crd_progress (Crd.test t) = elim (agent_status t).current_test [
  | none ↦ []
  | some r ↦ cells (TestResults.other_info r)
]

module _ (show : Display) where
  unfoldable pub crd_state : Crd → List String
  unfolding shown_state
  crd_state (Crd.test t) = show.user_state (test_user_state t) ∷ []
  crd_state (Crd.resource r) =
      show.task_state (shown_state (creation_task_state r) (destruction_task_state r)) ∷ []

  unfoldable pub crd_results : ResultType → Crd → List String
  unfolding result_count agent_status
  crd_results k (Crd.resource r) = []
  crd_results k (Crd.test t) =
      map (λ r. show.number (result_count k r))
        (chained (agent_status t).results (agent_status t).current_test)

  -- the constructors of `StatusColumn`
  unfoldable pub name_column : StatusColumn
  unfolding name
  name_column = record {
    header = "NAME";
    values = λ c. cells (name c);
    alignment = left;
    width = none;
  }

  unfoldable pub type_column : StatusColumn
  type_column = record { header = "TYPE"; values = crd_type; alignment = left; width = none }

  unfoldable pub state_column : StatusColumn
  state_column = record { header = "STATE"; values = crd_state; alignment = left; width = none }

  unfoldable pub passed_column : StatusColumn
  passed_column = record {
    header = "PASSED";
    values = crd_results passed;
    alignment = right;
    width = some 6;
  }

  unfoldable pub failed_column : StatusColumn
  failed_column = record {
    header = "FAILED";
    values = crd_results failed;
    alignment = right;
    width = some 6;
  }

  unfoldable pub skipped_column : StatusColumn
  skipped_column = record {
    header = "SKIPPED";
    values = crd_results skipped;
    alignment = right;
    width = some 7;
  }

  unfoldable pub last_update_column : StatusColumn
  last_update_column = record {
    header = "LAST UPDATE";
    values = crd_time;
    alignment = left;
    width = some 20;
  }

  unfoldable pub progress_column : StatusColumn
  progress_column = record {
    header = "PROGRESS";
    values = crd_progress;
    alignment = left;
    width = none;
  }

-- `cmp::max`
abbrev max : ℕ → ℕ → ℕ
max a b = if leb a b then b else a

-- the height of the row of an object
pub row_count : List (List String) → ℕ
row_count [] = 0
row_count (c ∷ cs) = max (length c) (row_count cs)

-- `Vec::resize` with empty texts
pub resize : ℕ → List String → List String
resize zero xs = []
resize (suc n) [] = "" ∷ resize n []
resize (suc n) (x ∷ xs) = x ∷ resize n xs

-- the columns of the table and the cells of one object, zipped
pub extend : ℕ → List (List String) → List (List String) → List (List String)
unfolding resize
extend n [] cells = []
extend n (d ∷ ds) [] = []
extend n (d ∷ ds) (c ∷ cs) = (d ++ resize n c) ∷ extend n ds cs

abbrev pub cells_of : List StatusColumn → Crd → List (List String)
cells_of columns crd = map (λ col. StatusColumn.values col crd) columns

-- the fold over the objects
pub add_rows : List StatusColumn → List (List String) → List Crd → List (List String)
unfolding extend row_count
add_rows columns table [] = table
add_rows columns table (crd ∷ crds) =
    add_rows columns (extend (row_count (cells_of columns crd)) table (cells_of columns crd)) crds

-- `status_data` of `Table::from`
pub status_data : List StatusColumn → List Crd → List (List String)
unfolding add_rows
status_data columns crds = add_rows columns (map (λ col. StatusColumn.header col ∷ []) columns) crds
