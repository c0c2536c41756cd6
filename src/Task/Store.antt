-- ===== src/Task/Store.antt =====
-- persistence/store.go: the table of tasks. The table itself is gorm's, and a parameter: `First`,
-- `Create` and the update of one column, as functions of the database's state. The updates are
-- committed one by one.
use nsw.Prelude.{String, ◌≡◌, ◌≢◌, Result, ok, ◌>>=◌}
use nsw.Task.Plugin.State.{TaskState}

-- `json.RawMessage`, the text of a JSON value
abbrev pub Json : Type 0
Json = String

-- `TaskInfo`, without the time stamps
pub record TaskInfo : Type 0 where
  pub id : String
  pub workflow_id : String
  pub template_id : String
  pub type_name : String
  pub state : TaskState
  pub plugin_state : String
  pub config : Json
  pub local_state : Json
  pub global_context : Json

-- the columns that the store updates by themselves
pub data Column : Type 0 where
  state_column : TaskState → Column
  plugin_state_column : String → Column
  local_state_column : Json → Column

unfoldable pub with_column : Column → TaskInfo → TaskInfo
with_column (state_column v) row = record row { state = v }
with_column (plugin_state_column v) row = record row { plugin_state = v }
with_column (local_state_column v) row = record row { local_state = v }

pub record TaskTable (S : Type 0) : Type 0 where
  -- `db.First(&row, "id = ?", id)`
  pub first : S → String → Result TaskInfo
  -- `db.Create(row)`
  pub create : S → TaskInfo → Result S
  -- `db.Model(&TaskInfo{}).Where("id = ?", id).Update(column, value)`
  pub update : S → String → Column → Result S

-- What gorm documents of them, with `id` as the primary key.
pub record IsTaskTable {S : Type 0} (t : TaskTable S) : Type 0 where
  pub first_id : (s : S) (i : String) (row : TaskInfo) → t.first s i ≡ ok row → row.id ≡ i
  -- The new row is stored, up to the form of its JSON columns.
  pub first-create_self :
      (s s' : S) (row : TaskInfo)
      → t.create s row ≡ ok s'
      → (stored : TaskInfo) × (t.first s' row.id ≡ ok stored)
        × (stored.type_name ≡ row.type_name)
        × (stored.state ≡ row.state)
        × (stored.plugin_state ≡ row.plugin_state)
  pub first-create_ne :
      (s s' : S) (row : TaskInfo) (j : String)
      → t.create s row ≡ ok s'
      → row.id ≢ j
      → t.first s' j ≡ t.first s j
  -- A row with the same primary key is refused.
  pub create_new :
      (s s' : S) (row stored : TaskInfo) → t.create s row ≡ ok s' → t.first s row.id ≢ ok stored
  pub first-update_self :
      (s s' : S) (i : String) (c : Column) (row : TaskInfo)
      → t.first s i ≡ ok row
      → t.update s i c ≡ ok s'
      → t.first s' i ≡ ok (with_column c row)
  pub first-update_ne :
      (s s' : S) (i j : String) (c : Column)
      → t.update s i c ≡ ok s'
      → i ≢ j
      → t.first s' j ≡ t.first s j

module _ {S : Type 0} (t : TaskTable S) where
  unfoldable pub get_by_id : S → String → Result TaskInfo
  get_by_id s id = t.first s id

  unfoldable pub update_status : S → String → TaskState → Result S
  update_status s id status = t.update s id (state_column status)

  unfoldable pub update_local_state : S → String → Json → Result S
  update_local_state s id local_state = t.update s id (local_state_column local_state)

  unfoldable pub get_local_state : S → String → Result Json
  get_local_state s id = do row ← t.first s id; ok row.local_state

  unfoldable pub update_plugin_state : S → String → String → Result S
  update_plugin_state s id plugin_state = t.update s id (plugin_state_column plugin_state)

  unfoldable pub get_plugin_state : S → String → Result String
  get_plugin_state s id = do row ← t.first s id; ok row.plugin_state
