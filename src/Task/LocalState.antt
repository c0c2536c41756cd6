-- ===== src/Task/LocalState.antt =====
-- persistence/state_manager.go: a task's local state, a map in memory written through to the
-- task's row. Encoding a map as JSON is `encoding/json`'s, and a parameter.
use nsw.Prelude.{
  String, [], Map, lookup, insert, Option, Result, ok, err, panic, ◌>>=◌, wrap, ◌==◌, ◌||◌,
  if◌then◌else◌,
}
use nsw.Task.Store.{Json, TaskTable, get_local_state, update_local_state}

pub record Codec : Type 0 where
  -- `json.Marshal`
  pub marshal : Map Json → Result Json
  -- `json.Unmarshal` into a map
  pub unmarshal : Json → Result (Map Json)
  -- both of a `json.RawMessage`, which is checked and copied
  pub marshal_raw : Json → Result Json
  pub unmarshal_raw : Json → Result Json

-- `LocalStateManager`'s `taskID` and `cache`
pub record LocalState : Type 0 where
  pub task_id : String
  pub cache : Map Json

-- `gorm.ErrRecordNotFound`
abbrev pub record_not_found : String
record_not_found = "record not found"

-- `GetState`: a missing key is nil, not an error
unfoldable pub get_state : LocalState → String → Option Json
get_state m key = lookup key m.cache

module _ {S : Type 0} (t : TaskTable S) (codec : Codec) where
  -- the branches of `loadFromDB` on what the store returned
  unfoldable pub load_found : Result Json → Result (Map Json)
  load_found (ok json) =
      if json == "" then ok [] else wrap "failed to unmarshal local state: " (codec.unmarshal json)
  load_found (err e) = if e == record_not_found then ok [] else err e
  load_found panic = panic

  -- `loadFromDB`
  unfoldable pub load_from_db : S → String → Result (Map Json)
  unfolding load_found get_local_state
  load_from_db s task_id = load_found (get_local_state t s task_id)

  unfoldable pub new_local_state_manager : S → String → Result LocalState
  unfolding load_from_db load_found get_local_state
  new_local_state_manager s task_id = do
    cache ← wrap "failed to load local state: " (load_from_db s task_id)
    ok (record { task_id = task_id; cache = cache })

  -- the map that a row's local state holds
  unfoldable pub cached_state : Json → Result (Map Json)
  cached_state json =
      if json == "" || json == "null"
      then ok []
      else wrap "failed to unmarshal local state: " (codec.unmarshal json)

  unfoldable pub new_local_state_manager_with_cache : String → Json → Result LocalState
  unfolding cached_state
  new_local_state_manager_with_cache task_id json = do
    cache ← cached_state json
    ok (record { task_id = task_id; cache = cache })

  -- `persistToDB`
  unfoldable pub persist_to_db : S → LocalState → Result S
  unfolding update_local_state
  persist_to_db s m = do
    json ← wrap "failed to marshal local state: " (codec.marshal m.cache)
    wrap "failed to update local state in database: " (update_local_state t s m.task_id json)

  -- `SetState`: the map keeps the new value also when the write fails
  unfoldable pub set_state : S → LocalState → String → Json → LocalState × Result S
  unfolding persist_to_db update_local_state
  set_state s m key value =
      let m' = record m { cache = insert key value m.cache } in (m', persist_to_db s m')
