-- ===== src/Task/Tests.antt =====
-- A small table of tasks, for examples of what the task manager does.
mod Codings
mod Examples
mod Forms
mod Histories
mod Payments
mod Usage
use nsw.Prelude.{
  String, Bool, true, false, Option, none, some, List, [], ◌∷◌, ◌≡◌, ◌≢◌, refl, arith, ◌==◌, eq_iff,
  eq_refl, if◌then◌else◌, Result, ok, err, panic, ok-inj, inl, inr, sym, Bool-cases,
}
use nsw.Task.Plugin.State.{initialized}
use nsw.Task.Store.{
  TaskInfo, Column, state_column, plugin_state_column, local_state_column, with_column, TaskTable,
  IsTaskTable,
}
use nsw.Task.LocalState.{Codec}
use nsw.Task.Container.{PluginRun}
use nsw.Task.Factory.{Plugin, PluginMakers}
use nsw.Task.Container.Storage.{AcceptsUpdates}

abbrev first_row : List TaskInfo → String → Result TaskInfo
first_row [] id = err "record not found"
first_row (row ∷ rows) id = if row.id == id then ok row else first_row rows id

abbrev update_row : List TaskInfo → String → Column → List TaskInfo
unfolding with_column
update_row [] id c = []
update_row (row ∷ rows) id c =
    if row.id == id then with_column c row ∷ rows else row ∷ update_row rows id c

abbrev create_row : List TaskInfo → TaskInfo → Result TaskInfo → Result (List TaskInfo)
create_row rows row (ok stored) = err "duplicated key not allowed"
create_row rows row _ = ok (row ∷ rows)

unfoldable pub task_table : TaskTable (List TaskInfo)
unfolding update_row
task_table = record {
  first = λ rows id. first_row rows id;
  create = λ rows row. create_row rows row (first_row rows row.id);
  update = λ rows id c. ok (update_row rows id c);
}

with_column-id : (c : Column) (row : TaskInfo) → (with_column c row).id ≡ row.id
unfolding with_column
with_column-id (state_column v) row = refl
with_column-id (plugin_state_column v) row = refl
with_column-id (local_state_column v) row = refl

first_row-id :
    (rows : List TaskInfo) (i : String) (row : TaskInfo) → first_row rows i ≡ ok row → row.id ≡ i
first_row-id [] i row h = cc
first_row-id (r ∷ rows) i row h = elim (Bool-cases (r.id == i)) [
  | inl e ↦ let k = ok-inj (rw (e, first_row) at h) in rw (← k) ((eq_iff r.id i).0 e)
  | inr ne ↦ first_row-id rows i row (rw (ne, first_row) at h)
]

first_row-update_self :
    (rows : List TaskInfo) (i : String) (c : Column) (row : TaskInfo)
    → first_row rows i ≡ ok row
    → first_row (update_row rows i c) i ≡ ok (with_column c row)
unfolding update_row
first_row-update_self [] i c row h = cc
first_row-update_self (r ∷ rows) i c row h = elim (Bool-cases (r.id == i)) [
  | inl e ↦
      let k = ok-inj (rw (e, first_row) at h) in
      rw (e, update_row) (rw (with_column-id c r, first_row) (rw e (rw k refl)))
  | inr ne ↦
      rw (ne, update_row)
        (rw (ne, first_row) (first_row-update_self rows i c row (rw (ne, first_row) at h)))
]

first_row-update_ne :
    (rows : List TaskInfo) (i j : String) (c : Column)
    → i ≢ j
    → first_row (update_row rows i c) j ≡ first_row rows j
unfolding update_row
first_row-update_ne [] i j c ne = refl
first_row-update_ne (r ∷ rows) i j c ne = ground (
  arith,
  eq_iff i j,
  eq_iff r.id i,
  eq_iff r.id j,
  with_column-id c r,
  first_row-update_ne rows i j c ne,
)

-- A row is created only where none is found, and then in front.
create_row-eq :
    (rows : List TaskInfo) (row : TaskInfo) (found : Result TaskInfo) {rows' : List TaskInfo}
    → create_row rows row found ≡ ok rows'
    → (rows' ≡ row ∷ rows) × ((stored : TaskInfo) → found ≢ ok stored)
create_row-eq rows row (ok stored) h = absurd cc
create_row-eq rows row (err e) h = (sym (ok-inj h), λ stored p. cc)
create_row-eq rows row panic h = (sym (ok-inj h), λ stored p. cc)

pub task_table-IsTaskTable : IsTaskTable task_table
unfolding task_table
task_table-IsTaskTable = record {
  first_id = λ s i row h. first_row-id s i row h;
  first-create_self = λ s s' row h.
      let (e, fresh) = create_row-eq s row (first_row s row.id) h in
      rw e (row, rw (eq_refl row.id, first_row) refl, refl, refl, refl);
  first-create_ne = λ s s' row j h ne.
      let (e, fresh) = create_row-eq s row (first_row s row.id) h in
      rw e (ground (arith, eq_iff row.id j));
  create_new = λ s s' row stored h. (create_row-eq s row (first_row s row.id) h).1 stored;
  first-update_self =
      λ s s' i c row found h. rw (← ok-inj h) (first_row-update_self s i c row found);
  first-update_ne = λ s s' i j c h ne. rw (← ok-inj h) (first_row-update_ne s i j c ne);
}

pub task_table-AcceptsUpdates : AcceptsUpdates task_table
unfolding task_table AcceptsUpdates
task_table-AcceptsUpdates s i c row found = (update_row s i c, refl)

-- a codec that only knows empty maps
abbrev pub codec : Codec
codec = record {
  marshal = λ m. ok "{}";
  unmarshal = λ json. ok [];
  marshal_raw = λ json. ok json;
  unmarshal_raw = λ json. ok json;
}

abbrev pub form_row : TaskInfo
form_row = record {
  id = "t";
  workflow_id = "w";
  template_id = "A";
  type_name = "SIMPLE_FORM";
  state = initialized;
  plugin_state = "INITIALIZED";
  config = "{}";
  local_state = "{}";
  global_context = "{}";
}

-- The form is saved as a draft and then submitted, and one more action is tried.
abbrev pub submit : PluginRun
submit = PluginRun.write_local "form" "{}" (λ written.
    PluginRun.call_transition "SAVE_AS_DRAFT" (λ saved.
      PluginRun.call_transition "SUBMIT_FORM_COMPLETE" (λ submitted.
        PluginRun.call_transition "SAVE_AS_DRAFT" (λ refused. PluginRun.respond none))))

-- The form is shown, and saved as a draft if it is new.
abbrev pub shown : PluginRun
shown = PluginRun.call_transition "SAVE_AS_DRAFT" (λ saved. PluginRun.respond none)

abbrev pub form_plugin : Plugin
form_plugin = record { start = PluginRun.respond none; render = shown; execute = λ request. submit }

abbrev pub makers : PluginMakers
makers = record {
  new_simple_form = λ config. ok form_plugin;
  new_wait_for_event_task = λ config. err "no service";
  new_payment_task = λ config. err "no service";
}
