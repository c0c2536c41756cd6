-- ===== src/Task/Plugin/FormDisplay.antt =====
-- `attachFormDisplay` of plugin/simple_form.go and of plugin/wait_for_event.go.
use nsw.Prelude.{String, Option, none, some, ◌==◌, if◌then◌else◌, Result, ok, err, panic}
use nsw.Task.Store.{Json}
use nsw.Task.Plugin.Config.{ResponseConfig, FormDefinition, Services}
use nsw.Task.Plugin.Api.{Call, ◌>>=◌, return, try, read_from_local_store}

-- what is attached to the content, if anything
pub record FormDisplay : Type 0 where
  pub title : String
  pub ui_schema : Json
  pub schema : Json
  pub form_data : Json

-- `displayFormID`
unfoldable pub display_form_id : Option ResponseConfig → String
display_form_id none = ""
display_form_id (some response) = elim response.display_form_id [ none ↦ "" | some id ↦ id ]

unfoldable pub shown_form : Json → Result FormDefinition → Call (Option FormDisplay)
shown_form stored_data (ok def) = return (
    some (record {
      title = def.name;
      ui_schema = def.ui_schema;
      schema = def.schema;
      form_data = stored_data;
    }))
shown_form stored_data (err e) = return none
shown_form stored_data panic = try panic

module _ (services : Services) where
  -- `attachFormDisplay`; a form service that is nil is called all the same
  unfoldable pub attach_form_display : String → String → Call (Option FormDisplay)
  unfolding shown_form
  attach_form_display store_key form_id = if form_id == "" then return none else do
    stored ← read_from_local_store store_key
    elim stored [
      | none ↦ return none
      | some stored_data ↦ elim services.get_form [
        | none ↦ try panic
        | some get_form ↦ shown_form stored_data (get_form form_id)
      ]
    ]
