-- ===== src/Task/Plugin/WaitForEvent/Render.antt =====
-- `GetRenderInfo` of plugin/wait_for_event.go, with what it shows, and the plugin.
use nsw.Prelude.{String, Option, none, some, Result, ok, err, panic}
use nsw.Json.{Value, null}
use nsw.Task.Container
use nsw.Task.Factory.{Plugin}
use nsw.Task.Plugin.State.{TaskState}
use nsw.Task.Plugin.Config.{Services}
use nsw.Task.Plugin.FormDisplay.{FormDisplay, display_form_id, attach_form_display}
use nsw.Task.Plugin.Api.{Call, ◌>>=◌, return, get_plugin_state, get_task_state, run, show}
use nsw.Task.Plugin.WaitForEvent.{EventConfig, start, execute}
use nsw.Task.Plugin.WaitForEvent.Display.{get_display}

-- the content of a `GetRenderInfoResponse`, with the two states
pub record EventInfo : Type 0 where
  pub plugin_state : String
  pub state : TaskState
  pub display : Option (Value × Value)
  pub event_review_form : Option FormDisplay

-- a display that cannot be had is shown empty
abbrev pub or_empty : Result (Value × Value) → Value × Value
or_empty (ok display) = display
or_empty (err e) = (null, null)
or_empty panic = (null, null)

module _ (services : Services) where
  unfoldable pub shown_display : EventConfig → Call (Option (Value × Value))
  unfolding get_display
  shown_display config = elim config.display [
    | none ↦ return none
    | some display ↦ do
      state ← get_plugin_state
      return (some (or_empty (get_display display state)))
  ]

  unfoldable pub review_form : EventConfig → Call (Option FormDisplay)
  unfolding display_form_id attach_form_display
  review_form config = elim config.submission [
    | none ↦ return none
    | some s ↦ elim s.response [
      | none ↦ return none
      | some response ↦
          attach_form_display services "eventResponse" (display_form_id (some response))
    ]
  ]

  -- `GetRenderInfo` with `renderContent`
  unfoldable pub get_render_info : EventConfig → Call EventInfo
  unfolding shown_display review_form
  get_render_info config = do
    plugin_state ← get_plugin_state
    state ← get_task_state
    display ← shown_display config
    form ← review_form config
    return (record {
      plugin_state = plugin_state;
      state = state;
      display = display;
      event_review_form = form;
    })

  -- the plugin that `NewWaitForEventTask` makes
  unfoldable pub wait_for_event_task : EventConfig → Plugin
  unfolding start execute get_render_info
  wait_for_event_task config = record {
    start = run (start services config);
    render = show (get_render_info config);
    execute = λ request. elim request [
      | none ↦ Container.fail "execution request is required"
      | some r ↦ run (execute services config r)
    ];
  }
