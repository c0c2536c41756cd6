-- ===== src/Task/Plugin/WaitForEvent/Display.antt =====
-- `getDisplay` of plugin/wait_for_event.go: the texts for the state of the plugin.
use nsw.Prelude.{String, none, some, ◌==◌, if◌then◌else◌, Result, ok, err, ◌>>=◌}
use nsw.Json.{Value, null, boolean, number, text, array, object, find_field, as_text}

-- the switch of `getDisplay` on the state of the plugin: a `DisplayState`
unfoldable pub display_state : String → Result String
display_state state =
    if state == "NOTIFIED_SERVICE"
    then ok "waiting"
    else if state == "NOTIFY_FAILED"
    then ok "failed"
    else if state == "RECEIVED_CALLBACK"
    then ok "completed"
    else err "unsupported wait_for_event plugin state"

-- `resolveDisplayField`
unfoldable pub resolve_display_field : Value → String → Result Value
unfolding find_field as_text
resolve_display_field null state = ok null
resolve_display_field (text s) state = ok (text s)
resolve_display_field (object fs) state = elim (find_field state fs) [
  | none ↦ err "state not found in display configuration"
  | some v ↦ elim (as_text v) [ none ↦ err "expected string" | some s ↦ ok (text s) ]
]
resolve_display_field (boolean b) state = err "expected string or map[string]any"
resolve_display_field (number n) state = err "expected string or map[string]any"
resolve_display_field (array vs) state = err "expected string or map[string]any"

-- `getDisplay`: the title and the description
unfoldable pub get_display : Value × Value → String → Result (Value × Value)
unfolding display_state resolve_display_field
get_display (title, description) plugin_state = do
  state ← display_state plugin_state
  shown ← resolve_display_field title state
  described ← resolve_display_field description state
  ok (shown, described)
