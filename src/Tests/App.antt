-- ===== src/Tests/App.antt =====
-- The store and the stream of a run on concrete states.
use ichat.Base.{◌≡◌, refl, true, false, none, some, List, [], ◌∷◌, Text, codes, text_eq}
use ichat.Api.Types.{RunStatus}
use ichat.App.Action
use ichat.App.Slices.{Toast, ui_reducer}
use ichat.App.Store.{AppState, initial_state, root_reducer, dispatch_all}
use ichat.App.Toasts.{IsNewer, fresh_toast}
use ichat.Run.State.{start}
use ichat.Stream.Handler.{RunStreamEvent, text_delta, shows_run, cancel, on_event, on_cancel_error}
use ichat.Stream.Task.{World, receive, reading}
use ichat.Stream.Isolation.{TaskStep-foreign}
use ichat.Stream.Stop.{cancel_error_reverts_shown_run}
use ichat.Tests.Data.{unit_date, run, index, found}

abbrev state : AppState
state = record initial_state { active_run = some run; conversation_index = index }

abbrev shown : Toast
shown = record { id = 1; message = codes "saved"; tone = Action.success }

abbrev before : List Action.AppAction
before = Action.show_toast (codes "saved") Action.success ∷ []

abbrev after : List Action.AppAction
after = Action.hide_toast ∷ Action.toggle_sidebar_collapsed ∷ []

before-shown : (dispatch_all unit_date initial_state before).ui.toast ≡ some shown
unfolding dispatch_all root_reducer ui_reducer
before-shown = refl

fresh_toast_example :
    IsNewer shown
      (root_reducer unit_date
        (dispatch_all unit_date (dispatch_all unit_date initial_state before) after)
        (Action.show_toast (codes "failed") Action.error)).ui.toast
fresh_toast_example =
    fresh_toast unit_date before after shown (codes "failed") Action.error before-shown refl

abbrev event : RunStreamEvent
event = record {
  seq = 9;
  type = text_delta;
  text = some (codes "Hello");
  kind = Action.DeltaKind.raw;
  tool_state = found;
}

abbrev reading_world : World
reading_world = record { state = state; phase = reading }

-- The world after a delta of the run with this id.
abbrev read_by : Text → World
read_by run_id = record {
  state = on_event unit_date run_id (codes "c") text_delta event state;
  phase = reading;
}

TaskStep-foreign_example : (read_by (codes "x")).state.active_run ≡ some run
TaskStep-foreign_example =
    TaskStep-foreign unit_date (codes "x") (codes "c") {w = reading_world} {v = read_by (codes "x")}
      (receive state event) (unfold shows_run text_eq in refl)

cancel_error_reverts_shown_run_example :
    let first = cancel unit_date (codes "r") state in
    let restarted =
      root_reducer unit_date first.0 (Action.run_started (codes "t") (codes "d") none) in
    let second = cancel unit_date (codes "t") restarted in
    let failed = on_cancel_error unit_date (codes "r") (codes "retry") second.0 in
    (first.1 ≡ true)
    × (second.1 ≡ true)
    × (shows_run (codes "r") failed.active_run ≡ false)
    × (failed.active_run
        ≡ some (record (start (codes "t") (codes "d") none) { status = RunStatus.streaming }))
cancel_error_reverts_shown_run_example =
    cancel_error_reverts_shown_run unit_date (codes "retry") (codes "t") (codes "d") none state run
      refl refl (unfold text_eq in refl)
