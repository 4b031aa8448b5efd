-- ===== src/Stream/Handler.antt =====
-- The body of `start` and of `cancel` in frontend/src/runs/useRunStream.ts. Each function below is
-- the code between two awaits; a dispatch advances `stateRef` at once, so every guard reads the
-- state that the dispatch before it left. `services` is not modelled: what it returns is an argument.
use ichat.Base.{
  ℕ, Bool, true, false, not, ◌&&◌, Option, none, some, List, [], Text, or_else, option_is, text_eq,
  has_text, if◌then◌else◌,
}
use ichat.Api.Types.{ConversationResponse, ImageContext, MessageResponse, RunToolState}
use ichat.App.Action
use ichat.App.Store.{AppState, root_reducer}
use ichat.Run.State.{ActiveRun}

pub data RunEventType : Type 0 where
  run_started text_delta reasoning_delta tool_call_started tool_call_succeeded tool_call_failed
        run_succeeded run_failed run_cancelled :
      RunEventType

-- An event with its payload read: `text` and `kind` as the loop reads them, and the tool state that
-- `toolStateFromEvent` builds.
pub record RunStreamEvent : Type 0 where
  pub seq : ℕ
  pub type : RunEventType
  pub text : Option Text
  pub kind : Action.DeltaKind
  pub tool_state : RunToolState

pub record ConversationDetailResponse : Type 0 where
  pub conversation : ConversationResponse
  pub messages : List MessageResponse
  pub image_context : Option ImageContext

-- `activeRun?.runId === runId`.
unfoldable pub shows_run : Text → Option ActiveRun → Bool
shows_run run_id none = false
shows_run run_id (some run) = text_eq run.run_id run_id

-- The first line of `cancel`: whether a stop of this run was asked for before.
unfoldable pub already_requested : Text → Option ActiveRun → Bool
already_requested run_id none = false
already_requested run_id (some run) = text_eq run.run_id run_id && run.cancel_requested

module _ (date_parse : Text → Option ℕ) where
  -- `if (guard) dispatch(action)`.
  unfoldable pub dispatch_if : Bool → Action.AppAction → AppState → AppState
  dispatch_if guard action s = if guard then root_reducer date_parse s action else s

  -- `if (isActiveRun()) dispatch(action)`.
  unfoldable pub dispatch_active : Text → Action.AppAction → AppState → AppState
  unfolding dispatch_if
  dispatch_active run_id action s = dispatch_if (shows_run run_id s.active_run) action s

  -- The terminal branch, up to the `await` of the `succeeded` case.
  unfoldable pub on_terminal : Text → Text → Action.TerminalStatus → AppState → AppState
  unfolding dispatch_active
  on_terminal run_id conversation_id status s =
      root_reducer date_parse (dispatch_active run_id (Action.run_terminal status) s)
        (Action.run_in_list_finished conversation_id)

  -- One round of the loop, up to its `await`.
  unfoldable pub on_event : Text → Text → RunEventType → RunStreamEvent → AppState → AppState
  unfolding dispatch_active on_terminal
  on_event run_id conversation_id reasoning_delta e s =
      dispatch_active run_id (Action.reasoning_delta e.seq (or_else e.text []) (some e.kind)) s
  on_event run_id conversation_id text_delta e s =
      dispatch_active run_id (Action.text_delta e.seq (or_else e.text [])) s
  on_event run_id conversation_id tool_call_started e s =
      dispatch_active run_id (Action.run_tool_state e.seq e.tool_state) s
  on_event run_id conversation_id tool_call_succeeded e s =
      dispatch_active run_id (Action.run_tool_state e.seq e.tool_state) s
  on_event run_id conversation_id tool_call_failed e s =
      dispatch_active run_id (Action.run_tool_state e.seq e.tool_state) s
  on_event run_id conversation_id run_succeeded e s =
      on_terminal run_id conversation_id Action.succeeded s
  on_event run_id conversation_id run_failed e s =
      on_terminal run_id conversation_id Action.failed s
  on_event run_id conversation_id run_cancelled e s =
      on_terminal run_id conversation_id Action.cancelled s
  on_event run_id conversation_id run_started e s = s

  -- After the `await` of a succeeded run: the detail and the list that it brought.
  unfoldable pub on_fetched :
      Text → Text → ConversationDetailResponse → List ConversationResponse → AppState → AppState
  unfolding dispatch_if dispatch_active
  on_fetched run_id conversation_id detail list s =
      let synced = root_reducer date_parse s (Action.list_synced list none) in
      let activated = root_reducer date_parse synced Action.draft_activated in
      let loaded =
        dispatch_if (option_is activated.conversation_index.selected_id conversation_id)
          (Action.detail_loaded detail.conversation detail.messages detail.image_context)
          activated in
      let cleared = dispatch_active run_id Action.run_cleared loaded in
      dispatch_if (not (has_text detail.conversation.title)) (Action.title_pending conversation_id)
        cleared

  -- The `catch` of `start`.
  unfoldable pub on_stream_error : Text → Bool → AppState → AppState
  unfolding dispatch_active
  on_stream_error run_id is_abort s =
      if is_abort then s else dispatch_active run_id (Action.run_terminal Action.failed) s

  -- `cancel` up to its `await`: the state, and whether the request is sent.
  unfoldable pub cancel : Text → AppState → AppState × Bool
  unfolding already_requested
  cancel run_id s =
      if already_requested run_id s.active_run
      then (s, false)
      else (root_reducer date_parse s Action.cancel_requested, true)

  -- The `catch` of `cancel` of the run with this id, which the code does not look at. The toast says
  -- that stopping failed and asks to try again.
  unfoldable pub on_cancel_error : (run_id : Text) → (message : Text) → AppState → AppState
  on_cancel_error run_id message s =
      root_reducer date_parse (root_reducer date_parse s Action.cancel_failed)
        (Action.show_toast message Action.error)
