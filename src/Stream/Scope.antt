-- ===== src/Stream/Scope.antt =====
-- The slices of the store under a run's stream (frontend/src/runs/useRunStream.ts).
use ichat.Base.{
  ℕ, ◌≡◌, refl, ◌∙◌, Bool, true, false, not, Option, none, List, Text, has_text, arith,
}
use ichat.Api.Types.{ConversationResponse}
use ichat.App.Action
use ichat.App.Slices.{auth_reducer, ui_reducer, composer_reducer, pending_submission_reducer}
use ichat.App.Store.{AppState, root_reducer}
use ichat.Stream.Handler.{
  RunEventType, RunStreamEvent, ConversationDetailResponse, run_started, run_succeeded, run_failed,
  run_cancelled, shows_run, dispatch_if, dispatch_active, on_terminal, on_event, on_fetched,
  on_stream_error,
}
use ichat.Stream.Task.{World, TaskStep, receive, fetched, fail}

-- The session, the message being sent, the composer and the interface state are what they were.
pub record SameElsewhere (s t : AppState) : Type 0 where
  pub auth : t.auth ≡ s.auth
  pub pending_submission : t.pending_submission ≡ s.pending_submission
  pub composer : t.composer ≡ s.composer
  pub ui : t.ui ≡ s.ui

SameElsewhere-refl : (s : AppState) → SameElsewhere s s
SameElsewhere-refl s = record { auth = refl; pending_submission = refl; composer = refl; ui = refl }

SameElsewhere-trans : {s t u : AppState} → SameElsewhere s t → SameElsewhere t u → SameElsewhere s u
SameElsewhere-trans p q = record {
  auth = q.auth ∙ p.auth;
  pending_submission = q.pending_submission ∙ p.pending_submission;
  composer = q.composer ∙ p.composer;
  ui = q.ui ∙ p.ui;
}

-- The actions that the stream dispatches.
abbrev is_stream_action : Action.AppAction → Bool
is_stream_action (Action.reasoning_delta seq t kind) = true
is_stream_action (Action.text_delta seq t) = true
is_stream_action (Action.run_tool_state seq t) = true
is_stream_action (Action.run_terminal t) = true
is_stream_action (Action.run_in_list_finished id) = true
is_stream_action (Action.list_synced items pinned) = true
is_stream_action Action.draft_activated = true
is_stream_action (Action.detail_loaded c m i) = true
is_stream_action Action.run_cleared = true
is_stream_action (Action.title_pending id) = true
is_stream_action _ = false

module _ (date_parse : Text → Option ℕ) where
  root_reducer-elsewhere :
      (s : AppState) (a : Action.AppAction)
      → is_stream_action a ≡ true
      → SameElsewhere s (root_reducer date_parse s a)
  unfolding root_reducer auth_reducer ui_reducer composer_reducer pending_submission_reducer
  root_reducer-elsewhere s a h = ground arith

  dispatch_if-elsewhere :
      (guard : Bool) (a : Action.AppAction) (s : AppState)
      → is_stream_action a ≡ true
      → SameElsewhere s (dispatch_if date_parse guard a s)
  unfolding dispatch_if
  dispatch_if-elsewhere true a s h = root_reducer-elsewhere s a h
  dispatch_if-elsewhere false a s h = SameElsewhere-refl s

  module _ (run_id conversation_id : Text) where
    dispatch_active-elsewhere :
        (a : Action.AppAction) (s : AppState)
        → is_stream_action a ≡ true
        → SameElsewhere s (dispatch_active date_parse run_id a s)
    unfolding dispatch_active
    dispatch_active-elsewhere a s h = dispatch_if-elsewhere (shows_run run_id s.active_run) a s h

    on_terminal-elsewhere :
        (t : Action.TerminalStatus) (s : AppState)
        → SameElsewhere s (on_terminal date_parse run_id conversation_id t s)
    unfolding on_terminal
    on_terminal-elsewhere t s =
        SameElsewhere-trans (dispatch_active-elsewhere (Action.run_terminal t) s refl)
          (root_reducer-elsewhere _ (Action.run_in_list_finished conversation_id) refl)

    on_event-elsewhere :
        (t : RunEventType) (e : RunStreamEvent) (s : AppState)
        → SameElsewhere s (on_event date_parse run_id conversation_id t e s)
    unfolding on_event
    on_event-elsewhere run_started e s = SameElsewhere-refl s
    on_event-elsewhere run_succeeded e s = on_terminal-elsewhere Action.succeeded s
    on_event-elsewhere run_failed e s = on_terminal-elsewhere Action.failed s
    on_event-elsewhere run_cancelled e s = on_terminal-elsewhere Action.cancelled s
    on_event-elsewhere _ e s = dispatch_active-elsewhere _ s refl

    on_fetched-elsewhere :
        (d : ConversationDetailResponse) (list : List ConversationResponse) (s : AppState)
        → SameElsewhere s (on_fetched date_parse run_id conversation_id d list s)
    unfolding on_fetched
    on_fetched-elsewhere d list s =
        SameElsewhere-trans (root_reducer-elsewhere s (Action.list_synced list none) refl) (
          SameElsewhere-trans (root_reducer-elsewhere _ Action.draft_activated refl) (
            SameElsewhere-trans
              (dispatch_if-elsewhere _
                (Action.detail_loaded d.conversation d.messages d.image_context) _ refl)
              (SameElsewhere-trans (dispatch_active-elsewhere Action.run_cleared _ refl) (
                dispatch_if-elsewhere (not (has_text d.conversation.title))
                  (Action.title_pending conversation_id) _ refl))))

    on_stream_error-elsewhere :
        (is_abort : Bool) (s : AppState)
        → SameElsewhere s (on_stream_error date_parse run_id is_abort s)
    unfolding on_stream_error
    on_stream_error-elsewhere true s = SameElsewhere-refl s
    on_stream_error-elsewhere false s =
        dispatch_active-elsewhere (Action.run_terminal Action.failed) s refl

    -- No step of a run's stream touches the session, a message being sent, the composer or the
    -- dialogs, toasts and sidebars.
    pub TaskStep-elsewhere :
        {w v : World}
        → TaskStep date_parse run_id conversation_id w v
        → SameElsewhere w.state v.state
    TaskStep-elsewhere (receive s e) = on_event-elsewhere e.type e s
    TaskStep-elsewhere (fetched s d list) = on_fetched-elsewhere d list s
    TaskStep-elsewhere (fail s p is_abort live) = on_stream_error-elsewhere is_abort s
