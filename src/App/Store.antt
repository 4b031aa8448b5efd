-- ===== src/App/Store.antt =====
-- `AppState` and `rootReducer` of frontend/src/app/store.ts: each slice is reduced by its own
-- reducer on every action.
use ichat.Base.{ℕ, Option, List, [], ◌∷◌, Text}
use ichat.App.Action
use ichat.App.Slices.{
  AuthState, UiState, ComposerState, initial_auth_state, initial_ui_state, initial_composer_state,
  initial_pending_submission_state, auth_reducer, ui_reducer, composer_reducer,
  pending_submission_reducer,
}
use ichat.Conversation.Index.{
  ConversationIndexState, initial_conversation_index_state, conversation_index_reducer,
}
use ichat.Conversation.Detail.{
  ConversationDetailState, initial_conversation_detail_state, conversation_detail_reducer,
}
use ichat.Run.State.{ActiveRun, initial_active_run_state, active_run_reducer}

pub record AppState : Type 0 where
  pub auth : AuthState
  pub conversation_index : ConversationIndexState
  pub conversation_detail : ConversationDetailState
  pub pending_submission : Option Action.Submission
  pub active_run : Option ActiveRun
  pub composer : ComposerState
  pub ui : UiState

abbrev pub initial_state : AppState
initial_state = record {
  auth = initial_auth_state;
  conversation_index = initial_conversation_index_state;
  conversation_detail = initial_conversation_detail_state;
  pending_submission = initial_pending_submission_state;
  active_run = initial_active_run_state;
  composer = initial_composer_state;
  ui = initial_ui_state;
}

module _ (date_parse : Text → Option ℕ) where
  unfoldable pub root_reducer : AppState → Action.AppAction → AppState
  root_reducer s a = record {
    auth = auth_reducer s.auth a;
    conversation_index = conversation_index_reducer date_parse s.conversation_index a;
    conversation_detail = conversation_detail_reducer date_parse s.conversation_detail a;
    pending_submission = pending_submission_reducer s.pending_submission a;
    active_run = active_run_reducer s.active_run a;
    composer = composer_reducer s.composer a;
    ui = ui_reducer s.ui a;
  }

  -- The store after a sequence of dispatches.
  unfoldable pub dispatch_all : AppState → List Action.AppAction → AppState
  dispatch_all s [] = s
  dispatch_all s (a ∷ actions) = dispatch_all (root_reducer s a) actions
