-- ===== src/App/Action.antt =====
-- The actions that the reducers share (`AppAction` of frontend/src/app/store.ts, the union of the
-- action types of the slices), and the payload types that stand beside the slices' states.
-- An action that carries several values of one kind holds them in a record.
use ichat.Base.{ℕ, Bool, Option, List, Text}
use ichat.Api.Types.{
  AuthUserResponse, ConversationActiveRun, ConversationResponse, FileAttachment, ImageContext,
  MessageResponse, ReplyQuoteDraft, RunStatus, RunToolSource, RunToolState,
}

pub record AuthSession : Type 0 where
  pub user : AuthUserResponse
  pub access_token : Text
  pub refresh_token : Text
  pub token_type : Text
  pub expires_at : ℕ

pub record ConfirmDialogState : Type 0 where
  pub conversation_id : Text

pub record ShareDialogState : Type 0 where
  pub conversation_id : Text

pub data ToastTone : Type 0 where
  neutral success error warning : ToastTone

pub record Submission : Type 0 where
  pub client_id : Text
  pub content : Text
  pub conversation_id : Option Text
  pub attachments : List FileAttachment
  pub reply_quote : Option ReplyQuoteDraft

pub data DeltaKind : Type 0 where
  raw summary : DeltaKind

pub data TerminalStatus : Type 0 where
  succeeded failed cancelled : TerminalStatus

pub record RunSnapshot : Type 0 where
  pub run_id : Text
  pub conversation_id : Text
  pub provider_name : Option Text
  pub latest_seq : ℕ
  pub draft_text : Text
  pub draft_reasoning : Text
  pub draft_reasoning_summary : Option Text
  pub tool_state : Option RunToolState
  pub sources : Option (List RunToolSource)
  pub status : RunStatus

pub data AppAction : Type 0 where
  -- auth/state.ts
  auth_restored : Option AuthSession → AppAction
  auth_bootstrap_completed : AppAction
  auth_submit_started : AppAction
  auth_logged_in : AuthSession → AppAction
  auth_submit_failed : AppAction
  auth_user_updated : AuthUserResponse → AppAction
  -- conversations/state.ts, the index
  list_loading : AppAction
  list_loaded :
      List ConversationResponse → Option (List ConversationResponse) → Option Bool → AppAction
  list_loading_more : AppAction
  list_page_loaded : List ConversationResponse → Bool → AppAction
  list_error : AppAction
  list_synced : List ConversationResponse → Option (List ConversationResponse) → AppAction
  marker_changed : ConversationResponse → AppAction
  run_in_list_started : ConversationResponse → ConversationActiveRun → Text → AppAction
  run_in_list_finished : Text → AppAction
  selected : Option Text → AppAction
  renamed : ConversationResponse → AppAction
  removed : Text → AppAction
  draft_created : Text → AppAction
  draft_activated : AppAction
  title_pending : Text → AppAction
  title_resolved : Text → AppAction
  -- conversations/state.ts, the detail
  detail_loading : AppAction
  detail_loaded : ConversationResponse → List MessageResponse → Option ImageContext → AppAction
  message_appended : MessageResponse → Option ImageContext → AppAction
  detail_forbidden : AppAction
  detail_reset : AppAction
  -- conversations/submission.ts
  submission_started : Submission → AppAction
  submission_targeted : Text → AppAction
  submission_cleared : AppAction
  -- ui/state.ts
  toggle_mobile_sidebar : AppAction
  set_mobile_sidebar : Bool → AppAction
  toggle_sidebar_collapsed : AppAction
  open_confirm : ConfirmDialogState → AppAction
  close_confirm : AppAction
  open_share : ShareDialogState → AppAction
  close_share : AppAction
  show_toast : Text → ToastTone → AppAction
  hide_toast : AppAction
  -- runs/state.ts
  run_started : Text → Text → Option Text → AppAction
  run_restored : RunSnapshot → AppAction
  reasoning_delta : ℕ → Text → Option DeltaKind → AppAction
  text_delta : ℕ → Text → AppAction
  run_tool_state : ℕ → RunToolState → AppAction
  run_terminal : TerminalStatus → AppAction
  cancel_requested : AppAction
  cancel_failed : AppAction
  run_cleared : AppAction
  -- app/store.ts
  reply_quote_set : ReplyQuoteDraft → AppAction
  reply_quote_cleared : AppAction
  reply_quote_restored : Option ReplyQuoteDraft → AppAction
  app_reset : AppAction
