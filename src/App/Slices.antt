-- ===== src/App/Slices.antt =====
-- The small slices of the store: `authReducer` (frontend/src/auth/state.ts), `uiReducer`
-- (frontend/src/ui/state.ts), `pendingSubmissionReducer` (frontend/src/conversations/submission.ts)
-- and `composerReducer` (frontend/src/app/store.ts).
use ichat.Base.{ℕ, Bool, true, false, not, Option, none, some, [], Text, ◌+◌}
use ichat.Api.Types.{ReplyQuoteDraft}
use ichat.App.Action

pub data AuthStatus : Type 0 where
  idle submitting : AuthStatus

pub record AuthState : Type 0 where
  pub session : Option Action.AuthSession
  pub status : AuthStatus
  pub bootstrapped : Bool

abbrev pub initial_auth_state : AuthState
initial_auth_state = record { session = none; status = idle; bootstrapped = false }

unfoldable pub auth_reducer : AuthState → Action.AppAction → AuthState
auth_reducer s (Action.auth_restored session) = record s { session = session; bootstrapped = false }
auth_reducer s Action.auth_bootstrap_completed = record s { bootstrapped = true }
auth_reducer s Action.auth_submit_started = record s { status = submitting }
auth_reducer s (Action.auth_logged_in session) = record s { session = some session; status = idle }
auth_reducer s Action.auth_submit_failed = record s { status = idle }
auth_reducer s (Action.auth_user_updated user) = elim s.session [
  | none ↦ s
  | some session ↦ record s { session = some (record session { user = user }) }
]
auth_reducer s Action.app_reset = record initial_auth_state { bootstrapped = true }
auth_reducer s _ = s

pub record Toast : Type 0 where
  pub id : ℕ
  pub message : Text
  pub tone : Action.ToastTone

pub record UiState : Type 0 where
  pub mobile_sidebar_open : Bool
  pub sidebar_collapsed : Bool
  pub confirm_dialog : Option Action.ConfirmDialogState
  pub share_dialog : Option Action.ShareDialogState
  pub toast : Option Toast
  pub toast_sequence : ℕ

abbrev pub initial_ui_state : UiState
initial_ui_state = record {
  mobile_sidebar_open = false;
  sidebar_collapsed = false;
  confirm_dialog = none;
  share_dialog = none;
  toast = none;
  toast_sequence = 0;
}

unfoldable pub ui_reducer : UiState → Action.AppAction → UiState
ui_reducer s Action.toggle_mobile_sidebar = record s {
  mobile_sidebar_open = not s.mobile_sidebar_open;
}
ui_reducer s (Action.set_mobile_sidebar is_open) = record s { mobile_sidebar_open = is_open }
ui_reducer s Action.toggle_sidebar_collapsed = record s {
  sidebar_collapsed = not s.sidebar_collapsed;
}
ui_reducer s (Action.open_confirm dialog) = record s { confirm_dialog = some dialog }
ui_reducer s Action.close_confirm = record s { confirm_dialog = none }
ui_reducer s (Action.open_share dialog) = record s { share_dialog = some dialog }
ui_reducer s Action.close_share = record s { share_dialog = none }
ui_reducer s (Action.show_toast message tone) =
    let id = s.toast_sequence + 1 in
    record s {
      toast = some (record { id = id; message = message; tone = tone });
      toast_sequence = id;
    }
ui_reducer s Action.hide_toast = record s { toast = none }
ui_reducer s Action.app_reset = initial_ui_state
ui_reducer s _ = s

abbrev pub initial_pending_submission_state : Option Action.Submission
initial_pending_submission_state = none

unfoldable pub pending_submission_reducer :
    Option Action.Submission → Action.AppAction → Option Action.Submission
pending_submission_reducer s (Action.submission_started submission) = some submission
pending_submission_reducer none (Action.submission_targeted conversation_id) = none
pending_submission_reducer (some s) (Action.submission_targeted conversation_id) =
    some (record s { conversation_id = some conversation_id })
pending_submission_reducer s Action.submission_cleared = initial_pending_submission_state
pending_submission_reducer s Action.app_reset = initial_pending_submission_state
pending_submission_reducer s _ = s

pub record ComposerState : Type 0 where
  pub input : Text
  pub is_composing : Bool
  pub reply_quote : Option ReplyQuoteDraft

abbrev pub initial_composer_state : ComposerState
initial_composer_state = record { input = []; is_composing = false; reply_quote = none }

unfoldable pub composer_reducer : ComposerState → Action.AppAction → ComposerState
composer_reducer s (Action.reply_quote_set quote) = record s { reply_quote = some quote }
composer_reducer s Action.reply_quote_cleared = record s { reply_quote = none }
composer_reducer s (Action.reply_quote_restored quote) = record s { reply_quote = quote }
composer_reducer s Action.app_reset = initial_composer_state
composer_reducer s _ = s
