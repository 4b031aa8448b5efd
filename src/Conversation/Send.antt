-- ===== src/Conversation/Send.antt =====
-- `useSendMessage` (frontend/src/conversations/useSendMessage.ts): the code between two awaits. The
-- callback `onCommitted` and the log are left out.
use ichat.Base.{
  ℕ, Bool, false, not, ◌&&◌, ◌||◌, Option, none, some, List, [], ◌∷◌, Text, codes, find, is_empty,
  is_some, option_is, or_else, or_option, trim, ◌==◌, if◌then◌else◌,
}
use ichat.Api.Types.{
  ConversationResponse, FileAttachment, ImageContext, MessageResponse, ReplyQuoteDraft, RunStatus,
}
use ichat.Api.Errors.{Thrown, api, abort, other}
use ichat.App.Action
use ichat.App.Store.{AppState}
use ichat.Conversation.Rows.{has_id}
use ichat.Conversation.Markers.{open_row}
use ichat.Conversation.Loader.{Client, dispatch, save_selection}
use ichat.Run.Options.{Preferences, RunOptionsRequest, current_run_options}
use ichat.Stream.Recovery.{Next, stream}

-- The fields of the answers that are read.
pub record RunResponse : Type 0 where
  pub id : Text
  pub status : RunStatus
  pub provider_name : Option Text

pub record SendMessageResponse : Type 0 where
  pub message : MessageResponse
  pub run : RunResponse
  pub image_context : Option ImageContext

-- The arguments of the callback, and the id that it makes up.
pub record SendInput : Type 0 where
  pub client_id : Text
  pub content : Text
  pub attachment_ids : Option (List Text)
  pub attachments : List FileAttachment
  pub reply_quote : Option ReplyQuoteDraft

-- What a send asks the service for: a new conversation where there is no target.
pub record SendRequest : Type 0 where
  pub target_id : Option Text
  pub content : Text
  pub run_options : RunOptionsRequest
  pub attachment_ids : Option (List Text)
  pub reply_quote : Option ReplyQuoteDraft

-- The first test of the hook, and the test of the target.
unfoldable pub is_refused : Text → Option (List Text) → Option ReplyQuoteDraft → AppState → Bool
is_refused trimmed attachment_ids reply_quote s =
    is_empty trimmed && is_empty (or_else attachment_ids []) && not (is_some reply_quote)
    || is_some s.pending_submission
    || not (is_some s.conversation_index.selected_id) && is_some reply_quote

-- The code of an `ApiError`.
abbrev pub error_code : Thrown → Option Text
error_code (api e) = e.code
error_code abort = none
error_code other = none

abbrev pub is_too_large : Thrown → Bool
is_too_large (api e) = e.status == 413
is_too_large abort = false
is_too_large other = false

-- The part of `recoveryMessage` that two hooks share.
unfoldable pub model_message : Option Text → Option Text
model_message code =
    if option_is code (codes "IMAGE_INPUT_NOT_SUPPORTED")
    then some (codes "Switch to a vision model before sending images.")
    else if option_is code (codes "VISION_MODEL_REQUIRED")
    then some (codes "This conversation requires a compatible vision model.")
    else if option_is code (codes "LEGACY_IMAGE_CONTEXT")
    then some (codes "Upgrade the original image message with a vision model first.")
    else none

-- `recoveryMessage`.
unfoldable pub recovery_message : Thrown → Option Text
unfolding model_message
recovery_message error = or_option (model_message (error_code error)) (
    if is_too_large error
    then some (
        codes
          "The attachments are too large for one message. Remove some text or files and try again.")
    else none)

module _ (date_parse : Text → Option ℕ) where
  -- Up to the request.
  unfoldable pub send_message : Preferences → SendInput → Client → Client × Option SendRequest
  unfolding is_refused current_run_options
  send_message preferences input c =
      let trimmed = trim input.content in
      let target_id = c.state.conversation_index.selected_id in
      if is_refused trimmed input.attachment_ids input.reply_quote c.state then (c, none) else (
        dispatch date_parse
            (Action.submission_started (record {
              client_id = input.client_id;
              content = trimmed;
              conversation_id = target_id;
              attachments = input.attachments;
              reply_quote = input.reply_quote;
            }))
            c,
        some (record {
          target_id = target_id;
          content = trimmed;
          run_options = current_run_options none preferences;
          attachment_ids = input.attachment_ids;
          reply_quote = input.reply_quote;
        }),
      )

  -- The answer for a new conversation.
  unfoldable pub on_created : ConversationResponse → SendMessageResponse → Client → Client × Next
  on_created convo answer c =
      let targeted = dispatch date_parse (Action.submission_targeted convo.id) c in
      let loaded =
        dispatch date_parse (Action.detail_loaded convo (answer.message ∷ []) answer.image_context)
          targeted in
      let selected = dispatch date_parse (Action.selected (some convo.id)) loaded in
      let drafted = dispatch date_parse (Action.draft_created convo.id) selected in
      let listed =
        dispatch date_parse
          (Action.run_in_list_started convo
            (record { id = answer.run.id; status = answer.run.status }) answer.message.created_at)
          drafted in
      let started =
        dispatch date_parse (Action.run_started answer.run.id convo.id answer.run.provider_name)
          listed in
      (
        save_selection convo.id (dispatch date_parse Action.submission_cleared started),
        stream answer.run.id convo.id 0,
      )

  -- The row of the target after the message was appended.
  unfoldable pub target_row : Text → AppState → Option ConversationResponse
  target_row target_id s =
      or_option (find (has_id target_id) s.conversation_index.items)
        (open_row target_id s.conversation_detail.conversation)

  unfoldable pub list_run : Option ConversationResponse → SendMessageResponse → Client → Client
  list_run none answer c = c
  list_run (some conversation) answer c =
      dispatch date_parse
        (Action.run_in_list_started conversation
          (record { id = answer.run.id; status = answer.run.status }) answer.message.created_at)
        c

  -- The answer for an existing conversation.
  unfoldable pub on_sent : Text → SendMessageResponse → Client → Client × Next
  unfolding target_row list_run
  on_sent target_id answer c =
      let appended =
        dispatch date_parse (Action.message_appended answer.message answer.image_context) c in
      let listed = list_run (target_row target_id appended.state) answer appended in
      let started =
        dispatch date_parse (Action.run_started answer.run.id target_id answer.run.provider_name)
          listed in
      (dispatch date_parse Action.submission_cleared started, stream answer.run.id target_id 0)

  -- The `catch`.
  unfoldable pub on_send_error : Thrown → Client → Client
  unfolding recovery_message
  on_send_error error c =
      dispatch date_parse
        (Action.show_toast (or_else (recovery_message error) (codes "发送失败，请重试")) Action.error)
        (dispatch date_parse Action.submission_cleared c)
