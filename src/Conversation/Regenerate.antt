-- ===== src/Conversation/Regenerate.antt =====
-- `useRegenerate` (frontend/src/conversations/useRegenerate.ts): the code between two awaits.
use ichat.Base.{
  ℕ, Bool, not, ◌&&◌, ◌||◌, Option, none, some, List, [], Text, codes, any, find, is_empty, is_some,
  or_else, text_eq, trim, if◌then◌else◌,
}
use ichat.Api.Types.{FileAttachment, MessageResponse}
use ichat.Api.Errors.{Thrown}
use ichat.App.Action
use ichat.App.Store.{AppState}
use ichat.Conversation.Loader.{Client, dispatch}
use ichat.Conversation.Send.{RunResponse, SendRequest, error_code, model_message}
use ichat.Run.Options.{Preferences, current_run_options}
use ichat.Run.Pending.{is_user}
use ichat.Stream.Handler.{ConversationDetailResponse}
use ichat.Stream.Recovery.{Next, stream}

-- `hasInheritedInput`.
unfoldable pub has_inherited_input : Option MessageResponse → Option (List Text) → Bool
has_inherited_input none attachment_ids = Bool.false
has_inherited_input (some target) attachment_ids =
    is_some target.reply_quote
    || not (is_some attachment_ids)
      && any (λ (f : FileAttachment). is_some f.model_input_kind) (or_else target.attachments [])

-- `editAndRegenerate` up to its request; the request names the message besides.
unfoldable pub edit_and_regenerate :
    Preferences → Text → Text → Option (List Text) → AppState → Option SendRequest
unfolding has_inherited_input current_run_options
edit_and_regenerate preferences message_id content attachment_ids s =
    let trimmed = trim content in
    let target =
      find (λ (m : MessageResponse). text_eq m.id message_id && is_user m.role)
        s.conversation_detail.messages in
    if not (is_some s.conversation_index.selected_id)
      || is_empty trimmed
        && not (has_inherited_input target attachment_ids)
        && is_empty (or_else attachment_ids [])
    then none
    else some (record {
      target_id = s.conversation_index.selected_id;
      content = trimmed;
      run_options = current_run_options none preferences;
      attachment_ids = attachment_ids;
      reply_quote = none;
    })

-- `regenerate` up to its request: the conversation that it is for.
unfoldable pub regenerate : AppState → Option Text
regenerate s = s.conversation_index.selected_id

module _ (date_parse : Text → Option ℕ) where
  -- `run` once the run is queued and the detail is there.
  unfoldable pub on_regenerated :
      Text → RunResponse → ConversationDetailResponse → Client → Client × Next
  on_regenerated conversation_id started detail c = (
    dispatch date_parse (Action.run_started started.id conversation_id started.provider_name) (
        dispatch date_parse
          (Action.detail_loaded detail.conversation detail.messages detail.image_context) c),
    stream started.id conversation_id 0,
  )

  -- The `catch` of `run`.
  unfoldable pub on_regenerate_error : Thrown → Client → Client
  unfolding model_message
  on_regenerate_error error c =
      dispatch date_parse
        (Action.show_toast (or_else (model_message (error_code error)) (codes "操作失败，请重试"))
          Action.error)
        c
