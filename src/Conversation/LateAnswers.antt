-- ===== src/Conversation/LateAnswers.antt =====
-- Answers that arrive after the user has moved on to another conversation
-- (frontend/src/conversations/useSendMessage.ts, useRegenerate.ts).
use ichat.Base.{
  ℕ, ◌≡◌, refl, ap, ◌∙◌, false, Option, none, some, [], ◌∷◌, ◌++◌, Text, option_is, text_eq,
}
use ichat.Api.Types.{ConversationResponse}
use ichat.App.Action
use ichat.App.Store.{root_reducer}
use ichat.Conversation.Detail.{ConversationDetailState, conversation_detail_reducer}
use ichat.Conversation.Index.{conversation_index_reducer}
use ichat.Conversation.Loader.{Client, dispatch}
use ichat.Conversation.Send.{RunResponse, SendMessageResponse, target_row, list_run, on_sent}
use ichat.Conversation.Regenerate.{on_regenerated}
use ichat.Conversation.Thread.{agrees, disagrees-detail_loaded}
use ichat.Conversation.ThreadKept.{Answers}
use ichat.Stream.Handler.{ConversationDetailResponse}

module _ (date_parse : Text → Option ℕ) where
  -- The answer to a regeneration that arrives after another conversation was selected puts its own
  -- thread under the selected one: what is on display is not the selected conversation.
  pub regenerated_elsewhere :
      (conversation_id : Text) (run : RunResponse) (detail : ConversationDetailResponse)
      (c : Client)
      → option_is c.state.conversation_index.selected_id conversation_id ≡ false
      → Answers conversation_id detail
      → agrees (on_regenerated date_parse conversation_id run detail c).0.state ≡ false
  unfolding on_regenerated root_reducer conversation_detail_reducer conversation_index_reducer
  regenerated_elsewhere conversation_id run detail c h e =
      unfold root_reducer in
      (disagrees-detail_loaded date_parse c.state conversation_id detail.conversation
        detail.messages detail.image_context h e)

  list_run-detail :
      (row : Option ConversationResponse) (answer : SendMessageResponse) (c : Client)
      → (list_run date_parse row answer c).state.conversation_detail ≡ c.state.conversation_detail
  unfolding list_run root_reducer conversation_detail_reducer
  list_run-detail none answer c = refl
  list_run-detail (some row) answer c = refl

  -- The answer to a message of one conversation that arrives while the thread of another is on display
  -- appends the message to that thread.
  pub sent_elsewhere :
      (target_id : Text) (answer : SendMessageResponse) (c : Client) (shown : ConversationResponse)
      → c.state.conversation_detail.conversation ≡ some shown
      → text_eq shown.id target_id ≡ false
      → let n = (on_sent date_parse target_id answer c).0.state.conversation_detail in
        (n.conversation ≡ some shown)
        × (n.messages ≡ c.state.conversation_detail.messages ++ answer.message ∷ [])
  unfolding on_sent root_reducer conversation_detail_reducer
  sent_elsewhere target_id answer c shown h e =
      let appended =
        dispatch date_parse (Action.message_appended answer.message answer.image_context) c in
      let same = list_run-detail (target_row date_parse target_id appended.state) answer appended in
      (
        ap (λ (d : ConversationDetailState). d.conversation) same ∙ h,
        ap (λ (d : ConversationDetailState). d.messages) same,
      )
