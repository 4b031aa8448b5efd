-- ===== src/Tests/Threads.antt =====
-- Threads and sends on concrete states.
use ichat.Base.{◌≡◌, refl, true, false, none, some, List, [], ◌∷◌, ◌++◌, Text, codes, text_eq, trim}
use ichat.Api.Types.{MessageRole, RunStatus}
use ichat.App.Action
use ichat.App.Store.{initial_state, dispatch_all}
use ichat.Conversation.Loader.{Client, select_conversation, on_detail}
use ichat.Conversation.Send.{SendInput, SendMessageResponse, send_message, on_sent, is_refused}
use ichat.Conversation.Regenerate.{on_regenerated}
use ichat.Conversation.Thread.{agrees, Agrees}
use ichat.Conversation.ThreadKept.{Answers}
use ichat.Conversation.ThreadSteps.{ThreadReach-Agrees, opened, later, answered, select}
use ichat.Conversation.OneSend.{one_send_at_a_time}
use ichat.Conversation.LateAnswers.{regenerated_elsewhere, sent_elsewhere}
use ichat.Run.Options.{Preferences}
use ichat.Stream.Handler.{ConversationDetailResponse}
use ichat.Tests.Data.{unit_date, row_a, row_b, index, message}

abbrev first : Client
first = record { state = initial_state; saved_selection = none; loading_more = false }

abbrev detail : ConversationDetailResponse
detail = record {
  conversation = row_a;
  messages = message (codes "q") MessageRole.user none ∷ [];
  image_context = none;
}

detail-Answers : Answers (codes "a") detail
unfolding text_eq
detail-Answers = refl

abbrev selecting : Client
selecting =
    (select_conversation unit_date initial_state.conversation_index (codes "a") none first).0

abbrev selected : Client
selected = on_detail unit_date (codes "a") detail selecting

ThreadReach-Agrees_example : Agrees selected.state
ThreadReach-Agrees_example = ThreadReach-Agrees unit_date {c = selected} (
    later {c = selecting}
      (later {c = first} (opened none) (select initial_state.conversation_index (codes "a")))
      (answered (codes "a") detail detail-Answers))

abbrev preferences : Preferences
preferences = record {
  stored_level = none;
  stored_model = none;
  stored_web_search = none;
  available_models = [];
  capability_enabled = true;
}

abbrev input : Text → SendInput
input content = record {
  client_id = codes "x";
  content = content;
  attachment_ids = none;
  attachments = [];
  reply_quote = none;
}

abbrev sending : Client
sending = (send_message unit_date preferences (input (codes " hi ")) first).0

abbrev hidden : List Action.AppAction
hidden = Action.hide_toast ∷ []

abbrev meanwhile : Client
meanwhile = record sending { state = dispatch_all unit_date sending.state hidden }

one_send_at_a_time_example :
    send_message unit_date preferences (input (codes "again")) meanwhile ≡ (meanwhile, none)
unfolding send_message is_refused trim
one_send_at_a_time_example =
    one_send_at_a_time unit_date preferences preferences (input (codes " hi "))
      (input (codes "again")) first hidden refl refl

abbrev answer : SendMessageResponse
answer = record {
  message = message (codes "q") MessageRole.user (some (codes "r"));
  run = record { id = codes "r"; status = RunStatus.queued; provider_name = some (codes "x") };
  image_context = none;
}

-- The user is in another conversation than the one whose answer comes.
abbrev elsewhere : Client
elsewhere = record first {
  state = record initial_state {
    conversation_index = index;
    conversation_detail = record initial_state.conversation_detail { conversation = some row_b };
  };
}

regenerated_elsewhere_example :
    agrees (on_regenerated unit_date (codes "a") answer.run detail elsewhere).0.state ≡ false
regenerated_elsewhere_example =
    regenerated_elsewhere unit_date (codes "a") answer.run detail elsewhere (unfold text_eq in refl)
      detail-Answers

sent_elsewhere_example :
    let n = (on_sent unit_date (codes "a") answer elsewhere).0.state.conversation_detail in
    (n.conversation ≡ some row_b)
    × (n.messages ≡ elsewhere.state.conversation_detail.messages ++ answer.message ∷ [])
sent_elsewhere_example =
    sent_elsewhere unit_date (codes "a") answer elsewhere row_b refl (unfold text_eq in refl)
