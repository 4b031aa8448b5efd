-- ===== src/Conversation/Detail.antt =====
-- `conversationDetailReducer` of frontend/src/conversations/state.ts: the open conversation.
use ichat.Base.{
  ℕ, Bool, ◌&&◌, not, Option, none, some, List, [], ◌∷◌, ◌++◌, Text, find, or_else, text_eq,
  if◌then◌else◌,
}
use ichat.Api.Types.{ConversationResponse, ImageContext, MessageResponse, no_images}
use ichat.App.Action
use ichat.Conversation.Rows.{has_id, date_ge}

pub data DetailStatus : Type 0 where
  idle loading ready forbidden : DetailStatus

pub record ConversationDetailState : Type 0 where
  pub conversation : Option ConversationResponse
  pub messages : List MessageResponse
  pub image_context : ImageContext
  pub status : DetailStatus

abbrev pub no_image_context : ImageContext
no_image_context = record { state = no_images; legacy_message_id = none; recommended_model = none }

abbrev pub initial_conversation_detail_state : ConversationDetailState
initial_conversation_detail_state = record {
  conversation = none;
  messages = [];
  image_context = no_image_context;
  status = idle;
}

-- `a === b` on titles.
abbrev pub same_title : Option Text → Option Text → Bool
same_title none none = Bool.true
same_title (some a) (some b) = text_eq a b
same_title _ _ = Bool.false

-- `conversations/renamed` on the open conversation.
unfoldable pub rename_detail :
    Option ConversationResponse → ConversationResponse → Option ConversationResponse
rename_detail none conversation = none
rename_detail (some current) conversation =
    if text_eq current.id conversation.id then some conversation else some current

-- `conversations/markerChanged` on the open conversation.
unfoldable pub mark_detail :
    Option ConversationResponse → ConversationResponse → Option ConversationResponse
mark_detail none conversation = none
mark_detail (some current) conversation =
    if text_eq current.id conversation.id
    then some (record current {
      pinned_at = conversation.pinned_at;
      favorited_at = conversation.favorited_at;
    })
    else some current

module _ (date_parse : Text → Option ℕ) where
  -- `conversations/listLoaded` and `listSynced`: a newer title in the list reaches the open
  -- conversation.
  unfoldable pub sync_title :
      Option ConversationResponse → List ConversationResponse → Option ConversationResponse
  unfolding date_ge
  sync_title none rows = none
  sync_title (some current) rows = elim (find (has_id current.id) rows) [
    | none ↦ some current
    | some synced ↦
        if not (same_title synced.title current.title)
          && date_ge date_parse synced.updated_at current.updated_at
        then some (record current { title = synced.title })
        else some current
  ]

  unfoldable pub conversation_detail_reducer :
      ConversationDetailState → Action.AppAction → ConversationDetailState
  unfolding rename_detail mark_detail sync_title
  conversation_detail_reducer s Action.detail_loading = record s { status = loading }
  conversation_detail_reducer s (Action.detail_loaded conversation messages image_context) =
      record {
        conversation = some conversation;
        messages = messages;
        image_context = or_else image_context no_image_context;
        status = ready;
      }
  conversation_detail_reducer s (Action.message_appended message image_context) = record s {
    messages = s.messages ++ message ∷ [];
    image_context = or_else image_context s.image_context;
  }
  conversation_detail_reducer s Action.detail_forbidden = record {
    conversation = none;
    messages = [];
    image_context = no_image_context;
    status = forbidden;
  }
  conversation_detail_reducer s Action.detail_reset = initial_conversation_detail_state
  conversation_detail_reducer s (Action.renamed conversation) = record s {
    conversation = rename_detail s.conversation conversation;
  }
  conversation_detail_reducer s (Action.marker_changed conversation) = record s {
    conversation = mark_detail s.conversation conversation;
  }
  conversation_detail_reducer s (Action.list_loaded items pinned has_more) = record s {
    conversation = sync_title s.conversation (items ++ or_else pinned []);
  }
  conversation_detail_reducer s (Action.list_synced items pinned) = record s {
    conversation = sync_title s.conversation (items ++ or_else pinned []);
  }
  conversation_detail_reducer s Action.app_reset = initial_conversation_detail_state
  conversation_detail_reducer s _ = s
