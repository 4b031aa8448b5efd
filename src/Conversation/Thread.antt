-- ===== src/Conversation/Thread.antt =====
-- The thread on display and the selected conversation: which actions keep them together, and which can
-- part them (frontend/src/conversations/state.ts).
use ichat.Base.{
  ℕ, ◌≡◌, refl, ap, ◌∙◌, Bool, true, false, Option, none, some, List, [], ◌++◌, or_else, Text,
  option_is, text_eq, text_eq_sound, if◌then◌else◌, arith, Bool-cases, inl, inr,
}
use ichat.Api.Types.{ConversationResponse, ImageContext, MessageResponse}
use ichat.App.Action
use ichat.App.Store.{AppState, root_reducer}
use ichat.App.Toasts.{is_reset}
use ichat.Conversation.Index.{
  ConversationIndexState, conversation_index_reducer, on_run_started, apply_markers,
}
use ichat.Conversation.Detail.{
  ConversationDetailState, DetailStatus, rename_detail, mark_detail, sync_title,
  conversation_detail_reducer,
}

abbrev pub is_ready : DetailStatus → Bool
is_ready DetailStatus.ready = true
is_ready _ = false

-- No conversation is held, or the selected one.
abbrev pub in_thread : Option Text → Option ConversationResponse → Bool
in_thread selected none = true
in_thread selected (some c) = option_is selected c.id

-- A thread that is ready is that of the selected conversation.
abbrev pub agrees : AppState → Bool
agrees s =
    if is_ready s.conversation_detail.status
    then in_thread s.conversation_index.selected_id s.conversation_detail.conversation
    else true

pub record Agrees (s : AppState) : Type 0 where
  pub aligned : agrees s ≡ true

-- The actions that choose the conversation or its thread.
abbrev pub is_view_action : Action.AppAction → Bool
is_view_action (Action.selected id) = true
is_view_action (Action.detail_loaded c m i) = true
is_view_action _ = false

in_thread-rename_detail :
    (selected : Option Text) (o : Option ConversationResponse) (c : ConversationResponse)
    → in_thread selected (rename_detail o c) ≡ in_thread selected o
unfolding rename_detail
in_thread-rename_detail selected none c = refl
in_thread-rename_detail selected (some d) c =
    ground
      (arith, λ (h : text_eq d.id c.id ≡ true). ap (option_is selected) (text_eq_sound d.id c.id h))

in_thread-mark_detail :
    (selected : Option Text) (o : Option ConversationResponse) (c : ConversationResponse)
    → in_thread selected (mark_detail o c) ≡ in_thread selected o
unfolding mark_detail
in_thread-mark_detail selected none c = refl
in_thread-mark_detail selected (some d) c = ground arith

module _ (date_parse : Text → Option ℕ) where
  in_thread-sync_title :
      (selected : Option Text) (o : Option ConversationResponse) (rows : List ConversationResponse)
      → in_thread selected (sync_title date_parse o rows) ≡ in_thread selected o
  unfolding sync_title
  in_thread-sync_title selected none rows = refl
  in_thread-sync_title selected (some d) rows = ground arith

  selected_id-other :
      (s : ConversationIndexState) (a : Action.AppAction)
      → is_view_action a ≡ false
      → is_reset a ≡ false
      → (conversation_index_reducer date_parse s a).selected_id ≡ s.selected_id
  unfolding conversation_index_reducer on_run_started apply_markers
  selected_id-other s (Action.marker_changed c) h k = ground arith
  selected_id-other s (Action.run_in_list_started c r t) h k = ground arith
  selected_id-other s a h k = ground arith

  -- A thread, as far as the agreement sees it.
  abbrev agrees_of : Option Text → ConversationDetailState → Bool
  agrees_of selected d = if is_ready d.status then in_thread selected d.conversation else true

  agrees_of-other :
      (selected : Option Text) (d : ConversationDetailState) (a : Action.AppAction)
      → is_view_action a ≡ false
      → agrees_of selected d ≡ true
      → agrees_of selected (conversation_detail_reducer date_parse d a) ≡ true
  unfolding conversation_detail_reducer
  agrees_of-other selected d (Action.renamed c) h k =
      ground (arith, in_thread-rename_detail selected d.conversation c)
  agrees_of-other selected d (Action.marker_changed c) h k =
      ground (arith, in_thread-mark_detail selected d.conversation c)
  agrees_of-other selected d (Action.list_loaded items pinned more) h k =
      ground (arith, in_thread-sync_title selected d.conversation (items ++ or_else pinned []))
  agrees_of-other selected d (Action.list_synced items pinned) h k =
      ground (arith, in_thread-sync_title selected d.conversation (items ++ or_else pinned []))
  agrees_of-other selected d a h k = ground arith

  agrees-reset :
      (s : AppState) (a : Action.AppAction)
      → is_reset a ≡ true
      → agrees (root_reducer date_parse s a) ≡ true
  unfolding root_reducer conversation_detail_reducer
  agrees-reset s Action.app_reset h = refl
  agrees-reset s a h = cc

  agrees-other :
      (s : AppState) (a : Action.AppAction)
      → is_view_action a ≡ false
      → agrees s ≡ true
      → agrees (root_reducer date_parse s a) ≡ true
  unfolding root_reducer
  agrees-other s a h k = elim (Bool-cases (is_reset a)) [
    | inl e ↦ agrees-reset s a e
    | inr e ↦
        rw (selected_id-other s.conversation_index a h e)
          (agrees_of-other s.conversation_index.selected_id s.conversation_detail a h k)
  ]

  -- Whatever else is dispatched, a thread that is ready stays that of the selected conversation.
  pub Agrees-other :
      (s : AppState) (a : Action.AppAction)
      → is_view_action a ≡ false
      → Agrees s
      → Agrees (root_reducer date_parse s a)
  Agrees-other s a h k = record { aligned = agrees-other s a h k.aligned }

  -- A thread of the selected conversation.
  pub Agrees-detail_loaded :
      (s : AppState) (id : Text) (c : ConversationResponse) (m : List MessageResponse)
      (i : Option ImageContext)
      → option_is s.conversation_index.selected_id id ≡ true
      → text_eq c.id id ≡ true
      → Agrees (root_reducer date_parse s (Action.detail_loaded c m i))
  unfolding root_reducer conversation_detail_reducer conversation_index_reducer
  Agrees-detail_loaded s id c m i h e = record {
    aligned = ap (option_is s.conversation_index.selected_id) (text_eq_sound c.id id e) ∙ h;
  }

  -- A thread of another conversation than the selected one.
  pub disagrees-detail_loaded :
      (s : AppState) (id : Text) (c : ConversationResponse) (m : List MessageResponse)
      (i : Option ImageContext)
      → option_is s.conversation_index.selected_id id ≡ false
      → text_eq c.id id ≡ true
      → agrees (root_reducer date_parse s (Action.detail_loaded c m i)) ≡ false
  unfolding root_reducer conversation_detail_reducer conversation_index_reducer
  disagrees-detail_loaded s id c m i h e =
      ap (option_is s.conversation_index.selected_id) (text_eq_sound c.id id e) ∙ h
