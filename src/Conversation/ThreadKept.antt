-- ===== src/Conversation/ThreadKept.antt =====
-- The selected conversation and the thread on display, in each piece of code that chooses them
-- (frontend/src/conversations/useConversationLoader.ts, useSendMessage.ts, useRegenerate.ts,
-- frontend/src/runs/useRunStream.ts, useRunRecovery.ts).
use ichat.Base.{
  ℕ, ◌≡◌, refl, Bool, true, false, ◌&&◌, ◌++◌, Option, none, some, List, [], ◌∷◌, Text, option_is,
  text_eq, text_eq_refl, if◌then◌else◌, arith, Bool-cases, inl, inr,
}
use ichat.Api.Types.{ConversationResponse, ImageContext, MessageResponse}
use ichat.Api.Errors.{Thrown}
use ichat.App.Action
use ichat.App.Store.{AppState, root_reducer}
use ichat.Conversation.Detail.{conversation_detail_reducer}
use ichat.Conversation.Index.{ConversationIndexState, conversation_index_reducer}
use ichat.Conversation.Loader.{
  Client, SelectNext, settled, fetch, dispatch, begin_select, on_detail, on_detail_error,
  new_conversation, select_conversation, on_first, on_deleted,
}
use ichat.Conversation.Regenerate.{on_regenerated}
use ichat.Conversation.Rows.{drop_row}
use ichat.Conversation.Send.{RunResponse, SendMessageResponse, list_run, on_created, on_sent}
use ichat.Conversation.Thread.{is_view_action, Agrees, Agrees-other, Agrees-detail_loaded}
use ichat.Stream.Handler.{ConversationDetailResponse, dispatch_if, dispatch_active, on_fetched}
use ichat.Stream.Recovery.{on_refetched}

-- The service answers with the conversation that was asked for.
abbrev pub Answers : Text → ConversationDetailResponse → Type 0
Answers id detail = text_eq detail.conversation.id id ≡ true

module _ (date_parse : Text → Option ℕ) where
  begin_select-Agrees : (id : Text) (c : Client) → Agrees (begin_select date_parse id c).state
  unfolding begin_select root_reducer conversation_detail_reducer
  begin_select-Agrees id c = record { aligned = refl }

  pub on_detail-Agrees :
      (id : Text) (detail : ConversationDetailResponse) (c : Client)
      → Answers id detail
      → Agrees c.state
      → Agrees (on_detail date_parse id detail c).state
  unfolding on_detail
  on_detail-Agrees id detail c e h =
      elim (Bool-cases (option_is c.state.conversation_index.selected_id id)) [
        | inl k ↦
            rw (k, on_detail)
              (Agrees-detail_loaded date_parse c.state id detail.conversation detail.messages
                detail.image_context k e)
        | inr k ↦ rw (k, on_detail) h
      ]

  pub on_detail_error-Agrees :
      (id : Text) (error : Thrown) (c : Client)
      → Agrees c.state
      → Agrees (on_detail_error date_parse id error c).state
  unfolding on_detail_error root_reducer conversation_detail_reducer
  on_detail_error-Agrees id error c h = ground arith

  if-Agrees :
      (b : Bool) (x y : Client × SelectNext)
      → Agrees x.0.state
      → Agrees y.0.state
      → Agrees (if b then x else y).0.state
  if-Agrees true x y h k = h
  if-Agrees false x y h k = k

  -- What is prepared belongs to the conversation that is chosen.
  abbrev Prepared : Text → Option ConversationDetailResponse → Type 0
  Prepared id none = Unit {0}
  Prepared id (some detail) = Answers id detail

  pub select_conversation-Agrees :
      (rendered : ConversationIndexState) (id : Text) (prepared : Option ConversationDetailResponse)
      (c : Client)
      → Prepared id prepared
      → Agrees c.state
      → Agrees (select_conversation date_parse rendered id prepared c).0.state
  unfolding select_conversation
  select_conversation-Agrees rendered id none c e h =
      if-Agrees (option_is rendered.selected_id id && true)
        (dispatch date_parse (Action.set_mobile_sidebar false) c, settled)
        (begin_select date_parse id c, fetch id)
        (Agrees-other date_parse c.state (Action.set_mobile_sidebar false) refl h)
        (begin_select-Agrees id c)
  select_conversation-Agrees rendered id (some detail) c e h =
      if-Agrees (option_is rendered.selected_id id && false)
        (dispatch date_parse (Action.set_mobile_sidebar false) c, settled)
        (on_detail date_parse id detail (begin_select date_parse id c), settled)
        (Agrees-other date_parse c.state (Action.set_mobile_sidebar false) refl h)
        (on_detail-Agrees id detail (begin_select date_parse id c) e (begin_select-Agrees id c))

  pub new_conversation-Agrees : (c : Client) → Agrees (new_conversation date_parse c).state
  unfolding new_conversation root_reducer conversation_detail_reducer
  new_conversation-Agrees c = record { aligned = refl }

  on_first-Agrees :
      (rendered : ConversationIndexState) (rows : List ConversationResponse) (c : Client)
      → Agrees c.state
      → Agrees (on_first date_parse rendered rows c).0.state
  unfolding on_first
  on_first-Agrees rendered [] c h = new_conversation-Agrees c
  on_first-Agrees rendered (next ∷ rest) c h =
      select_conversation-Agrees rendered next.id none c tt h

  pub on_deleted-Agrees :
      (rendered : ConversationIndexState) (id : Text) (c : Client)
      → Agrees c.state
      → Agrees (on_deleted date_parse rendered id c).0.state
  unfolding on_deleted
  on_deleted-Agrees rendered id c h =
      let rows = drop_row id (rendered.pinned_items ++ rendered.items) in
      let left =
        dispatch date_parse Action.close_confirm (dispatch date_parse (Action.removed id) c) in
      let removed =
        Agrees-other date_parse (root_reducer date_parse c.state (Action.removed id))
          Action.close_confirm refl (Agrees-other date_parse c.state (Action.removed id) refl h) in
      if-Agrees (option_is rendered.selected_id id) (on_first date_parse rendered rows left)
        (left, settled) (on_first-Agrees rendered rows left removed) removed

  -- A thread that is loaded and selected at once.
  loaded_and_selected :
      (s : AppState) (convo : ConversationResponse) (m : List MessageResponse)
      (i : Option ImageContext)
      → Agrees (
          root_reducer date_parse
            (root_reducer date_parse s (Action.detail_loaded convo m i))
            (Action.selected (some convo.id)))
  unfolding root_reducer conversation_detail_reducer conversation_index_reducer
  loaded_and_selected s convo m i = record { aligned = text_eq_refl convo.id }

  pub on_created-Agrees :
      (convo : ConversationResponse) (answer : SendMessageResponse) (c : Client)
      → Agrees (on_created date_parse convo answer c).0.state
  unfolding on_created
  on_created-Agrees convo answer c = Agrees-other date_parse _ Action.submission_cleared refl (
      Agrees-other date_parse _ (Action.run_started _ _ _) refl (
        Agrees-other date_parse _ (Action.run_in_list_started _ _ _) refl (
          Agrees-other date_parse _ (Action.draft_created _) refl
            (loaded_and_selected _ convo _ _))))

  list_run-Agrees :
      (row : Option ConversationResponse) (answer : SendMessageResponse) (c : Client)
      → Agrees c.state
      → Agrees (list_run date_parse row answer c).state
  unfolding list_run
  list_run-Agrees none answer c h = h
  list_run-Agrees (some row) answer c h =
      Agrees-other date_parse c.state (Action.run_in_list_started _ _ _) refl h

  pub on_sent-Agrees :
      (target_id : Text) (answer : SendMessageResponse) (c : Client)
      → Agrees c.state
      → Agrees (on_sent date_parse target_id answer c).0.state
  unfolding on_sent
  on_sent-Agrees target_id answer c h = Agrees-other date_parse _ Action.submission_cleared refl (
      Agrees-other date_parse _ (Action.run_started _ _ _) refl (
        list_run-Agrees _ answer _
          (Agrees-other date_parse c.state (Action.message_appended _ _) refl h)))

  pub on_regenerated-Agrees :
      (id : Text) (started : RunResponse) (detail : ConversationDetailResponse) (c : Client)
      → Answers id detail
      → option_is c.state.conversation_index.selected_id id ≡ true
      → Agrees (on_regenerated date_parse id started detail c).0.state
  unfolding on_regenerated
  on_regenerated-Agrees id started detail c e k =
      Agrees-other date_parse _ (Action.run_started _ _ _) refl (
        Agrees-detail_loaded date_parse c.state id detail.conversation detail.messages
          detail.image_context k e)

  dispatch_if-Agrees :
      (guard : Bool) (a : Action.AppAction) (s : AppState)
      → is_view_action a ≡ false
      → Agrees s
      → Agrees (dispatch_if date_parse guard a s)
  unfolding dispatch_if
  dispatch_if-Agrees true a s h k = Agrees-other date_parse s a h k
  dispatch_if-Agrees false a s h k = k

  load_selected-Agrees :
      (s : AppState) (id : Text) (detail : ConversationDetailResponse)
      → Answers id detail
      → Agrees s
      → Agrees (
          dispatch_if date_parse
            (option_is s.conversation_index.selected_id id)
            (Action.detail_loaded detail.conversation detail.messages detail.image_context)
            s)
  unfolding dispatch_if
  load_selected-Agrees s id detail e h =
      elim (Bool-cases (option_is s.conversation_index.selected_id id)) [
        | inl k ↦
            rw (k, dispatch_if)
              (Agrees-detail_loaded date_parse s id detail.conversation detail.messages
                detail.image_context k e)
        | inr k ↦ rw (k, dispatch_if) h
      ]

  pub on_fetched-Agrees :
      (run_id id : Text) (detail : ConversationDetailResponse) (list : List ConversationResponse)
      (s : AppState)
      → Answers id detail
      → Agrees s
      → Agrees (on_fetched date_parse run_id id detail list s)
  unfolding on_fetched dispatch_active
  on_fetched-Agrees run_id id detail list s e h =
      dispatch_if-Agrees _ (Action.title_pending id) _ refl (
        dispatch_if-Agrees _ Action.run_cleared _ refl (
          load_selected-Agrees _ id detail e (
            Agrees-other date_parse _ Action.draft_activated refl
              (Agrees-other date_parse s (Action.list_synced list none) refl h))))

  pub on_refetched-Agrees :
      (id : Text) (detail : ConversationDetailResponse) (list : List ConversationResponse)
      (s : AppState)
      → Answers id detail
      → Agrees s
      → Agrees (on_refetched date_parse id detail list s)
  unfolding on_refetched
  on_refetched-Agrees id detail list s e h = load_selected-Agrees _ id detail e (
      Agrees-other date_parse _ Action.draft_activated refl
        (Agrees-other date_parse s (Action.list_loaded list none _) refl h))
