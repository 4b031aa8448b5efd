-- ===== src/Conversation/Loader.antt =====
-- `useConversationLoader` and `selectionStore` (frontend/src/conversations/useConversationLoader.ts,
-- selectionStore.ts). Each function is the code between two awaits. `rendered` is the slice of the
-- last render, which a callback closes over; the store itself is the state of the client.
use ichat.Base.{
  ℕ, Bool, true, false, not, ◌&&◌, ◌||◌, Option, none, some, List, [], ◌∷◌, ◌++◌, Text, codes, find,
  length, option_is, is_empty, is_some, trim, ◌==◌, if◌then◌else◌,
}
use ichat.Api.Types.{ConversationResponse}
use ichat.Api.Errors.{Thrown, api, abort, other}
use ichat.App.Action
use ichat.App.Store.{AppState, root_reducer}
use ichat.Conversation.Rows.{has_id, drop_row}
use ichat.Conversation.Index.{ConversationIndexState, ListStatus}
use ichat.Conversation.Pagination.{has_more_conversation_pages}
use ichat.Stream.Handler.{ConversationDetailResponse}

-- The store, the item that `selectionStore` keeps in `localStorage`, and `loadingMoreRef`.
pub record Client : Type 0 where
  pub state : AppState
  pub saved_selection : Option Text
  pub loading_more : Bool

-- `selectionStore.read`.
unfoldable pub read_selection : Client → Option Text
read_selection c = elim c.saved_selection [
  | none ↦ none
  | some raw ↦ if is_empty raw then none else some raw
]

-- `selectionStore.save` and `clear`.
abbrev pub save_selection : Text → Client → Client
save_selection id c = record c { saved_selection = some id }

abbrev pub clear_selection : Client → Client
clear_selection c = record c { saved_selection = none }

-- `INVALID_SELECTION_STATUSES.has(error.status)` of an `ApiError`.
abbrev pub is_invalid_selection : Thrown → Bool
is_invalid_selection (api e) = e.status == 403 || e.status == 404 || e.status == 422
is_invalid_selection abort = false
is_invalid_selection other = false

-- What a selection still waits for.
pub data SelectNext : Type 0 where
  settled : SelectNext
  fetch : Text → SelectNext

abbrev pub is_busy : ListStatus → Bool
is_busy ListStatus.loading = true
is_busy ListStatus.loading_more = true
is_busy _ = false

abbrev pub same_title_text : Option Text → Text → Bool
same_title_text title trimmed = option_is title trimmed

module _ (date_parse : Text → Option ℕ) where
  abbrev pub dispatch : Action.AppAction → Client → Client
  dispatch a c = record c { state = root_reducer date_parse c.state a }

  -- `loadList`, its answer and its failure.
  unfoldable pub load_list : Client → Client
  load_list c = dispatch Action.list_loading c

  unfoldable pub on_list : List ConversationResponse → List ConversationResponse → Client → Client
  unfolding has_more_conversation_pages
  on_list items pinned c =
      dispatch
        (Action.list_loaded items (some pinned) (some (has_more_conversation_pages (length items))))
        c

  unfoldable pub on_list_error : Client → Client
  on_list_error c = dispatch Action.list_error c

  -- `loadMore` up to its `await`: the `skip` of the request, if there is one.
  unfoldable pub load_more : ConversationIndexState → Client → Client × Option ℕ
  load_more rendered c =
      if c.loading_more || not rendered.has_more || is_busy rendered.status then (c, none) else (
        dispatch Action.list_loading_more (record c { loading_more = true }),
        some (length rendered.items),
      )

  unfoldable pub on_page : List ConversationResponse → Client → Client
  unfolding has_more_conversation_pages
  on_page items c =
      record (dispatch (Action.list_page_loaded items (has_more_conversation_pages (length items)))
        c) { loading_more = false }

  unfoldable pub on_page_error : Client → Client
  on_page_error c = record (dispatch Action.list_error c) { loading_more = false }

  -- `newConversation`.
  unfoldable pub new_conversation : Client → Client
  new_conversation c = clear_selection (
      dispatch (Action.set_mobile_sidebar false) (
        dispatch Action.detail_reset
          (dispatch (Action.selected none) (dispatch Action.run_cleared c))))

  -- `selectConversation` from the second test to the request.
  unfoldable pub begin_select : Text → Client → Client
  begin_select id c =
      let cleared =
        if option_is c.state.conversation_index.selected_id id
        then c
        else dispatch Action.run_cleared c in
      dispatch (Action.set_mobile_sidebar false)
        (dispatch Action.detail_loading (dispatch (Action.selected (some id)) cleared))

  -- Its answer.
  unfoldable pub on_detail : Text → ConversationDetailResponse → Client → Client
  on_detail id detail c =
      if not (option_is c.state.conversation_index.selected_id id)
      then c
      else save_selection id (
          dispatch (Action.detail_loaded detail.conversation detail.messages detail.image_context)
            c)

  -- Its `catch`.
  unfoldable pub on_detail_error : Text → Thrown → Client → Client
  on_detail_error id error c =
      if not (option_is c.state.conversation_index.selected_id id)
      then c
      else let forbidden = dispatch Action.detail_forbidden c in
        if is_invalid_selection error
        then clear_selection (
            dispatch (Action.show_toast (codes "会话 ID 无效或已失效，已回到新对话") Action.warning)
              (dispatch (Action.selected none) forbidden))
        else forbidden

  -- `selectConversation` up to its `await`, or to its end where a detail was prepared.
  unfoldable pub select_conversation :
      ConversationIndexState
      → Text
      → Option ConversationDetailResponse
      → Client
      → Client × SelectNext
  unfolding begin_select on_detail
  select_conversation rendered id prepared c =
      if option_is rendered.selected_id id && not (is_some prepared)
      then (dispatch (Action.set_mobile_sidebar false) c, settled)
      else elim prepared [
        | none ↦ (begin_select id c, fetch id)
        | some detail ↦ (on_detail id detail (begin_select id c), settled)
      ]

  -- `renameConversation` up to its `await`: the title of the request, if there is one.
  unfoldable pub rename_request : ConversationIndexState → Text → Text → Option Text
  rename_request rendered id title =
      let trimmed = trim title in
      if is_empty trimmed
      then none
      else elim (find (has_id id) (rendered.items ++ rendered.pinned_items)) [
        | none ↦ some trimmed
        | some current ↦ if same_title_text current.title trimmed then none else some trimmed
      ]

  unfoldable pub on_renamed : ConversationResponse → Client → Client
  on_renamed conversation c = dispatch (Action.renamed conversation) c

  -- The row that is selected after a deletion.
  unfoldable pub on_first :
      ConversationIndexState → List ConversationResponse → Client → Client × SelectNext
  unfolding select_conversation new_conversation
  on_first rendered [] c = (new_conversation c, settled)
  on_first rendered (next ∷ rest) c = select_conversation rendered next.id none c

  -- `deleteConversation` after its request.
  unfoldable pub on_deleted : ConversationIndexState → Text → Client → Client × SelectNext
  unfolding on_first
  on_deleted rendered id c =
      let remaining = drop_row id (rendered.pinned_items ++ rendered.items) in
      let removed = dispatch Action.close_confirm (dispatch (Action.removed id) c) in
      if option_is rendered.selected_id id
      then on_first rendered remaining removed
      else (removed, settled)
