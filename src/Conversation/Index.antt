-- ===== src/Conversation/Index.antt =====
-- `conversationIndexReducer` of frontend/src/conversations/state.ts, with its helpers
-- `withPinned`, `applyMarkers` and `reconcileList`.
pub mod Valid
pub mod Placing
pub mod Invariant
pub mod Unread
pub mod Order
pub mod Rows
use ichat.Base.{
  ℕ, Bool, true, false, not, ◌&&◌, ◌||◌, Option, none, some, List, [], ◌∷◌, ◌++◌, Text, map, any,
  filter, find, find_last, insert_before, includes, option_is, text_eq, is_empty, is_some, or_else,
  or_option, has_text, if◌then◌else◌,
}
use ichat.Api.Types.{ConversationActiveRun, ConversationResponse}
use ichat.App.Action
use ichat.Conversation.Rows.{
  ids, has_id, drop_id, drop_row, mark_unread, without, date_lt, newer_row, merge_first_page,
}

pub data ListStatus : Type 0 where
  idle loading loading_more error : ListStatus

pub record ConversationIndexState : Type 0 where
  pub items : List ConversationResponse
  pub pinned_items : List ConversationResponse
  pub selected_id : Option Text
  pub draft_id : Option Text
  pub pending_title_ids : List Text
  pub unread_ids : List Text
  pub status : ListStatus
  pub has_more : Bool

abbrev pub initial_conversation_index_state : ConversationIndexState
initial_conversation_index_state = record {
  items = [];
  pinned_items = [];
  selected_id = none;
  draft_id = none;
  pending_title_ids = [];
  unread_ids = [];
  status = loading;
  has_more = true;
}

-- `withPinned`.
unfoldable pub with_pinned :
    ConversationIndexState → Option (List ConversationResponse) → ConversationIndexState
unfolding without
with_pinned s pinned =
    let pinned_items = or_else pinned s.pinned_items in
    record s { pinned_items = pinned_items; items = without (ids pinned_items) s.items }

-- `text` is a string with characters.
abbrev pub is_set : Option Text → Bool
is_set none = false
is_set (some t) = not (is_empty t)

-- The condition of the loop of `reconcileList`: the row had a run before and has none now.
unfoldable pub run_ended : List ConversationResponse → ConversationResponse → Bool
run_ended prev item = elim (find_last (has_id item.id) prev) [
  | none ↦ false
  | some before ↦ is_some before.active_run && not (is_some item.active_run)
]

-- The loop of `reconcileList`.
unfoldable pub mark_ended :
    List ConversationResponse → Option Text → List Text → List ConversationResponse → List Text
unfolding run_ended mark_unread
mark_ended prev selected_id unread_ids [] = unread_ids
mark_ended prev selected_id unread_ids (item ∷ rest) =
    mark_ended prev selected_id
      (if run_ended prev item then mark_unread unread_ids item.id selected_id else unread_ids) rest

-- The ids of the rows that have a title.
unfoldable pub titled_ids : List ConversationResponse → List Text
titled_ids cs = ids (filter (λ c. has_text c.title) cs)

-- `reconcileList`. The two arrays that its last test chooses between hold the same ids.
unfoldable pub reconcile_list :
    ConversationIndexState → ConversationIndexState → ConversationIndexState
unfolding mark_ended titled_ids
reconcile_list prev next =
    let next_items = next.items ++ next.pinned_items in
    record next {
      unread_ids =
          mark_ended (prev.items ++ prev.pinned_items) next.selected_id next.unread_ids next_items;
      pending_title_ids =
          filter (λ id. not (includes (titled_ids next_items) id)) next.pending_title_ids;
    }

-- `run` put on a row.
abbrev pub started_row : ConversationResponse → ConversationActiveRun → Text → ConversationResponse
started_row c run updated_at = record c { active_run = some run; updated_at = updated_at }

-- `conversations/runStarted`.
unfoldable pub on_run_started :
    ConversationIndexState
    → ConversationResponse
    → ConversationActiveRun
    → Text
    → ConversationIndexState
on_run_started s conversation run updated_at = elim (find (has_id conversation.id) s.pinned_items) [
  | some pinned ↦
      let started = started_row pinned run updated_at in
      record s {
        pinned_items = map (λ c. if text_eq c.id started.id then started else c) s.pinned_items;
      }
  | none ↦
      let existing = find (has_id conversation.id) s.items in
      let started = started_row (or_else existing conversation) run updated_at in
      let needs_title =
        not (has_text started.title) && not (includes s.pending_title_ids started.id) in
      record s {
        items = started ∷ filter (λ c. not (text_eq c.id started.id)) s.items;
        pending_title_ids =
            if needs_title then s.pending_title_ids ++ started.id ∷ [] else s.pending_title_ids;
      }
]

-- The local function `finish` of `conversations/runFinished`.
unfoldable pub finish_row : Text → ConversationResponse → ConversationResponse
finish_row id c =
    if text_eq c.id id && is_some c.active_run then record c { active_run = none } else c

-- The local function `rename` of `conversations/renamed`.
unfoldable pub rename_row : ConversationResponse → ConversationResponse → ConversationResponse
rename_row conversation c =
    if text_eq c.id conversation.id then record conversation { active_run = c.active_run } else c

module _ (date_parse : Text → Option ℕ) where
  -- The row that `applyMarkers` places: the local one with the markers of the incoming one.
  unfoldable pub marked_row : ConversationIndexState → ConversationResponse → ConversationResponse
  marked_row s incoming =
      let local =
        or_option (find (has_id incoming.id) s.pinned_items) (find (has_id incoming.id) s.items) in
      record (or_else local incoming) {
        pinned_at = incoming.pinned_at;
        favorited_at = incoming.favorited_at;
      }

  -- The condition of the `findIndex` among the pinned rows.
  unfoldable pub pinned_before : ConversationResponse → ConversationResponse → Bool
  unfolding date_lt
  pinned_before row c = date_lt date_parse (or_else c.pinned_at []) (or_else row.pinned_at [])

  -- The condition of the `findIndex` among the recent rows.
  unfoldable pub updated_before : ConversationResponse → ConversationResponse → Bool
  unfolding date_lt
  updated_before row c = date_lt date_parse c.updated_at row.updated_at

  -- `applyMarkers`. `insert_before` is `splice` at the index that `findIndex` gives, or at the end.
  unfoldable pub apply_markers :
      ConversationIndexState → ConversationResponse → ConversationIndexState
  unfolding marked_row pinned_before updated_before
  apply_markers s incoming =
      let local =
        or_option (find (has_id incoming.id) s.pinned_items) (find (has_id incoming.id) s.items) in
      let row = marked_row s incoming in
      let pinned_items = drop_row row.id s.pinned_items in
      let items = drop_row row.id s.items in
      if is_set row.pinned_at
      then record s {
        pinned_items = insert_before (pinned_before row) row pinned_items;
        items = items;
      }
      else if not (is_some local)
      then s
      else if not (any (updated_before row) items) && s.has_more
      then record s { pinned_items = pinned_items; items = items }
      else record s {
        pinned_items = pinned_items;
        items = insert_before (updated_before row) row items;
      }

  -- The pinned list that `conversations/listSynced` hands to `withPinned`.
  unfoldable pub synced_pinned :
      List ConversationResponse
      → Option (List ConversationResponse)
      → Option (List ConversationResponse)
  unfolding merge_first_page
  synced_pinned pinned_items none = none
  synced_pinned pinned_items (some pinned) = some (
      filter (λ c. any (λ p. text_eq p.id c.id) pinned)
        (merge_first_page date_parse pinned_items pinned))

  unfoldable pub conversation_index_reducer :
      ConversationIndexState → Action.AppAction → ConversationIndexState
  unfolding reconcile_list with_pinned merge_first_page synced_pinned apply_markers on_run_started
      finish_row mark_unread rename_row without
  conversation_index_reducer s Action.list_loading = record s { status = loading }
  conversation_index_reducer s (Action.list_loaded items pinned has_more) = reconcile_list s (
      with_pinned (record s { items = items; has_more = or_else has_more false; status = idle })
        pinned)
  conversation_index_reducer s (Action.list_synced items pinned) = reconcile_list s (
      with_pinned (record s { items = merge_first_page date_parse s.items items })
        (synced_pinned s.pinned_items pinned))
  conversation_index_reducer s (Action.marker_changed conversation) = apply_markers s conversation
  conversation_index_reducer s (Action.run_in_list_started conversation run updated_at) =
      on_run_started s conversation run updated_at
  conversation_index_reducer s (Action.run_in_list_finished id) = record s {
    items = map (finish_row id) s.items;
    pinned_items = map (finish_row id) s.pinned_items;
    unread_ids = mark_unread s.unread_ids id s.selected_id;
  }
  conversation_index_reducer s Action.list_loading_more = record s { status = loading_more }
  conversation_index_reducer s (Action.list_page_loaded items has_more) = record s {
    items = s.items ++ without (ids s.items) items;
    has_more = has_more;
    status = idle;
  }
  conversation_index_reducer s Action.list_error = record s { status = error }
  conversation_index_reducer s (Action.selected id) = record s {
    selected_id = id;
    unread_ids = filter (λ x. not (option_is id x)) s.unread_ids;
  }
  conversation_index_reducer s (Action.renamed conversation) = record s {
    items = map (rename_row conversation) s.items;
    pinned_items = map (rename_row conversation) s.pinned_items;
  }
  conversation_index_reducer s (Action.removed id) = record s {
    items = drop_row id s.items;
    pinned_items = drop_row id s.pinned_items;
    unread_ids = drop_id id s.unread_ids;
  }
  conversation_index_reducer s (Action.draft_created id) = record s { draft_id = some id }
  conversation_index_reducer s Action.draft_activated = record s { draft_id = none }
  conversation_index_reducer s (Action.title_pending id) =
      if includes s.pending_title_ids id
      then s
      else record s { pending_title_ids = s.pending_title_ids ++ id ∷ [] }
  conversation_index_reducer s (Action.title_resolved id) = record s {
    pending_title_ids = drop_id id s.pending_title_ids;
  }
  conversation_index_reducer s Action.app_reset = initial_conversation_index_state
  conversation_index_reducer s _ = s
