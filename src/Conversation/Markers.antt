-- ===== src/Conversation/Markers.antt =====
-- `useConversationMarkers` (frontend/src/conversations/useConversationMarkers.ts): pin and favorite,
-- dispatched at once and settled by the answer. Each function is the code between two awaits; `now`
-- is what `new Date().toISOString()` gives.
use ichat.Base.{
  ℕ, Bool, not, ◌&&◌, Option, none, some, length, Text, codes, find, leb, or_option, text_eq,
  if◌then◌else◌,
}
use ichat.Api.Types.{ConversationResponse}
use ichat.App.Action
use ichat.App.Store.{AppState, root_reducer}
use ichat.Conversation.Rows.{has_id}
use ichat.Conversation.Index.{is_set}

-- `PINNED_CONVERSATION_LIMIT`.
abbrev pub pinned_conversation_limit : ℕ
pinned_conversation_limit = 10

abbrev pub pin_limit_message : Text
pin_limit_message = codes "最多置顶 10 个对话"

abbrev pub failed_message : Text
failed_message = codes "操作失败，请重试"

-- The open conversation, if it has this id.
abbrev pub open_row : Text → Option ConversationResponse → Option ConversationResponse
open_row id none = none
open_row id (some c) = if text_eq c.id id then some c else none

-- `find`.
unfoldable pub find_row : Text → AppState → Option ConversationResponse
find_row id s = or_option (find (has_id id) s.conversation_index.pinned_items) (
    or_option (find (has_id id) s.conversation_index.items)
      (open_row id s.conversation_detail.conversation))

module _ (date_parse : Text → Option ℕ) where
  -- `togglePin` on the row that was found: the state, and for the request that goes out the row as it
  -- was and the flag that is asked for.
  unfoldable pub pin_row :
      Text → ConversationResponse → AppState → AppState × Option (ConversationResponse × Bool)
  pin_row now current s =
      let pinned = not (is_set current.pinned_at) in
      if pinned && leb pinned_conversation_limit (length s.conversation_index.pinned_items)
      then (root_reducer date_parse s (Action.show_toast pin_limit_message Action.warning), none)
      else (
        root_reducer date_parse s (
            Action.marker_changed
              (record current { pinned_at = if pinned then some now else none })),
        some (current, pinned),
      )

  -- `if (!current) return`, and the rest.
  unfoldable pub pin_found :
      Text
      → Option ConversationResponse
      → AppState
      → AppState × Option (ConversationResponse × Bool)
  unfolding pin_row
  pin_found now none s = (s, none)
  pin_found now (some current) s = pin_row now current s

  -- `togglePin` up to its `await`.
  unfoldable pub toggle_pin :
      Text
      → Text
      → Option ConversationResponse
      → AppState
      → AppState × Option (ConversationResponse × Bool)
  unfolding find_row pin_found
  toggle_pin now id fallback s = pin_found now (or_option (find_row id s) fallback) s

  -- The answer to `setPinned`.
  unfoldable pub on_pinned : Bool → ConversationResponse → AppState → AppState
  on_pinned pinned saved s =
      root_reducer date_parse (root_reducer date_parse s (Action.marker_changed saved))
        (Action.show_toast (if pinned then codes "已置顶" else codes "已取消置顶") Action.success)

  -- The `catch` of `togglePin`: the row as it was, and whether the service refused for the limit.
  unfoldable pub on_pin_error : ConversationResponse → Bool → AppState → AppState
  on_pin_error current limit_reached s =
      root_reducer date_parse (root_reducer date_parse s (Action.marker_changed current)) (
        if limit_reached
        then Action.show_toast pin_limit_message Action.warning
        else Action.show_toast failed_message Action.error)

  -- `toggleFavorite` up to its `await`.
  unfoldable pub toggle_favorite :
      Text
      → Text
      → Option ConversationResponse
      → AppState
      → AppState × Option (ConversationResponse × Bool)
  unfolding find_row
  toggle_favorite now id fallback s = elim (or_option (find_row id s) fallback) [
    | none ↦ (s, none)
    | some current ↦
        let favorited = not (is_set current.favorited_at) in
        (
          root_reducer date_parse s (
              Action.marker_changed
                (record current { favorited_at = if favorited then some now else none })),
          some (current, favorited),
        )
  ]

  -- The answer to `setFavorited`.
  unfoldable pub on_favorited : Bool → ConversationResponse → AppState → AppState
  on_favorited favorited saved s =
      root_reducer date_parse (root_reducer date_parse s (Action.marker_changed saved))
        (Action.show_toast (if favorited then codes "已加入收藏" else codes "已取消收藏") Action.success)

  -- The `catch` of `toggleFavorite`.
  unfoldable pub on_favorite_error : ConversationResponse → AppState → AppState
  on_favorite_error current s =
      root_reducer date_parse (root_reducer date_parse s (Action.marker_changed current))
        (Action.show_toast failed_message Action.error)
