-- ===== src/Conversation/Index/Unread.antt =====
-- Which conversations become unread (`reconcileList`, `markUnread` and `conversations/runFinished` of
-- frontend/src/conversations/state.ts).
use ichat.Base.{
  ℕ, ◌≡◌, refl, ap, ◌∙◌, Bool, true, false, not, ◌&&◌, ◌||◌, Option, List, [], ◌∷◌, ◌++◌, map, Text,
  includes, includes-append, option_is, text_eq, text_eq_sound, any, any-append, is_some,
  if◌then◌else◌, arith,
}
use ichat.Api.Types.{ConversationResponse}
use ichat.App.Action
use ichat.Conversation.Rows.{mark_unread}
use ichat.Conversation.Index.{
  ConversationIndexState, run_ended, mark_ended, reconcile_list, finish_row,
  conversation_index_reducer,
}

-- `markUnread` adds the id unless it is the open one.
pub includes-mark_unread :
    (unread : List Text) (id : Text) (selected : Option Text) (t : Text)
    → includes (mark_unread unread id selected) t
      ≡ (includes unread t || text_eq id t && not (option_is selected t))
unfolding mark_unread
includes-mark_unread unread id selected t = ground (
  arith,
  includes-append unread (id ∷ []) t,
  λ (h : text_eq id t ≡ true). ap (includes unread) (text_eq_sound id t h),
  λ (h : text_eq id t ≡ true). ap (option_is selected) (text_eq_sound id t h),
)

-- A row of this id whose run ended.
abbrev pub ended : List ConversationResponse → Text → ConversationResponse → Bool
ended prev t row = run_ended prev row && text_eq row.id t

-- `reconcileList` marks exactly the rows whose run is gone, except the open one.
pub includes-mark_ended :
    (prev : List ConversationResponse) (selected : Option Text) (unread : List Text)
    (rows : List ConversationResponse) (t : Text)
    → includes (mark_ended prev selected unread rows) t
      ≡ (includes unread t || any (ended prev t) rows && not (option_is selected t))
unfolding mark_ended
includes-mark_ended prev selected unread [] t = ground arith
includes-mark_ended prev selected unread (row ∷ rows) t =
    includes-mark_ended prev selected
      (if run_ended prev row then mark_unread unread row.id selected else unread) rows t
    ∙ ground (arith, includes-mark_unread unread row.id selected t)

module _ (date_parse : Text → Option ℕ) where
  -- After the list is fetched anew or synced, a conversation is unread exactly if it was, or if its
  -- row had a run before and the new row of either list has none, unless it is the open one.
  pub list_unread :
      (s : ConversationIndexState) (items : List ConversationResponse)
      (pinned : Option (List ConversationResponse)) (has_more : Option Bool) (t : Text)
      → let rows = λ (n : ConversationIndexState). n.items ++ n.pinned_items in
        let loaded =
          conversation_index_reducer date_parse s (Action.list_loaded items pinned has_more) in
        let synced = conversation_index_reducer date_parse s (Action.list_synced items pinned) in
        (includes loaded.unread_ids t ≡ (
          includes s.unread_ids t
          || any (ended (rows s) t) (rows loaded) && not (option_is s.selected_id t)))
        × (includes synced.unread_ids t ≡ (
            includes s.unread_ids t
            || any (ended (rows s) t) (rows synced) && not (option_is s.selected_id t)))
  unfolding conversation_index_reducer reconcile_list
  list_unread s items pinned has_more t = (
    includes-mark_ended (s.items ++ s.pinned_items) s.selected_id s.unread_ids _ t,
    includes-mark_ended (s.items ++ s.pinned_items) s.selected_id s.unread_ids _ t,
  )

finish_row-idle :
    (id : Text) (c : ConversationResponse)
    → (text_eq (finish_row id c).id id && is_some (finish_row id c).active_run) ≡ false
unfolding finish_row
finish_row-idle id c = ground arith

no_run_left :
    (id : Text) (cs : List ConversationResponse)
    → any (λ c. text_eq c.id id && is_some c.active_run) (map (finish_row id) cs) ≡ false
no_run_left id [] = refl
no_run_left id (c ∷ cs) = ground (arith, finish_row-idle id c, no_run_left id cs)

-- A finished run leaves no row of its conversation spinning, and makes the conversation, and no
-- other, unread unless it is open.
pub finished_run :
    (date_parse : Text → Option ℕ) (s : ConversationIndexState) (id t : Text)
    → let n = conversation_index_reducer date_parse s (Action.run_in_list_finished id) in
      (any (λ c. text_eq c.id id && is_some c.active_run) (n.items ++ n.pinned_items) ≡ false)
      × (includes n.unread_ids t
          ≡ (includes s.unread_ids t || text_eq id t && not (option_is s.selected_id t)))
unfolding conversation_index_reducer
finished_run date_parse s id t = (
  any-append _ (map (finish_row id) s.items) (map (finish_row id) s.pinned_items)
      ∙ ground (arith, no_run_left id s.items, no_run_left id s.pinned_items),
  includes-mark_unread s.unread_ids id s.selected_id t,
)
