-- ===== src/Conversation/PinFailure.antt =====
-- What the failure of a pin request leaves
-- (frontend/src/conversations/useConversationMarkers.ts, `applyMarkers` of state.ts beside it).
use ichat.Base.{
  ℕ, ◌≡◌, refl, ap, ◌∙◌, Bool, true, false, Option, none, some, List, [], ◌∷◌, ◌++◌, length, Text,
  text_eq_refl, any, any-filter, find, insert_before, leb, arith,
}
use ichat.Api.Types.{ConversationResponse}
use ichat.App.Action
use ichat.App.Store.{AppState, root_reducer}
use ichat.Conversation.Rows.{has_id, drop_row}
use ichat.Conversation.Index.{
  ConversationIndexState, is_set, marked_row, pinned_before, updated_before, apply_markers,
  conversation_index_reducer,
}
use ichat.Conversation.Markers.{
  pinned_conversation_limit, find_row, pin_found, pin_row, toggle_pin, on_pin_error,
}

any-drop_row :
    (id : Text) (cs : List ConversationResponse) → any (has_id id) (drop_row id cs) ≡ false
any-drop_row id [] = refl
any-drop_row id (c ∷ cs) = ground (arith, any-drop_row id cs)

find-none :
    (q : ConversationResponse → Bool) (cs : List ConversationResponse)
    → any q cs ≡ false
    → find q cs ≡ none
find-none q [] h = refl
find-none q (c ∷ cs) h = ground (arith, find-none q cs)

find-insert_before :
    (q p : ConversationResponse → Bool) (r : ConversationResponse) (cs : List ConversationResponse)
    → q r ≡ true
    → any q cs ≡ false
    → find q (insert_before p r cs) ≡ some r
find-insert_before q p r [] h k = rw h refl
find-insert_before q p r (c ∷ cs) h k = ground (arith, find-insert_before q p r cs)

find-append_none :
    (q : ConversationResponse → Bool) (cs ds : List ConversationResponse)
    → any q cs ≡ false
    → any q ds ≡ false
    → find q (cs ++ ds) ≡ none
find-append_none q [] ds h k = find-none q ds k
find-append_none q (c ∷ cs) ds h k = ground (arith, find-append_none q cs ds)

module _ (date_parse : Text → Option ℕ) where
  abbrev pinned_row : Text → ConversationResponse → ConversationResponse
  pinned_row now c = record c { pinned_at = some now }

  -- The state once the row is pinned.
  abbrev once_pinned : Text → ConversationResponse → ConversationIndexState → ConversationIndexState
  once_pinned now c s = record s {
    pinned_items =
        insert_before (pinned_before date_parse (pinned_row now c)) (pinned_row now c)
          (drop_row c.id s.pinned_items);
    items = drop_row c.id s.items;
  }

  apply_markers-pin :
      (now : Text) (c : ConversationResponse) (s : ConversationIndexState)
      → is_set (some now) ≡ true
      → find (has_id c.id) s.pinned_items ≡ none
      → find (has_id c.id) s.items ≡ some c
      → apply_markers date_parse s (pinned_row now c) ≡ once_pinned now c s
  unfolding apply_markers marked_row
  apply_markers-pin now c s h k l = rw (k, l, h) refl

  apply_markers-unpin :
      (now : Text) (c : ConversationResponse) (s : ConversationIndexState)
      → is_set c.pinned_at ≡ false
      → find (has_id c.id) s.pinned_items ≡ some (pinned_row now c)
      → any (updated_before date_parse c) (drop_row c.id s.items) ≡ false
      → s.has_more ≡ true
      → apply_markers date_parse s c
        ≡ record s { pinned_items = drop_row c.id s.pinned_items; items = drop_row c.id s.items }
  unfolding apply_markers marked_row updated_before
  apply_markers-unpin now c s h k l m = rw (k, h, l, m) refl

  toggle_pin-found :
      (now : Text) (c : ConversationResponse) (s : AppState)
      → is_set c.pinned_at ≡ false
      → find (has_id c.id) s.conversation_index.pinned_items ≡ none
      → find (has_id c.id) s.conversation_index.items ≡ some c
      → leb pinned_conversation_limit (length s.conversation_index.pinned_items) ≡ false
      → toggle_pin date_parse now c.id none s
        ≡ (root_reducer date_parse s (Action.marker_changed (pinned_row now c)), some (c, true))
  unfolding toggle_pin find_row pin_found pin_row
  toggle_pin-found now c s u k l n = rw (k, l, u, n) refl

  marker_changed-index :
      (c : ConversationResponse) (s : AppState)
      → (root_reducer date_parse s (Action.marker_changed c)).conversation_index
        ≡ apply_markers date_parse s.conversation_index c
  unfolding root_reducer conversation_index_reducer
  marker_changed-index c s = refl

  on_pin_error-index :
      (limit_reached : Bool) (c : ConversationResponse) (s : AppState)
      → (on_pin_error date_parse c limit_reached s).conversation_index
        ≡ apply_markers date_parse s.conversation_index c
  unfolding on_pin_error root_reducer conversation_index_reducer
  on_pin_error-index true c s = refl
  on_pin_error-index false c s = refl

  -- The oldest of the loaded rows is pinned while further pages are to come, and the request fails:
  -- afterwards the row is in neither list, though it was in the recent list before.
  pub failed_pin_loses_row :
      (now : Text) (limit_reached : Bool) (s : AppState) (c : ConversationResponse)
      → is_set (some now) ≡ true
      → is_set c.pinned_at ≡ false
      → find (has_id c.id) s.conversation_index.pinned_items ≡ none
      → find (has_id c.id) s.conversation_index.items ≡ some c
      → leb pinned_conversation_limit (length s.conversation_index.pinned_items) ≡ false
      → any (updated_before date_parse c) (drop_row c.id s.conversation_index.items) ≡ false
      → s.conversation_index.has_more ≡ true
      → let asked = toggle_pin date_parse now c.id none s in
        let n = (on_pin_error date_parse c limit_reached asked.0).conversation_index in
        (asked.1 ≡ some (c, true)) × (find (has_id c.id) (n.items ++ n.pinned_items) ≡ none)
  failed_pin_loses_row now limit_reached s c t u k l n o m =
      let i = s.conversation_index in
      let p = once_pinned now c i in
      let asked = toggle_pin-found now c s u k l n in
      let unpinned =
        apply_markers-unpin now c p u
          (find-insert_before (has_id c.id) _ (pinned_row now c) (drop_row c.id i.pinned_items)
            (text_eq_refl c.id) (any-drop_row c.id i.pinned_items))
          (any-filter _ (updated_before date_parse c) (drop_row c.id i.items) o) m in
      let left =
        ap
          (λ (x : AppState × Option (ConversationResponse × Bool)).
            (on_pin_error date_parse c limit_reached x.0).conversation_index)
          asked
        ∙ on_pin_error-index limit_reached c
            (root_reducer date_parse s (Action.marker_changed (pinned_row now c)))
        ∙ ap (λ j. apply_markers date_parse j c)
            (marker_changed-index (pinned_row now c) s ∙ apply_markers-pin now c i t k l)
        ∙ unpinned in
      (
        ap (λ (x : AppState × Option (ConversationResponse × Bool)). x.1) asked,
        ap (λ (j : ConversationIndexState). find (has_id c.id) (j.items ++ j.pinned_items)) left
            ∙ find-append_none (has_id c.id) (drop_row c.id p.items) (drop_row c.id p.pinned_items)
                (any-drop_row c.id p.items) (any-drop_row c.id p.pinned_items),
      )
