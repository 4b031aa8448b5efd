-- ===== src/Conversation/PinLimit.antt =====
-- The limit of pinned conversations (frontend/src/conversations/useConversationMarkers.ts).
use ichat.Base.{
  ℕ, suc, ◌≤◌, ◌≡◌, refl, Bool, true, false, not, Option, none, some, List, [], ◌∷◌, length,
  length-filter, Text, text_eq, or_option, insert_before, if◌then◌else◌, arith,
}
use ichat.Api.Types.{ConversationResponse}
use ichat.App.Action
use ichat.App.Store.{AppState, root_reducer}
use ichat.Conversation.Rows.{drop_row}
use ichat.Conversation.Index.{
  ConversationIndexState, is_set, marked_row, pinned_before, apply_markers,
  conversation_index_reducer,
}
use ichat.Conversation.Markers.{find_row, pin_found, pin_row, toggle_pin, on_pinned, on_pin_error}

length-insert_before :
    (p : ConversationResponse → Bool) (c : ConversationResponse) (cs : List ConversationResponse)
    → length (insert_before p c cs) ≡ suc (length cs)
length-insert_before p c [] = refl
length-insert_before p c (d ∷ cs) = ground (arith, length-insert_before p c cs)

module _ (date_parse : Text → Option ℕ) where
  -- Markers put at most one row more into the pinned list, and none when the row is not pinned.
  length-apply_markers :
      (s : ConversationIndexState) (c : ConversationResponse)
      → length (apply_markers date_parse s c).pinned_items
        ≤ (if is_set c.pinned_at then suc (length s.pinned_items) else length s.pinned_items)
  unfolding apply_markers marked_row
  length-apply_markers s c =
      let row = marked_row date_parse s c in
      let others = λ (d : ConversationResponse). not (text_eq d.id row.id) in
      ground (
        arith,
        length-insert_before (pinned_before date_parse row) row (drop_row row.id s.pinned_items),
        length-filter others s.pinned_items,
      )

  length-pin_row :
      (now : Text) (current : ConversationResponse) (s : AppState)
      → length s.conversation_index.pinned_items ≤ 10
      → length (pin_row date_parse now current s).0.conversation_index.pinned_items ≤ 10
  unfolding pin_row root_reducer conversation_index_reducer
  length-pin_row now current s h = ground (
    arith,
    length-apply_markers s.conversation_index (record current { pinned_at = some now }),
    length-apply_markers s.conversation_index (record current { pinned_at = none }),
  )

  length-pin_found :
      (now : Text) (found : Option ConversationResponse) (s : AppState)
      → length s.conversation_index.pinned_items ≤ 10
      → length (pin_found date_parse now found s).0.conversation_index.pinned_items ≤ 10
  unfolding pin_found
  length-pin_found now none s h = h
  length-pin_found now (some current) s h = length-pin_row now current s h

  length-marker_changed :
      (current : ConversationResponse) (t : AppState)
      → length
          (root_reducer date_parse t
            (Action.marker_changed current)).conversation_index.pinned_items
        ≤ suc (length t.conversation_index.pinned_items)
  unfolding root_reducer conversation_index_reducer
  length-marker_changed current t =
      ground (arith, length-apply_markers t.conversation_index current)

  -- What togglePin shows until its request is answered: from a pinned list of at most ten rows, one of
  -- at most ten rows, whether the row is pinned, unpinned, refused for the limit or not found. The
  -- answer, which may come in any state, and so may the failure, which puts the row back, adds at most
  -- one row to the pinned list of then.
  pub length-toggle_pin :
      (now id : Text) (fallback : Option ConversationResponse) (pinned limit_reached : Bool)
      (saved : ConversationResponse) (s t : AppState)
      → length s.conversation_index.pinned_items ≤ 10
      → (length (toggle_pin date_parse now id fallback s).0.conversation_index.pinned_items ≤ 10)
        × (length (on_pinned date_parse pinned saved t).conversation_index.pinned_items
            ≤ suc (length t.conversation_index.pinned_items))
        × (length (on_pin_error date_parse saved limit_reached t).conversation_index.pinned_items
            ≤ suc (length t.conversation_index.pinned_items))
  unfolding toggle_pin on_pinned on_pin_error root_reducer conversation_index_reducer
  length-toggle_pin now id fallback pinned limit_reached saved s t h = (
    length-pin_found now (or_option (find_row id s) fallback) s h,
    length-marker_changed saved t,
    failed limit_reached,
  )
    where
      failed :
          (b : Bool)
          → length (on_pin_error date_parse saved b t).conversation_index.pinned_items
            ≤ suc (length t.conversation_index.pinned_items)
      failed true = length-marker_changed saved t
      failed false = length-marker_changed saved t
