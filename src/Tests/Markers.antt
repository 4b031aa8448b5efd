-- ===== src/Tests/Markers.antt =====
-- Pins on a concrete state.
use ichat.Base.{
  ℕ, zero, suc, ◌≡◌, ◌≤◌, refl, true, false, none, some, List, [], ◌∷◌, ◌++◌, codes, find, length,
  text_eq, arith,
}
use ichat.Api.Types.{ConversationResponse}
use ichat.App.Store.{AppState, initial_state, root_reducer}
use ichat.Conversation.Rows.{has_id, date_lt}
use ichat.Conversation.Index.{
  updated_before, pinned_before, marked_row, apply_markers, conversation_index_reducer,
}
use ichat.Conversation.Markers.{find_row, pin_found, pin_row, toggle_pin, on_pinned, on_pin_error}
use ichat.Conversation.PinLimit.{length-toggle_pin}
use ichat.Conversation.PinFailure.{failed_pin_loses_row}
use ichat.Tests.Data.{unit_date, row, row_b, index}

abbrev state : AppState
state = record initial_state { conversation_index = index }

length-toggle_pin_example :
    (length
        (toggle_pin unit_date (codes "9") (codes "b") none state).0.conversation_index.pinned_items
      ≤ 10)
    × (length (on_pinned unit_date true row_b state).conversation_index.pinned_items
        ≤ suc (length state.conversation_index.pinned_items))
    × (length (on_pin_error unit_date row_b true state).conversation_index.pinned_items
        ≤ suc (length state.conversation_index.pinned_items))
length-toggle_pin_example =
    length-toggle_pin unit_date (codes "9") (codes "b") none true true row_b state state
      (omega arith)

-- Ten pinned rows.
abbrev pinned_rows : ℕ → List ConversationResponse
pinned_rows zero = []
pinned_rows (suc n) = row (n ∷ []) (some (codes "2")) (codes "2") none ∷ pinned_rows n

abbrev full : AppState
full = record initial_state { conversation_index = record index { pinned_items = pinned_rows 10 } }

-- With ten pinned rows one of them is unpinned, another row is pinned, and then the request to unpin
-- fails: eleven rows are pinned.
failed_unpin-overfills :
    let unpinned = toggle_pin unit_date (codes "9") (3 ∷ []) none full in
    let pinned = toggle_pin unit_date (codes "9") (codes "b") none unpinned.0 in
    let current = row (3 ∷ []) (some (codes "2")) (codes "2") none in
    (length full.conversation_index.pinned_items ≡ 10)
    × (unpinned.1 ≡ some (current, false))
    × (pinned.1 ≡ some (row_b, true))
    × (length (on_pin_error unit_date current false pinned.0).conversation_index.pinned_items ≡ 11)
unfolding toggle_pin pin_found pin_row find_row on_pin_error root_reducer conversation_index_reducer
    apply_markers marked_row pinned_before date_lt text_eq updated_before
failed_unpin-overfills = (refl, refl, refl, refl)

failed_pin_loses_row_example :
    let asked = toggle_pin unit_date (codes "9") (codes "b") none state in
    let n = (on_pin_error unit_date row_b true asked.0).conversation_index in
    (asked.1 ≡ some (row_b, true)) × (find (has_id (codes "b")) (n.items ++ n.pinned_items) ≡ none)
failed_pin_loses_row_example =
    failed_pin_loses_row unit_date (codes "9") true state row_b refl refl (unfold text_eq in refl)
      (unfold text_eq in refl) refl (unfold updated_before date_lt text_eq in refl) refl
