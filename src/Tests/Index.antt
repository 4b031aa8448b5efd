-- ===== src/Tests/Index.antt =====
-- The conversation lists on concrete states and actions.
use ichat.Base.{
  ◌≡◌, refl, true, false, not, ◌||◌, ◌&&◌, any, none, some, [], ◌∷◌, ◌++◌, codes, includes, text_eq,
  text_eq_sound, option_is, ap, sym, arith,
}
use mathlib.Core.Option.{some-injective}
use ichat.Api.Types.{ConversationResponse}
use ichat.App.Action
use ichat.Conversation.Rows.{ids, date_lt}
use ichat.Conversation.Index.{ConversationIndexState, updated_before, conversation_index_reducer}
use ichat.Conversation.Index.Valid.{IsValid}
use ichat.Conversation.Index.Invariant.{Admissible, conversation_index_reducer-IsValid}
use ichat.Conversation.Index.Order.{IsOrdered, marker_changed-IsOrdered}
use ichat.Conversation.Index.Unread.{ended, list_unread}
use ichat.Conversation.Index.Rows.{page_doubles_pinned}
use ichat.Tests.Data.{unit_date, row, row_p, index}

index-IsValid : IsValid index
unfolding text_eq
index-IsValid = record {
  distinct_items = (refl, (refl, tt));
  distinct_pinned = (refl, tt);
  apart = λ t h. grind (
    arith,
    text_eq_sound (codes "a") t,
    text_eq_sound (codes "b") t,
    text_eq_sound (codes "p") t,
  );
  distinct_unread = (refl, tt);
  distinct_pending = tt;
  selected_read = λ id h. ap (includes index.unread_ids) (sym (some-injective (codes "b") id h));
}

-- A sync in which the run of the first row is over and the pinned row has moved.
abbrev sync : Action.AppAction
sync = Action.list_synced (row (codes "a") none (codes "6") none ∷ row_p ∷ []) (some (row_p ∷ []))

sync-Admissible : Admissible unit_date index sync
unfolding text_eq
sync-Admissible = ((refl, (refl, tt)), (refl, tt))

conversation_index_reducer-IsValid_example :
    IsValid (conversation_index_reducer unit_date index sync)
conversation_index_reducer-IsValid_example =
    conversation_index_reducer-IsValid unit_date index sync index-IsValid sync-Admissible

index-IsOrdered : IsOrdered unit_date index
unfolding updated_before date_lt
index-IsOrdered = record { pins = (tt, tt); recent = ((refl, tt), (tt, tt)) }

-- The row below the open one is pinned.
abbrev pin : ConversationResponse
pin = row (codes "b") (some (codes "9")) (codes "3") none

marker_changed-IsOrdered_example :
    IsOrdered unit_date (conversation_index_reducer unit_date index (Action.marker_changed pin))
marker_changed-IsOrdered_example = marker_changed-IsOrdered unit_date index pin index-IsOrdered

list_unread_example :
    let rows = λ (n : ConversationIndexState). n.items ++ n.pinned_items in
    let fresh = row (codes "a") none (codes "6") none ∷ [] in
    let loaded =
      conversation_index_reducer unit_date index (Action.list_loaded fresh none (some true)) in
    let synced = conversation_index_reducer unit_date index (Action.list_synced fresh none) in
    (includes loaded.unread_ids (codes "a") ≡ (
      includes index.unread_ids (codes "a")
      || any (ended (rows index) (codes "a")) (rows loaded)
        && not (option_is index.selected_id (codes "a"))))
    × (includes synced.unread_ids (codes "a") ≡ (
        includes index.unread_ids (codes "a")
        || any (ended (rows index) (codes "a")) (rows synced)
          && not (option_is index.selected_id (codes "a"))))
list_unread_example =
    list_unread unit_date index (row (codes "a") none (codes "6") none ∷ []) none (some true)
      (codes "a")

page_doubles_pinned_example :
    let n =
      conversation_index_reducer unit_date index (Action.list_page_loaded (row_p ∷ []) false) in
    (includes (ids n.items) (codes "p") ≡ true) × (includes (ids n.pinned_items) (codes "p") ≡ true)
page_doubles_pinned_example =
    page_doubles_pinned unit_date index (row_p ∷ []) false (codes "p") (unfold text_eq in refl)
      (unfold text_eq in refl)
