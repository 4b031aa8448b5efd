-- ===== src/Conversation/Index/Invariant.antt =====
-- The validity of the conversation index under each action
-- (`conversationIndexReducer` of frontend/src/conversations/state.ts).
use ichat.Base.{
  or_else, ℕ, ◌≡◌, refl, ap, ◌∙◌, Bool, not, Option, none, some, List, [], ◌++◌, map, Text,
  includes, Distinct, Apart, filter, text_eq, text_eq_sound, includes-append, Distinct-append,
  Distinct-add, includes-filter, Distinct-filter, arith, Bool-cases, inl, inr,
}
use ichat.Api.Types.{ConversationResponse}
use ichat.App.Action
use ichat.Conversation.Rows.{ids, drop_row, without}
use ichat.Conversation.Ids.{
  ids-append, ids-map, ids-without, Distinct-merge_first_page, Distinct-filter_row,
}
use ichat.Conversation.Index.{
  idle, ConversationIndexState, finish_row, rename_row, synced_pinned, conversation_index_reducer,
}
use ichat.Conversation.Index.Valid.{
  IsValid, mark_unread-Ok, reconcile_list-IsValid, with_pinned-IsValid, same_ids-IsValid,
  unread-IsValid, pending-IsValid, filter_unread-Ok, dropped-IsValid,
}
use ichat.Conversation.Index.Placing.{apply_markers-IsValid, on_run_started-IsValid}

rename_row-id : (x c : ConversationResponse) → (rename_row x c).id ≡ c.id
unfolding rename_row
rename_row-id x c = ground (arith, text_eq_sound c.id x.id)

finish_row-id : (id : Text) (c : ConversationResponse) → (finish_row id c).id ≡ c.id
unfolding finish_row
finish_row-id id c = ground arith

pub page-IsValid :
    (s : ConversationIndexState) (items : List ConversationResponse) (has_more : Bool)
    → IsValid s
    → Distinct (ids items)
    → Apart (ids items) (ids s.pinned_items)
    → IsValid (record s {
      items = s.items ++ without (ids s.items) items;
      has_more = has_more;
      status = idle;
    })
page-IsValid s items has_more v d p =
    let fresh = filter (λ t. not (includes (ids s.items) t)) (ids items) in
    let all_ids : ids (s.items ++ without (ids s.items) items) ≡ ids s.items ++ fresh =
      ids-append s.items _ ∙ ap (λ t. ids s.items ++ t) (ids-without (ids s.items) items) in
    let in_fresh = includes-filter (λ t. not (includes (ids s.items) t)) (ids items) in
    record {
      distinct_items = rw all_ids (
          Distinct-append (ids s.items) fresh v.distinct_items (Distinct-filter _ (ids items) d)
            (λ t h. ground (arith, in_fresh t)));
      distinct_pinned = v.distinct_pinned;
      apart = rw all_ids (λ t h.
          ground (arith, includes-append (ids s.items) fresh t, in_fresh t, v.apart t, p t));
      distinct_unread = v.distinct_unread;
      distinct_pending = v.distinct_pending;
      selected_read = v.selected_read;
    }

module _ (date_parse : Text → Option ℕ) where
  synced_pinned-Distinct :
      (pinned_items : List ConversationResponse) (pinned : Option (List ConversationResponse))
      → Distinct (ids pinned_items)
      → Distinct (ids (or_else pinned []))
      → Distinct (ids (or_else (synced_pinned date_parse pinned_items pinned) pinned_items))
  unfolding synced_pinned
  synced_pinned-Distinct pinned_items none d e = d
  synced_pinned-Distinct pinned_items (some pinned) d e =
      Distinct-filter_row _ _ (Distinct-merge_first_page date_parse pinned_items pinned d e)

  -- What the reducer relies on of the server's lists: no row twice in one answer, and no pinned row
  -- in a further page of the recent list.
  abbrev pub Admissible : ConversationIndexState → Action.AppAction → Type 0
  Admissible s (Action.list_loaded items pinned has_more) =
      Distinct (ids items) × Distinct (ids (or_else pinned []))
  Admissible s (Action.list_synced items pinned) =
      Distinct (ids items) × Distinct (ids (or_else pinned []))
  Admissible s (Action.list_page_loaded items has_more) =
      Distinct (ids items) × Apart (ids items) (ids s.pinned_items)
  Admissible s _ = Unit {0}

  or_else-Distinct :
      (pinned_items : List ConversationResponse) (pinned : Option (List ConversationResponse))
      → Distinct (ids pinned_items)
      → Distinct (ids (or_else pinned []))
      → Distinct (ids (or_else pinned pinned_items))
  or_else-Distinct pinned_items none d e = d
  or_else-Distinct pinned_items (some pinned) d e = e

  -- Every action keeps the index valid, given that what the server sends is admissible.
  pub conversation_index_reducer-IsValid :
      (s : ConversationIndexState) (a : Action.AppAction)
      → IsValid s
      → Admissible s a
      → IsValid (conversation_index_reducer date_parse s a)
  unfolding conversation_index_reducer
  conversation_index_reducer-IsValid s (Action.list_loaded items pinned has_more) v (i, p) =
      reconcile_list-IsValid s _ (
        with_pinned-IsValid _ pinned i (or_else-Distinct s.pinned_items pinned v.distinct_pinned p)
          (v.distinct_unread, v.selected_read) v.distinct_pending)
  conversation_index_reducer-IsValid s (Action.list_synced items pinned) v (i, p) =
      reconcile_list-IsValid s _ (
        with_pinned-IsValid _ (synced_pinned date_parse s.pinned_items pinned)
          (Distinct-merge_first_page date_parse s.items items v.distinct_items i)
          (synced_pinned-Distinct s.pinned_items pinned v.distinct_pinned p)
          (v.distinct_unread, v.selected_read) v.distinct_pending)
  conversation_index_reducer-IsValid s (Action.marker_changed c) v h =
      apply_markers-IsValid date_parse s c v
  conversation_index_reducer-IsValid s (Action.run_in_list_started c run updated_at) v h =
      on_run_started-IsValid s c run updated_at v
  conversation_index_reducer-IsValid s (Action.run_in_list_finished id) v h =
      unread-IsValid
        (record s {
          items = map (finish_row id) s.items;
          pinned_items = map (finish_row id) s.pinned_items;
        })
        s.selected_id _
        (same_ids-IsValid s _ _ v (ids-map (finish_row id) (finish_row-id id) s.items)
          (ids-map (finish_row id) (finish_row-id id) s.pinned_items))
        (mark_unread-Ok s.unread_ids id s.selected_id (v.distinct_unread, v.selected_read))
  conversation_index_reducer-IsValid s (Action.list_page_loaded items has_more) v (i, p) =
      page-IsValid s items has_more v i p
  conversation_index_reducer-IsValid s (Action.selected id) v h =
      unread-IsValid s id _ v (filter_unread-Ok s.unread_ids id v.distinct_unread)
  conversation_index_reducer-IsValid s (Action.renamed c) v h =
      same_ids-IsValid s _ _ v (ids-map (rename_row c) (rename_row-id c) s.items)
        (ids-map (rename_row c) (rename_row-id c) s.pinned_items)
  conversation_index_reducer-IsValid s (Action.removed id) v h =
      unread-IsValid
        (record s { items = drop_row id s.items; pinned_items = drop_row id s.pinned_items })
        s.selected_id _ (dropped-IsValid s id v)
        (
          Distinct-filter _ s.unread_ids v.distinct_unread,
          λ x e.
              includes-filter (λ y. not (text_eq y id)) s.unread_ids x
              ∙ ground (arith, v.selected_read x e),
        )
  conversation_index_reducer-IsValid s (Action.title_pending id) v h =
      elim (Bool-cases (includes s.pending_title_ids id)) [
        | inl e ↦ rw e v
        | inr e ↦
            rw e (pending-IsValid s _ v (Distinct-add s.pending_title_ids id v.distinct_pending e))
      ]
  conversation_index_reducer-IsValid s (Action.title_resolved id) v h =
      pending-IsValid s _ v (Distinct-filter _ s.pending_title_ids v.distinct_pending)
  conversation_index_reducer-IsValid s Action.app_reset v h = record {
    distinct_items = tt;
    distinct_pinned = tt;
    apart = λ t e. refl;
    distinct_unread = tt;
    distinct_pending = tt;
    selected_read = λ id e. refl;
  }
  conversation_index_reducer-IsValid s _ v h = record {
    distinct_items = v.distinct_items;
    distinct_pinned = v.distinct_pinned;
    apart = v.apart;
    distinct_unread = v.distinct_unread;
    distinct_pending = v.distinct_pending;
    selected_read = v.selected_read;
  }
