-- ===== src/Conversation/Index/Valid.antt =====
-- A valid conversation index, and what keeps it valid whatever the action: the unread ids, the
-- pending titles, `withPinned`, `reconcileList` and changes of rows that keep the ids
-- (frontend/src/conversations/state.ts).
use ichat.Base.{
  or_else, ◌≡◌, ap, ◌∙◌, false, not, ◌||◌, Option, some, List, [], ◌∷◌, ◌++◌, Text, includes,
  option_is, Distinct, Apart, filter, text_eq_sym, text_eq_refl, includes-append, Distinct-add,
  includes-filter, Distinct-filter, if◌then◌else◌, arith, Bool-cases, inl, inr,
}
use ichat.Api.Types.{ConversationResponse}
use ichat.Conversation.Rows.{ids, drop_row, mark_unread}
use ichat.Conversation.Ids.{ids-without, Apart-without, includes-drop_row, Distinct-drop_row}
use ichat.Conversation.Index.{
  ConversationIndexState, mark_ended, run_ended, with_pinned, reconcile_list,
}

-- No row stands twice in the sidebar, be it in one list or in both; no id is twice unread or twice
-- waiting for a title; and the open conversation is not unread.
pub record IsValid (s : ConversationIndexState) : Type 0 where
  pub distinct_items : Distinct (ids s.items)
  pub distinct_pinned : Distinct (ids s.pinned_items)
  pub apart : Apart (ids s.items) (ids s.pinned_items)
  pub distinct_unread : Distinct s.unread_ids
  pub distinct_pending : Distinct s.pending_title_ids
  pub selected_read : (id : Text) → s.selected_id ≡ some id → includes s.unread_ids id ≡ false

-- What `unreadIds` keeps, for the id that is open.
abbrev pub UnreadOk : List Text → Option Text → Type 0
UnreadOk unread selected =
    Distinct unread × ((id : Text) → selected ≡ some id → includes unread id ≡ false)

pub mark_unread-Ok :
    (unread : List Text) (id : Text) (selected : Option Text)
    → UnreadOk unread selected
    → UnreadOk (mark_unread unread id selected) selected
unfolding mark_unread
mark_unread-Ok unread id selected (d, open_read) =
    elim (Bool-cases (option_is selected id || includes unread id)) [
      | inl e ↦ rw e (d, open_read)
      | inr e ↦ rw e (
        Distinct-add unread id d (ground arith),
        λ x h.
            includes-append unread (id ∷ []) x
            ∙ ground (arith, open_read x h, ap (λ o. option_is o id) h, text_eq_sym x id),
      )
    ]

pub mark_ended-Ok :
    (prev : List ConversationResponse) (selected : Option Text) (unread : List Text)
    (rows : List ConversationResponse)
    → UnreadOk unread selected
    → UnreadOk (mark_ended prev selected unread rows) selected
unfolding mark_ended
mark_ended-Ok prev selected unread [] h = h
mark_ended-Ok prev selected unread (row ∷ rows) h =
    mark_ended-Ok prev selected
      (if run_ended prev row then mark_unread unread row.id selected else unread) rows
      (elim (Bool-cases (run_ended prev row)) [
        | inl e ↦ rw e (mark_unread-Ok unread row.id selected h)
        | inr e ↦ rw e h
      ])

-- `reconcileList` keeps a valid state valid.
pub reconcile_list-IsValid :
    (prev next : ConversationIndexState) → IsValid next → IsValid (reconcile_list prev next)
unfolding reconcile_list
reconcile_list-IsValid prev next v =
    let unread =
      mark_ended-Ok (prev.items ++ prev.pinned_items) next.selected_id next.unread_ids
        (next.items ++ next.pinned_items) (v.distinct_unread, v.selected_read) in
    record {
      distinct_items = v.distinct_items;
      distinct_pinned = v.distinct_pinned;
      apart = v.apart;
      distinct_unread = unread.0;
      distinct_pending = Distinct-filter _ next.pending_title_ids v.distinct_pending;
      selected_read = unread.1;
    }

-- `withPinned` makes a state valid whose lists are each free of repetitions.
pub with_pinned-IsValid :
    (s : ConversationIndexState) (pinned : Option (List ConversationResponse))
    → Distinct (ids s.items)
    → Distinct (ids (or_else pinned s.pinned_items))
    → UnreadOk s.unread_ids s.selected_id
    → Distinct s.pending_title_ids
    → IsValid (with_pinned s pinned)
unfolding with_pinned
with_pinned-IsValid s pinned di dp u d =
    let other = ids (or_else pinned s.pinned_items) in
    let items = ids-without other s.items in
    record {
      distinct_items = rw items (Distinct-filter _ (ids s.items) di);
      distinct_pinned = dp;
      apart = rw items (Apart-without (ids s.items) other);
      distinct_unread = u.0;
      distinct_pending = d;
      selected_read = u.1;
    }

-- A state whose rows changed in other fields than the id.
pub same_ids-IsValid :
    (s : ConversationIndexState) (items pinned : List ConversationResponse)
    → IsValid s
    → ids items ≡ ids s.items
    → ids pinned ≡ ids s.pinned_items
    → IsValid (record s { items = items; pinned_items = pinned })
same_ids-IsValid s items pinned v p q = record {
  distinct_items = rw p v.distinct_items;
  distinct_pinned = rw q v.distinct_pinned;
  apart = rw (p, q) v.apart;
  distinct_unread = v.distinct_unread;
  distinct_pending = v.distinct_pending;
  selected_read = v.selected_read;
}

pub unread-IsValid :
    (s : ConversationIndexState) (selected : Option Text) (unread : List Text)
    → IsValid s
    → UnreadOk unread selected
    → IsValid (record s { selected_id = selected; unread_ids = unread })
unread-IsValid s selected unread v u = record {
  distinct_items = v.distinct_items;
  distinct_pinned = v.distinct_pinned;
  apart = v.apart;
  distinct_unread = u.0;
  distinct_pending = v.distinct_pending;
  selected_read = u.1;
}

pub pending-IsValid :
    (s : ConversationIndexState) (pending : List Text)
    → IsValid s
    → Distinct pending
    → IsValid (record s { pending_title_ids = pending })
pending-IsValid s pending v d = record {
  distinct_items = v.distinct_items;
  distinct_pinned = v.distinct_pinned;
  apart = v.apart;
  distinct_unread = v.distinct_unread;
  distinct_pending = d;
  selected_read = v.selected_read;
}

-- Entering a conversation takes its id out of the unread ones.
pub filter_unread-Ok :
    (unread : List Text) (id : Option Text)
    → Distinct unread
    → UnreadOk (filter (λ x. not (option_is id x)) unread) id
filter_unread-Ok unread id d = (
  Distinct-filter _ unread d,
  λ x e.
      includes-filter (λ y. not (option_is id y)) unread x
      ∙ ground (arith, ap (λ o. option_is o x) e, text_eq_refl x),
)

pub dropped-IsValid :
    (s : ConversationIndexState) (id : Text)
    → IsValid s
    → IsValid (record s { items = drop_row id s.items; pinned_items = drop_row id s.pinned_items })
dropped-IsValid s id v = record {
  distinct_items = Distinct-drop_row id s.items v.distinct_items;
  distinct_pinned = Distinct-drop_row id s.pinned_items v.distinct_pinned;
  apart = λ t h.
      ground
        (arith, includes-drop_row id s.items t, includes-drop_row id s.pinned_items t, v.apart t);
  distinct_unread = v.distinct_unread;
  distinct_pending = v.distinct_pending;
  selected_read = v.selected_read;
}
