-- ===== src/Conversation/Index/Placing.antt =====
-- The validity of the index where rows move between the lists: `applyMarkers` and
-- `conversations/runStarted` (frontend/src/conversations/state.ts).
use ichat.Base.{
  or_else, ℕ, ◌≡◌, refl, ap, ◌∙◌, Bool, true, false, not, ◌&&◌, Option, List, [], ◌∷◌, ◌++◌, Text,
  includes, Distinct, find, insert_before, text_eq, text_eq_sym, text_eq_sound, text_eq_refl,
  includes-eq, Distinct-add, if◌then◌else◌, arith, inl, inr, Option-cases,
}
use ichat.Api.Types.{ConversationActiveRun, ConversationResponse}
use ichat.Conversation.Rows.{ids, has_id, drop_row}
use ichat.Conversation.Ids.{
  ids-map, includes-drop_row, Distinct-drop_row, includes-insert_before, Distinct-insert_before,
  find-none, find-id,
}
use ichat.Conversation.Index.{
  ConversationIndexState, apply_markers, on_run_started, marked_row, pinned_before, updated_before,
  is_set, started_row,
}
use ichat.Conversation.Index.Valid.{IsValid, same_ids-IsValid, dropped-IsValid}

module _ (s : ConversationIndexState) (v : IsValid s) (row : ConversationResponse) where
  abbrev rest_items : List ConversationResponse
  rest_items = drop_row row.id s.items

  abbrev rest_pinned : List ConversationResponse
  rest_pinned = drop_row row.id s.pinned_items

  -- The row stands nowhere in what is left.
  not_in_rest :
      (cs : List ConversationResponse) → includes (ids (drop_row row.id cs)) row.id ≡ false
  not_in_rest cs = ground (arith, includes-drop_row row.id cs row.id, text_eq_refl row.id)

  pub place_pinned-IsValid :
      (p : ConversationResponse → Bool)
      → IsValid (record s { pinned_items = insert_before p row rest_pinned; items = rest_items })
  place_pinned-IsValid p = record {
    distinct_items = Distinct-drop_row row.id s.items v.distinct_items;
    distinct_pinned =
        Distinct-insert_before p row rest_pinned (not_in_rest s.pinned_items)
          (Distinct-drop_row row.id s.pinned_items v.distinct_pinned);
    apart = λ t h. ground (
      arith,
      includes-insert_before p row rest_pinned t,
      includes-drop_row row.id s.items t,
      text_eq_sym t row.id,
      (dropped-IsValid s row.id v).apart t h,
    );
    distinct_unread = v.distinct_unread;
    distinct_pending = v.distinct_pending;
    selected_read = v.selected_read;
  }

  pub place_item-IsValid :
      (p : ConversationResponse → Bool)
      → IsValid (record s { pinned_items = rest_pinned; items = insert_before p row rest_items })
  place_item-IsValid p = record {
    distinct_items =
        Distinct-insert_before p row rest_items (not_in_rest s.items)
          (Distinct-drop_row row.id s.items v.distinct_items);
    distinct_pinned = Distinct-drop_row row.id s.pinned_items v.distinct_pinned;
    apart = λ t h. ground (
      arith,
      includes-insert_before p row rest_items t,
      includes-drop_row row.id s.pinned_items t,
      text_eq_sym t row.id,
      (dropped-IsValid s row.id v).apart t,
    );
    distinct_unread = v.distinct_unread;
    distinct_pending = v.distinct_pending;
    selected_read = v.selected_read;
  }

pub if-IsValid :
    (b : Bool) {s t : ConversationIndexState} → IsValid s → IsValid t → IsValid (if b then s else t)
if-IsValid true v w = v
if-IsValid false v w = w

-- A row put first, when no row of its id is pinned, and an id that may join the pending titles.
first_item-IsValid :
    (s : ConversationIndexState) (row : ConversationResponse) (pending : List Text)
    → IsValid s
    → includes (ids s.pinned_items) row.id ≡ false
    → Distinct pending
    → IsValid (record s { items = row ∷ drop_row row.id s.items; pending_title_ids = pending })
first_item-IsValid s row pending v fresh d = record {
  distinct_items = (not_in_rest s v row s.items, Distinct-drop_row row.id s.items v.distinct_items);
  distinct_pinned = v.distinct_pinned;
  apart = λ t h. ground (
    arith,
    includes-drop_row row.id s.items t,
    includes-eq (ids s.pinned_items) row.id t,
    v.apart t,
  );
  distinct_unread = v.distinct_unread;
  distinct_pending = d;
  selected_read = v.selected_read;
}

replaced_row-id :
    (row c : ConversationResponse) → (if text_eq c.id row.id then row else c).id ≡ c.id
replaced_row-id row c = ground (arith, text_eq_sound c.id row.id)

added-Distinct :
    (b : Bool) (xs : List Text) (t : Text)
    → Distinct xs
    → Distinct (if not b && not (includes xs t) then xs ++ t ∷ [] else xs)
added-Distinct b xs t d = ground (arith, Distinct-add xs t d)

found_or_self-id :
    (c : ConversationResponse) (cs : List ConversationResponse)
    → (or_else (find (has_id c.id) cs) c).id ≡ c.id
found_or_self-id c cs = elim (Option-cases (find (has_id c.id) cs)) [
  | inl e ↦ rw (e, or_else) refl
  | inr (x, e) ↦ rw (e, or_else) (find-id c.id cs x e)
]

pub on_run_started-IsValid :
    (s : ConversationIndexState) (c : ConversationResponse) (run : ConversationActiveRun)
    (updated_at : Text)
    → IsValid s
    → IsValid (on_run_started s c run updated_at)
unfolding on_run_started
on_run_started-IsValid s c run updated_at v =
    elim (Option-cases (find (has_id c.id) s.pinned_items)) [
      | inl e ↦
          let row = started_row (or_else (find (has_id c.id) s.items) c) run updated_at in
          rw (e, on_run_started)
            (first_item-IsValid s row _ v
              (ap (includes (ids s.pinned_items)) (found_or_self-id c s.items)
                ∙ find-none c.id s.pinned_items e)
              (added-Distinct _ s.pending_title_ids row.id v.distinct_pending))
      | inr (p, e) ↦
          rw (e, on_run_started)
            (same_ids-IsValid s s.items _ v refl
              (ids-map _ (replaced_row-id (started_row p run updated_at)) s.pinned_items))
    ]

module _ (date_parse : Text → Option ℕ) where
  -- `applyMarkers` keeps a valid state valid.
  pub apply_markers-IsValid :
      (s : ConversationIndexState) (incoming : ConversationResponse)
      → IsValid s
      → IsValid (apply_markers date_parse s incoming)
  unfolding apply_markers
  apply_markers-IsValid s incoming v =
      let row = marked_row date_parse s incoming in
      if-IsValid (is_set row.pinned_at)
        (place_pinned-IsValid s v row (pinned_before date_parse row))
        (if-IsValid _ v (
          if-IsValid _ (dropped-IsValid s row.id v)
            (place_item-IsValid s v row (updated_before date_parse row))))
