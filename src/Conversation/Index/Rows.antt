-- ===== src/Conversation/Index/Rows.antt =====
-- Which rows the lists hold after an action (frontend/src/conversations/state.ts).
use ichat.Base.{
  ℕ, ◌≡◌, refl, ap, ◌∙◌, Bool, true, false, not, ◌&&◌, ◌||◌, Option, some, List, ◌++◌, Text,
  insert_before, find, find_last, includes, includes-append, includes-filter, text_eq, text_eq_sym,
  or_else, or_option, arith, Bool-cases, Option-cases, inl, inr,
}
use ichat.Api.Types.{ConversationResponse}
use ichat.App.Action
use ichat.Conversation.Rows.{ids, has_id, date_lt, drop_row, newer_row, merge_first_page}
use ichat.Conversation.Ids.{
  ids-append, ids-without, includes-drop_row, includes-insert_before, find-id, ids-merge_first_page,
}
use ichat.Conversation.Index.Order.{date_lt_asym}
use mathlib.Core.Path.{ap₂}
use ichat.Conversation.Index.{
  ConversationIndexState, is_set, marked_row, pinned_before, apply_markers,
  conversation_index_reducer,
}

marked_row-id :
    (date_parse : Text → Option ℕ) (s : ConversationIndexState) (c : ConversationResponse)
    → (marked_row date_parse s c).id ≡ c.id
unfolding marked_row
marked_row-id date_parse s c = elim (Option-cases (find (has_id c.id) s.pinned_items)) [
  | inr (x, e) ↦ rw (e, marked_row, or_option, or_else) (find-id c.id s.pinned_items x e)
  | inl e ↦ elim (Option-cases (find (has_id c.id) s.items)) [
    | inr (x, f) ↦ rw (e, f, marked_row, or_option, or_else) (find-id c.id s.items x f)
    | inl f ↦ rw (e, f, marked_row, or_option, or_else) refl
  ]
]

apply_markers-pinned :
    (date_parse : Text → Option ℕ) (s : ConversationIndexState) (c : ConversationResponse)
    → is_set c.pinned_at ≡ true
    → let row = marked_row date_parse s c in
      apply_markers date_parse s c ≡ record s {
        pinned_items =
            insert_before (pinned_before date_parse row) row (drop_row row.id s.pinned_items);
        items = drop_row row.id s.items;
      }
unfolding apply_markers
apply_markers-pinned date_parse s c h = rw (h, apply_markers) refl

-- Pinning a conversation puts its row in the pinned list and out of the recent list, and leaves
-- every other id in the list where it stands.
pub pinned_moves :
    (date_parse : Text → Option ℕ) (s : ConversationIndexState) (c : ConversationResponse)
    (t : Text)
    → is_set c.pinned_at ≡ true
    → let n = conversation_index_reducer date_parse s (Action.marker_changed c) in
      (includes (ids n.pinned_items) t ≡ (text_eq c.id t || includes (ids s.pinned_items) t))
      × (includes (ids n.items) t ≡ (includes (ids s.items) t && not (text_eq t c.id)))
unfolding conversation_index_reducer apply_markers
pinned_moves date_parse s c t h =
    let row = marked_row date_parse s c in
    let e = apply_markers-pinned date_parse s c h in
    let same = marked_row-id date_parse s c in
    (
      ap (λ (n : ConversationIndexState). includes (ids n.pinned_items) t) e
          ∙ includes-insert_before (pinned_before date_parse row) row
              (drop_row row.id s.pinned_items) t
          ∙ ap₂ (λ a b. text_eq a t || b) same (includes-drop_row row.id s.pinned_items t)
          ∙ ap (λ a. text_eq c.id t || (includes (ids s.pinned_items) t && not (text_eq t a))) same
          ∙ ground (arith, text_eq_sym c.id t),
      ap (λ (n : ConversationIndexState). includes (ids n.items) t) e
          ∙ includes-drop_row row.id s.items t
          ∙ ap (λ a. includes (ids s.items) t && not (text_eq t a)) same,
    )

date_lt_irrefl : (date_parse : Text → Option ℕ) (a : Text) → date_lt date_parse a a ≡ false
date_lt_irrefl date_parse a = elim (Bool-cases (date_lt date_parse a a)) [
  | inl e ↦ date_lt_asym date_parse a a e
  | inr e ↦ e
]

-- The merge of a fetched page never goes back in time: the row kept for an id of the page that the
-- local list has too is not older than the row of the page, nor than the local row.
pub newer_row-newest :
    (date_parse : Text → Option ℕ) (current : List ConversationResponse)
    (c local : ConversationResponse)
    → find_last (has_id c.id) current ≡ some local
    → let kept = newer_row date_parse current c in
      (date_lt date_parse kept.updated_at c.updated_at ≡ false)
      × (date_lt date_parse kept.updated_at local.updated_at ≡ false)
unfolding newer_row
newer_row-newest date_parse current c local e =
    elim (Bool-cases (date_lt date_parse c.updated_at local.updated_at)) [
      | inl older ↦
          rw (e, older, newer_row)
            (
              date_lt_asym date_parse c.updated_at local.updated_at older,
              date_lt_irrefl date_parse local.updated_at,
            )
      | inr newer ↦ rw (e, newer, newer_row) (date_lt_irrefl date_parse c.updated_at, newer)
    ]

-- The merged first page holds exactly the ids of the page and of the local list.
pub includes-merge_first_page :
    (date_parse : Text → Option ℕ) (current page : List ConversationResponse) (t : Text)
    → includes (ids (merge_first_page date_parse current page)) t
      ≡ (includes (ids page) t || includes (ids current) t)
includes-merge_first_page date_parse current page t =
    ap (λ xs. includes xs t) (ids-merge_first_page date_parse current page)
    ∙ includes-append (ids page) _ t
    ∙ ground (arith, includes-filter (λ x. not (includes (ids page) x)) (ids current) t)

-- A further page that still carries a row which is pinned by now puts that row into the recent list
-- too: afterwards it stands in both lists.
pub page_doubles_pinned :
    (date_parse : Text → Option ℕ) (s : ConversationIndexState) (items : List ConversationResponse)
    (has_more : Bool) (t : Text)
    → includes (ids items) t ≡ true
    → includes (ids s.pinned_items) t ≡ true
    → let n = conversation_index_reducer date_parse s (Action.list_page_loaded items has_more) in
      (includes (ids n.items) t ≡ true) × (includes (ids n.pinned_items) t ≡ true)
unfolding conversation_index_reducer
page_doubles_pinned date_parse s items has_more t h k = (
  ap (λ xs. includes xs t)
        (ids-append s.items _ ∙ ap (λ xs. ids s.items ++ xs) (ids-without (ids s.items) items))
      ∙ includes-append (ids s.items) _ t
      ∙ ground (arith, includes-filter (λ x. not (includes (ids s.items) x)) (ids items) t),
  k,
)
