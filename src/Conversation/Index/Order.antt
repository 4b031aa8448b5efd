-- ===== src/Conversation/Index/Order.antt =====
-- The order of the two lists (`applyMarkers` of frontend/src/conversations/state.ts): by pin date, and by
-- the date of the last update.
use ichat.Base.{
  ℕ, ◌≡◌, Bool, true, false, not, Option, List, [], ◌∷◌, Text, filter, insert_before, text_eq, All,
  or_else, if◌then◌else◌, arith, Bool-cases, inl, inr,
}
use ichat.Api.Types.{ConversationResponse}
use ichat.App.Action
use ichat.Conversation.Rows.{date_lt}
use ichat.Conversation.Index.{
  ConversationIndexState, is_set, marked_row, pinned_before, updated_before, apply_markers,
  conversation_index_reducer,
}

-- No row stands in front of one that should precede it; `before row c` says that `c` is older.
abbrev pub IsSorted :
    (ConversationResponse → ConversationResponse → Bool) → List ConversationResponse → Type 0
IsSorted before [] = Unit {0}
IsSorted before (c ∷ cs) = All (λ d. before d c ≡ false) cs × IsSorted before cs

All-filter :
    (P : ConversationResponse → Type 0) (p : ConversationResponse → Bool)
    (cs : List ConversationResponse)
    → All P cs
    → All P (filter p cs)
All-filter P p [] h = tt
All-filter P p (c ∷ cs) (h, hs) = elim (Bool-cases (p c)) [
  | inl e ↦ rw e (h, All-filter P p cs hs)
  | inr e ↦ rw e (All-filter P p cs hs)
]

filter-IsSorted :
    (before : ConversationResponse → ConversationResponse → Bool) (p : ConversationResponse → Bool)
    (cs : List ConversationResponse)
    → IsSorted before cs
    → IsSorted before (filter p cs)
filter-IsSorted before p [] h = tt
filter-IsSorted before p (c ∷ cs) (h, hs) = elim (Bool-cases (p c)) [
  | inl e ↦ rw e (All-filter _ p cs h, filter-IsSorted before p cs hs)
  | inr e ↦ rw e (filter-IsSorted before p cs hs)
]

-- `before` is a strict order.
pub record IsStrict (before : ConversationResponse → ConversationResponse → Bool) : Type 0 where
  pub asym : (a b : ConversationResponse) → before a b ≡ true → before b a ≡ false
  pub trans :
      (a b c : ConversationResponse) → before a b ≡ true → before b c ≡ true → before a c ≡ true

module _ (before : ConversationResponse → ConversationResponse → Bool) (strict : IsStrict before)
    (row : ConversationResponse) where
  All-insert :
      (P : ConversationResponse → Type 0) (cs : List ConversationResponse)
      → P row
      → All P cs
      → All P (insert_before (before row) row cs)
  All-insert P [] p h = (p, tt)
  All-insert P (c ∷ cs) p (h, hs) = elim (Bool-cases (before row c)) [
    | inl e ↦ rw e (p, (h, hs))
    | inr e ↦ rw e (h, All-insert P cs p hs)
  ]

  -- What is not older than a row that is older than the new one is not older than the new one.
  All-older :
      (c : ConversationResponse) (cs : List ConversationResponse)
      → before row c ≡ true
      → All (λ d. before d c ≡ false) cs
      → All (λ d. before d row ≡ false) cs
  All-older c [] e h = tt
  All-older c (d ∷ cs) e (h, hs) = (
    elim (Bool-cases (before d row)) [ inl f ↦ absurd (cc (strict.trans d row c f e)) | inr f ↦ f ],
    All-older c cs e hs,
  )

  insert-IsSorted :
      (cs : List ConversationResponse)
      → IsSorted before cs
      → IsSorted before (insert_before (before row) row cs)
  insert-IsSorted [] h = (tt, tt)
  insert-IsSorted (c ∷ cs) (h, hs) = elim (Bool-cases (before row c)) [
    | inl e ↦ rw e ((strict.asym row c e, All-older c cs e h), (h, hs))
    | inr e ↦ rw e (All-insert (λ d. before d c ≡ false) cs e h, insert-IsSorted cs hs)
  ]

module _ (date_parse : Text → Option ℕ) where
  pub date_lt_asym : (a b : Text) → date_lt date_parse a b ≡ true → date_lt date_parse b a ≡ false
  unfolding date_lt
  date_lt_asym a b h = ground arith

  date_lt_trans :
      (a b c : Text)
      → date_lt date_parse a b ≡ true
      → date_lt date_parse b c ≡ true
      → date_lt date_parse a c ≡ true
  unfolding date_lt
  date_lt_trans a b c h k = ground arith

  pinned_before-IsStrict : IsStrict (pinned_before date_parse)
  unfolding pinned_before
  pinned_before-IsStrict = record {
    asym = λ a b h. date_lt_asym (or_else b.pinned_at []) (or_else a.pinned_at []) h;
    trans = λ a b c h k.
        date_lt_trans (or_else c.pinned_at []) (or_else b.pinned_at []) (or_else a.pinned_at []) k
          h;
  }

  updated_before-IsStrict : IsStrict (updated_before date_parse)
  unfolding updated_before
  updated_before-IsStrict = record {
    asym = λ a b h. date_lt_asym b.updated_at a.updated_at h;
    trans = λ a b c h k. date_lt_trans c.updated_at b.updated_at a.updated_at k h;
  }

  -- The two lists in their orders.
  pub record IsOrdered (s : ConversationIndexState) : Type 0 where
    pub pins : IsSorted (pinned_before date_parse) s.pinned_items
    pub recent : IsSorted (updated_before date_parse) s.items

  if-IsOrdered :
      (b : Bool) {s t : ConversationIndexState}
      → IsOrdered s
      → IsOrdered t
      → IsOrdered (if b then s else t)
  if-IsOrdered true v w = v
  if-IsOrdered false v w = w

  -- A pin, an unpin or a favorite, sent by the user, confirmed or taken back, keeps the pinned list
  -- in the order of the pins and the recent list in the order of the updates.
  pub marker_changed-IsOrdered :
      (s : ConversationIndexState) (c : ConversationResponse)
      → IsOrdered s
      → IsOrdered (conversation_index_reducer date_parse s (Action.marker_changed c))
  unfolding conversation_index_reducer apply_markers
  marker_changed-IsOrdered s c v =
      let row = marked_row date_parse s c in
      let others = λ (d : ConversationResponse). not (text_eq d.id row.id) in
      let p = filter-IsSorted (pinned_before date_parse) others s.pinned_items v.pins in
      let q = filter-IsSorted (updated_before date_parse) others s.items v.recent in
      if-IsOrdered (is_set row.pinned_at)
        (record {
          pins = insert-IsSorted (pinned_before date_parse) pinned_before-IsStrict row _ p;
          recent = q;
        })
        (if-IsOrdered _ v (
          if-IsOrdered _ (record { pins = p; recent = q })
            (record {
              pins = p;
              recent = insert-IsSorted (updated_before date_parse) updated_before-IsStrict row _ q;
            })))
