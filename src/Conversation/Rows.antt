-- ===== src/Conversation/Rows.antt =====
-- Rows of the conversation lists and the helpers of frontend/src/conversations/state.ts that work
-- on plain lists of them. `Date.parse` is the parameter `date_parse`: `none` stands for NaN, and a
-- number counts the milliseconds from the earliest date that JavaScript represents.
use ichat.Base.{
  ℕ, Bool, false, not, ◌||◌, Option, none, some, List, [], ◌∷◌, ◌++◌, Text, map, filter, find_last,
  includes, text_eq, option_is, ltb, leb, if◌then◌else◌,
}
use ichat.Api.Types.{ConversationResponse}

abbrev pub ids : List ConversationResponse → List Text
ids [] = []
ids (c ∷ cs) = c.id ∷ ids cs

-- `(c) => c.id === id`.
abbrev pub has_id : Text → ConversationResponse → Bool
has_id id c = text_eq c.id id

-- `markUnread`.
unfoldable pub mark_unread : List Text → Text → Option Text → List Text
mark_unread unread_ids id selected_id =
    if option_is selected_id id || includes unread_ids id then unread_ids else unread_ids ++ id ∷ []

-- `list.filter((c) => !idsOfOther.has(c.id))`.
unfoldable pub without : List Text → List ConversationResponse → List ConversationResponse
without other cs = filter (λ c. not (includes other c.id)) cs

-- `ids.filter((x) => x !== id)`.
abbrev pub drop_id : Text → List Text → List Text
drop_id id xs = filter (λ x. not (text_eq x id)) xs

-- `list.filter((c) => c.id !== id)`.
abbrev pub drop_row : Text → List ConversationResponse → List ConversationResponse
drop_row id cs = filter (λ c. not (text_eq c.id id)) cs

module _ (date_parse : Text → Option ℕ) where
  -- `Date.parse(a) < Date.parse(b)`, false where one of them is NaN.
  unfoldable pub date_lt : Text → Text → Bool
  date_lt a b = elim (date_parse a) [
    | none ↦ false
    | some m ↦ elim (date_parse b) [ none ↦ false | some n ↦ ltb m n ]
  ]

  -- `Date.parse(a) >= Date.parse(b)`.
  unfoldable pub date_ge : Text → Text → Bool
  date_ge a b = elim (date_parse a) [
    | none ↦ false
    | some m ↦ elim (date_parse b) [ none ↦ false | some n ↦ leb n m ]
  ]

  -- The callback of `page.map` in `mergeFirstPage`.
  unfoldable pub newer_row : List ConversationResponse → ConversationResponse → ConversationResponse
  unfolding date_lt
  newer_row current incoming = elim (find_last (has_id incoming.id) current) [
    | none ↦ incoming
    | some local ↦ if date_lt incoming.updated_at local.updated_at then local else incoming
  ]

  -- `mergeFirstPage`.
  unfoldable pub merge_first_page :
      List ConversationResponse → List ConversationResponse → List ConversationResponse
  unfolding newer_row without
  merge_first_page current page = map (newer_row current) page ++ without (ids page) current
