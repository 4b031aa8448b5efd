-- ===== src/Conversation/Titles.antt =====
-- Titles that are awaited, over time (frontend/src/conversations/useConversationListSync.ts).
use ichat.Base.{
  ℕ, ◌+◌, ◌≡◌, refl, ap, ◌∙◌, Bool, true, not, ◌&&◌, Option, none, some, List, [], ◌∷◌, ◌++◌, Text,
  any, filter, includes, includes-filter, text_eq, text_eq_sound, text_eq_sym, is_some, leb,
  or_else, or_option, if◌then◌else◌, arith,
}
use ichat.App.Action
use ichat.App.Store.{AppState, root_reducer}
use ichat.Conversation.Index.{conversation_index_reducer}
use ichat.Conversation.Sync.{since, add_pending, note_pending, expire_titles}

since-append :
    (xs ys : List (Text × ℕ)) (id : Text)
    → since (xs ++ ys) id ≡ or_option (since xs id) (since ys id)
since-append [] ys id = refl
since-append ((key, time) ∷ xs) ys id = ground (arith, since-append xs ys id)

since-eq : (xs : List (Text × ℕ)) (a b : Text) → text_eq a b ≡ true → since xs a ≡ since xs b
since-eq xs a b h = ap (since xs) (text_eq_sound a b h)

-- An awaited title keeps its time, and a new one gets the present time.
since-add_pending :
    (now : ℕ) (ids : List Text) (entries : List (Text × ℕ)) (id : Text)
    → since (add_pending now ids entries) id
      ≡ or_option (since entries id) (if includes ids id then some now else none)
unfolding add_pending
since-add_pending now [] entries id = ground arith
since-add_pending now (x ∷ ids) entries id =
    since-add_pending now ids
      (if is_some (since entries x) then entries else entries ++ (x, now) ∷ []) id
    ∙ ground (arith, since-append entries ((x, now) ∷ []) id, since-eq entries x id)

since-filter :
    (p : Text → Bool) (entries : List (Text × ℕ)) (id : Text)
    → since (filter (λ e. p e.0) entries) id ≡ (if p id then since entries id else none)
since-filter p [] id = ground arith
since-filter p ((key, time) ∷ entries) id =
    ground (
      arith,
      since-filter p entries id,
      λ (h : text_eq key id ≡ true). ap p (text_eq_sound key id h),
    )

-- Exactly the pending titles are awaited: each since the time it was first noted.
pub since-note_pending :
    (now : ℕ) (ids : List Text) (entries : List (Text × ℕ)) (id : Text)
    → since (note_pending now ids entries) id
      ≡ (if includes ids id then some (or_else (since entries id) now) else none)
unfolding note_pending
since-note_pending now ids entries id =
    since-filter (includes ids) (add_pending now ids entries) id
    ∙ ground (arith, since-add_pending now ids entries id)

-- An entry of this id that is too old.
abbrev pub is_overdue : ℕ → ℕ → Text → Text × ℕ → Bool
is_overdue timeout now id (key, time) = text_eq key id && leb (time + timeout) now

module _ (date_parse : Text → Option ℕ) where
  -- A tick gives up exactly the titles with an entry that is too old.
  pub includes-expire_titles :
      (timeout now : ℕ) (entries : List (Text × ℕ)) (s : AppState) (id : Text)
      → includes
          (expire_titles date_parse timeout now entries s).conversation_index.pending_title_ids
          id
        ≡ (includes s.conversation_index.pending_title_ids id
            && not (any (is_overdue timeout now id) entries))
  unfolding expire_titles root_reducer conversation_index_reducer
  includes-expire_titles timeout now [] s id = ground arith
  includes-expire_titles timeout now ((key, time) ∷ entries) s id =
      includes-expire_titles timeout now entries
        (if leb (time + timeout) now
          then root_reducer date_parse s (Action.title_resolved key)
          else s)
        id
      ∙ ground (
        arith,
        includes-filter (λ x. not (text_eq x key)) s.conversation_index.pending_title_ids id,
        text_eq_sym id key,
      )
