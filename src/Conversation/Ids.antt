-- ===== src/Conversation/Ids.antt =====
-- The ids of lists of rows under the list helpers (frontend/src/conversations/state.ts).
use mathlib.Core.Path.{ap₂}
use ichat.Base.{
  ℕ, ◌≡◌, refl, ap, ◌∙◌, Bool, false, not, ◌&&◌, ◌||◌, Option, none, some, List, [], ◌∷◌, ◌++◌, map,
  Text, includes, Distinct, Apart, filter, find, find-holds, find_last, insert_before, text_eq,
  text_eq_sym, text_eq_sound, includes-filter, Distinct-filter, Option-cases, find_last-holds,
  Distinct-append, arith, Bool-cases, inl, inr,
}
use ichat.Api.Types.{ConversationResponse}
use ichat.Conversation.Rows.{ids, has_id, drop_id, drop_row, without, newer_row, merge_first_page}

pub ids-append : (a b : List ConversationResponse) → ids (a ++ b) ≡ ids a ++ ids b
ids-append [] b = refl
ids-append (c ∷ a) b = ap (λ t. c.id ∷ t) (ids-append a b)

-- A map that keeps each row's id keeps the list of ids.
pub ids-map :
    (f : ConversationResponse → ConversationResponse)
    → ((c : ConversationResponse) → (f c).id ≡ c.id)
    → (cs : List ConversationResponse) → ids (map f cs) ≡ ids cs
ids-map f h [] = refl
ids-map f h (c ∷ cs) = λ i. h c i ∷ ids-map f h cs i

-- A filter that looks at the id alone.
pub ids-filter :
    (p : Text → Bool) (cs : List ConversationResponse)
    → ids (filter (λ c. p c.id) cs) ≡ filter p (ids cs)
ids-filter p [] = refl
ids-filter p (c ∷ cs) = elim (Bool-cases (p c.id)) [
  | inl e ↦ rw (e) (ap (λ t. c.id ∷ t) (ids-filter p cs))
  | inr e ↦ rw (e) (ids-filter p cs)
]

pub includes-filter_row :
    (p : ConversationResponse → Bool) (cs : List ConversationResponse) (t : Text)
    → includes (ids cs) t ≡ false
    → includes (ids (filter p cs)) t ≡ false
includes-filter_row p [] t h = refl
includes-filter_row p (c ∷ cs) t h = ground (arith, includes-filter_row p cs t)

pub Distinct-filter_row :
    (p : ConversationResponse → Bool) (cs : List ConversationResponse)
    → Distinct (ids cs)
    → Distinct (ids (filter p cs))
Distinct-filter_row p [] h = tt
Distinct-filter_row p (c ∷ cs) h =
    ground (arith, Distinct-filter_row p cs h.1, includes-filter_row p cs c.id h.0)

pub includes-insert_before :
    (p : ConversationResponse → Bool) (r : ConversationResponse) (cs : List ConversationResponse)
    (t : Text)
    → includes (ids (insert_before p r cs)) t ≡ (text_eq r.id t || includes (ids cs) t)
includes-insert_before p r [] t = refl
includes-insert_before p r (c ∷ cs) t = ground (arith, includes-insert_before p r cs t)

pub Distinct-insert_before :
    (p : ConversationResponse → Bool) (r : ConversationResponse) (cs : List ConversationResponse)
    → includes (ids cs) r.id ≡ false
    → Distinct (ids cs)
    → Distinct (ids (insert_before p r cs))
Distinct-insert_before p r [] h d = (refl, tt)
Distinct-insert_before p r (c ∷ cs) h d = ground (
  arith,
  Distinct-insert_before p r cs (ground arith) d.1,
  includes-insert_before p r cs c.id,
  text_eq_sym r.id c.id,
)

pub ids-without :
    (other : List Text) (cs : List ConversationResponse)
    → ids (without other cs) ≡ filter (λ t. not (includes other t)) (ids cs)
unfolding without
ids-without other cs = ids-filter (λ t. not (includes other t)) cs

-- What is left is apart from what was taken out.
pub Apart-without : (xs other : List Text) → Apart (filter (λ t. not (includes other t)) xs) other
Apart-without xs other t h = ground (arith, includes-filter (λ x. not (includes other x)) xs t)

pub ids-drop_row :
    (id : Text) (cs : List ConversationResponse) → ids (drop_row id cs) ≡ drop_id id (ids cs)
ids-drop_row id cs = ids-filter (λ t. not (text_eq t id)) cs

pub includes-drop_row :
    (id : Text) (cs : List ConversationResponse) (t : Text)
    → includes (ids (drop_row id cs)) t ≡ (includes (ids cs) t && not (text_eq t id))
includes-drop_row id cs t =
    ap (λ xs. includes xs t) (ids-drop_row id cs)
    ∙ includes-filter (λ x. not (text_eq x id)) (ids cs) t

pub Distinct-drop_row :
    (id : Text) (cs : List ConversationResponse)
    → Distinct (ids cs)
    → Distinct (ids (drop_row id cs))
Distinct-drop_row id cs d =
    rw (ids-drop_row id cs) (Distinct-filter (λ x. not (text_eq x id)) (ids cs) d)

-- A search by id that finds nothing: the id is not there.
pub find-none :
    (id : Text) (cs : List ConversationResponse)
    → find (has_id id) cs ≡ none
    → includes (ids cs) id ≡ false
find-none id [] h = refl
find-none id (c ∷ cs) h = ground (arith, find-none id cs)

-- A search by id that finds a row: it has that id.
pub find-id :
    (id : Text) (cs : List ConversationResponse) (c : ConversationResponse)
    → find (has_id id) cs ≡ some c
    → c.id ≡ id
find-id id cs c h = text_eq_sound c.id id (find-holds (has_id id) cs c h)

module _ (date_parse : Text → Option ℕ) where
  pub newer_row-id :
      (current : List ConversationResponse) (c : ConversationResponse)
      → (newer_row date_parse current c).id ≡ c.id
  unfolding newer_row
  newer_row-id current c = elim (Option-cases (find_last (has_id c.id) current)) [
    | inl e ↦ rw (e, newer_row) refl
    | inr (local, e) ↦
        rw (e, newer_row)
          (ground
            (arith, text_eq_sound local.id c.id (find_last-holds (has_id c.id) current local e)))
  ]

  -- The ids of the merged list: those of the page, then the others.
  pub ids-merge_first_page :
      (current page : List ConversationResponse)
      → ids (merge_first_page date_parse current page)
        ≡ ids page ++ filter (λ t. not (includes (ids page) t)) (ids current)
  unfolding merge_first_page
  ids-merge_first_page current page =
      ids-append (map (newer_row date_parse current) page) _
      ∙ ap₂ ◌++◌ (ids-map (newer_row date_parse current) (newer_row-id current) page)
          (ids-without (ids page) current)

  pub Distinct-merge_first_page :
      (current page : List ConversationResponse)
      → Distinct (ids current)
      → Distinct (ids page)
      → Distinct (ids (merge_first_page date_parse current page))
  Distinct-merge_first_page current page c p = rw (ids-merge_first_page current page) (
      Distinct-append (ids page) _ p (Distinct-filter _ (ids current) c)
        (λ t h. ground (arith, includes-filter (λ x. not (includes (ids page) x)) (ids current) t)))
