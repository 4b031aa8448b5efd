-- ===== src/Messages/Resolved.antt =====
-- Which source a citation resolves to (frontend/src/messages/sourceUtils.ts).
use ichat.Base.{
  ℕ, ◌≡◌, refl, sym, ap, ◌∙◌, Bool, true, false, not, ◌&&◌, ◌||◌, Option, none, some, List, [], ◌∷◌,
  ◌++◌, any, filter, find, or_option, text_eq, text_eq_refl, ◌==◌, ==_iff, if◌then◌else◌, arith,
  Bool-cases, inl, inr,
}
use ichat.Api.Types.{MessageResponse, MessageSource}
use ichat.Messages.Sources.{
  Collected, has_source_id, has_number, note, collect, all_sources, conversation_sources,
}

-- The source has the id and another URL than the first one with this id.
abbrev pub clashes : ℕ → Option MessageSource → MessageSource → Bool
clashes id none s = false
clashes id (some first) s = s.id == id && not (text_eq first.url s.url)

-- The first source with the id, unless another URL is bound to the id too.
abbrev pub resolved : ℕ → List MessageSource → Option MessageSource
resolved id sources =
    let first = find (has_source_id id) sources in
    if any (clashes id first) sources then none else first

find-append :
    (p : MessageSource → Bool) (xs ys : List MessageSource)
    → find p (xs ++ ys) ≡ or_option (find p xs) (find p ys)
find-append p [] ys = refl
find-append p (x ∷ xs) ys = ground (arith, find-append p xs ys)

find-filter :
    (id : ℕ) (ids : List ℕ) (xs : List MessageSource)
    → find (has_source_id id) (filter (λ (s : MessageSource). not (has_number s.id ids)) xs)
      ≡ (if has_number id ids then none else find (has_source_id id) xs)
find-filter id ids [] = ground arith
find-filter id ids (x ∷ xs) = elim (Bool-cases (x.id == id)) [
  | inl e ↦ ground (arith, find-filter id ids xs, ap (λ i. has_number i ids) ((==_iff x.id id).0 e))
  | inr e ↦ ground (arith, find-filter id ids xs)
]

note-by_id :
    (id : ℕ) (x : MessageSource) (c : Collected) (o : Option MessageSource)
    → find (has_source_id x.id) c.by_id ≡ o
    → find (has_source_id id) (note o x c).by_id
      ≡ or_option (find (has_source_id id) c.by_id) (if x.id == id then some x else none)
note-by_id id x c none h = find-append (has_source_id id) c.by_id (x ∷ [])
note-by_id id x c (some y) h = elim (Bool-cases (x.id == id)) [
  | inl e ↦ ground (arith, h, ap (λ i. find (has_source_id i) c.by_id) ((==_iff x.id id).0 e))
  | inr e ↦ ground arith
]

collect-by_id :
    (id : ℕ) (xs : List MessageSource) (c : Collected)
    → find (has_source_id id) (collect xs c).by_id
      ≡ or_option (find (has_source_id id) c.by_id) (find (has_source_id id) xs)
unfolding collect
collect-by_id id [] c = ground arith
collect-by_id id (x ∷ xs) c =
    collect-by_id id xs (note (find (has_source_id x.id) c.by_id) x c)
    ∙ ground (arith, note-by_id id x c (find (has_source_id x.id) c.by_id) refl)

clashes-other :
    (id : ℕ) (o : Option MessageSource) (x : MessageSource)
    → (x.id == id) ≡ false
    → clashes id o x ≡ false
clashes-other id none x e = refl
clashes-other id (some y) x e = ground arith

find-same :
    (id : ℕ) (x : MessageSource) (xs : List MessageSource) (o : Option MessageSource)
    → (x.id == id) ≡ true
    → find (has_source_id x.id) xs ≡ o
    → find (has_source_id id) xs ≡ o
find-same id x xs o e h = ap (λ i. find (has_source_id i) xs) (sym ((==_iff x.id id).0 e)) ∙ h

-- The step of the ids that are bound to different URLs.
note-ambiguous :
    (id : ℕ) (x : MessageSource) (c : Collected) (o : Option MessageSource)
    → find (has_source_id x.id) c.by_id ≡ o
    → has_number id (note o x c).ambiguous ≡ (
        has_number id c.ambiguous
        || clashes id
            (or_option (find (has_source_id id) c.by_id) (if x.id == id then some x else none))
            x)
note-ambiguous id x c none h = elim (Bool-cases (x.id == id)) [
  | inl e ↦ rw (find-same id x c.by_id none e h) (ground (arith, text_eq_refl x.url))
  | inr e ↦ ground (arith, clashes-other id _ x e)
]
note-ambiguous id x c (some y) h = elim (Bool-cases (x.id == id)) [
  | inl e ↦ rw (find-same id x c.by_id (some y) e h) (ground arith)
  | inr e ↦ rw (clashes-other id _ x e) (ground arith)
]

or_option-first :
    (b : Bool) (o r : Option MessageSource) (x : MessageSource)
    → or_option (or_option o (if b then some x else none)) r ≡ or_option o (if b then some x else r)
or_option-first true none r x = refl
or_option-first false none r x = refl
or_option-first b (some y) r x = refl

clashes-first :
    (id : ℕ) (o r : Option MessageSource) (x : MessageSource)
    → clashes id (or_option o (if x.id == id then some x else none)) x
      ≡ clashes id (or_option o (if x.id == id then some x else r)) x
clashes-first id o r x = elim (Bool-cases (x.id == id)) [
  | inl e ↦ rw e refl
  | inr e ↦ clashes-other id _ x e ∙ sym (clashes-other id _ x e)
]

or_assoc : (a b c : Bool) → ((a || b) || c) ≡ (a || (b || c))
or_assoc true b c = refl
or_assoc false b c = refl

collect-ambiguous :
    (id : ℕ) (xs : List MessageSource) (c : Collected)
    → has_number id (collect xs c).ambiguous ≡ (
        has_number id c.ambiguous
        || any
            (clashes id (or_option (find (has_source_id id) c.by_id) (find (has_source_id id) xs)))
            xs)
unfolding collect
collect-ambiguous id [] c = ground arith
collect-ambiguous id (x ∷ xs) c =
    let o = find (has_source_id x.id) c.by_id in
    let first = find (has_source_id id) c.by_id in
    let later = find (has_source_id id) xs in
    collect-ambiguous id xs (note o x c)
    ∙ rw (note-ambiguous id x c o refl) (
        rw (note-by_id id x c o refl) (
          rw (or_option-first (x.id == id) first later x)
            (rw (clashes-first id first later x) (or_assoc (has_number id c.ambiguous) _ _))))

-- A citation resolves to the first source of the thread with its id, in the whole thread, unless the id
-- is bound to different URLs.
pub conversation_sources-resolved :
    (id : ℕ) (messages : List MessageResponse)
    → find (has_source_id id) (conversation_sources messages) ≡ resolved id (all_sources messages)
unfolding conversation_sources
conversation_sources-resolved id messages =
    let start : Collected = record { by_id = []; ambiguous = [] } in
    let sources = all_sources messages in
    find-filter id (collect sources start).ambiguous (collect sources start).by_id
    ∙ rw (collect-ambiguous id sources start) (rw (collect-by_id id sources start) refl)
