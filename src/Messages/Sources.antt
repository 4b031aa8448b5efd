-- ===== src/Messages/Sources.antt =====
-- `conversationSources` (frontend/src/messages/sourceUtils.ts): the sources of a thread by their id.
use ichat.Base.{
  ℕ, Bool, not, Option, none, some, List, [], ◌∷◌, ◌++◌, any, filter, find, or_else, text_eq, ◌==◌,
  if◌then◌else◌,
}
use ichat.Api.Types.{MessageResponse, MessageSource}

-- The `Map` in the order of its insertions, and the ids that are bound to different URLs.
pub record Collected : Type 0 where
  pub by_id : List MessageSource
  pub ambiguous : List ℕ

abbrev pub has_source_id : ℕ → MessageSource → Bool
has_source_id id s = s.id == id

abbrev pub has_number : ℕ → List ℕ → Bool
has_number id ids = any (λ x. x == id) ids

-- The body of the inner loop, with the entry of the id.
abbrev pub note : Option MessageSource → MessageSource → Collected → Collected
note none source c = record c { by_id = c.by_id ++ source ∷ [] }
note (some existing) source c =
    if text_eq existing.url source.url then c else record c { ambiguous = source.id ∷ c.ambiguous }

unfoldable pub collect : List MessageSource → Collected → Collected
unfolding text_eq
collect [] c = c
collect (source ∷ sources) c =
    collect sources (note (find (has_source_id source.id) c.by_id) source c)

-- `message.metadata?.sources ?? []`.
abbrev pub sources_of : MessageResponse → List MessageSource
sources_of m = elim m.metadata [ none ↦ [] | some d ↦ or_else d.sources [] ]

abbrev pub all_sources : List MessageResponse → List MessageSource
all_sources [] = []
all_sources (m ∷ ms) = sources_of m ++ all_sources ms

unfoldable pub conversation_sources : List MessageResponse → List MessageSource
unfolding collect
conversation_sources messages =
    let c = collect (all_sources messages) (record { by_id = []; ambiguous = [] }) in
    filter (λ (s : MessageSource). not (has_number s.id c.ambiguous)) c.by_id
