-- ===== src/Messages/Math.antt =====
-- `clampStreamingMath` (frontend/src/messages/mathDelimiters.ts). `split` is the `String.split` by
-- `CODE_REGION`: the text outside code and the code regions in turn, starting with text.
use ichat.Base.{
  ℕ, suc, ◌+◌, ◌%◌, Bool, false, not, ◌&&◌, Option, none, some, List, [], ◌∷◌, ◌++◌, Text, codes,
  take, starts_with, ◌==◌, if◌then◌else◌,
}

-- `text.match(/\$\$/g)?.length ?? 0`, after a dollar that is not yet part of a match or none.
unfoldable pub pairs_after : Bool → Text → ℕ
pairs_after pending [] = 0
pairs_after pending (c ∷ s) =
    let rest = pairs_after (not pending && c == 0x24) s in
    if pending && c == 0x24 then suc rest else rest

-- `text.lastIndexOf("$$")`, `none` for -1.
unfoldable pub last_pair : Text → Option ℕ
unfolding starts_with
last_pair [] = none
last_pair (c ∷ s) = elim (last_pair s) [
  | some i ↦ some (suc i)
  | none ↦ if starts_with (codes "$$") (c ∷ s) then some 0 else none
]

-- `parts.join("")`.
abbrev pub concat : List Text → Text
concat [] = []
concat (p ∷ parts) = p ++ concat parts

-- The first loop; every second part is code.
unfoldable pub count_outside : Bool → List Text → ℕ
unfolding pairs_after
count_outside is_code [] = 0
count_outside is_code (p ∷ parts) =
    let rest = count_outside (not is_code) parts in
    if is_code then rest else pairs_after false p + rest

-- The second loop: the parts up to the last text with a pair, cut before it.
unfoldable pub cut_parts : Bool → List Text → Option (List Text)
unfolding last_pair
cut_parts is_code [] = none
cut_parts is_code (p ∷ parts) = elim (cut_parts (not is_code) parts) [
  | some rest ↦ some (p ∷ rest)
  | none ↦
      if is_code then none else elim (last_pair p) [ none ↦ none | some i ↦ some (take i p ∷ []) ]
]

unfoldable pub clamp_streaming_math : (Text → List Text) → Text → Text
unfolding count_outside cut_parts
clamp_streaming_math split markdown =
    if count_outside false (split markdown) % 2 == 0
    then markdown
    else elim (cut_parts false (split markdown)) [ none ↦ markdown | some parts ↦ concat parts ]
