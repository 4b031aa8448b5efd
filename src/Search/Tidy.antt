-- ===== src/Search/Tidy.antt =====
-- The spaces of the text that is searched (frontend/src/search/searchText.ts).
use ichat.Base.{
  ℕ, ◌+◌, ◌≡◌, refl, ◌∙◌, Bool, true, false, not, ◌&&◌, ◌||◌, Option, none, some, List, [], ◌∷◌,
  ◌++◌, Text, codes, is_empty, length, is_space, includes, text_eq, ◌==◌, if◌then◌else◌, arith,
  Bool-cases, inl, inr,
}
use ichat.Search.VisibleText.{
  TextPoint, SearchText, Node, text_node, element, other_node, Nodes, no_nodes, node, blocks,
  characters, ends_with_space, is_white, push_character, extend_space, append, append_all, space,
  walk, walk_all, drop_last, build_visible_search_text,
}

-- No space follows a space, or stands at the front where `open` says so.
abbrev pub is_single : Bool → Text → Bool
is_single open_space [] = true
is_single open_space (c ∷ s) = not (open_space && c == 0x20) && is_single (c == 0x20) s

-- No two spaces stand in a row and none at the front.
pub record IsTidy (o : SearchText) : Type 0 where
  pub single : is_single true o.text ≡ true

-- Whether the text leaves an open space.
abbrev is_open : Bool → Text → Bool
is_open open_space [] = open_space
is_open open_space (c ∷ s) = is_open (c == 0x20) s

is_single-append :
    (b : Bool) (s t : Text) → is_single b (s ++ t) ≡ (is_single b s && is_single (is_open b s) t)
is_single-append b [] t = refl
is_single-append b (c ∷ s) t = ground (arith, is_single-append (c == 0x20) s t)

is_open-ends_with_space :
    (b : Bool) (c : ℕ) (s : Text) → is_open b (c ∷ s) ≡ ends_with_space (c ∷ s)
is_open-ends_with_space b c [] = refl
is_open-ends_with_space b c (d ∷ s) = is_open-ends_with_space (c == 0x20) d s

is_open-text : (s : Text) → ends_with_space s ≡ false → is_empty s ≡ false → is_open true s ≡ false
is_open-text [] h k = cc
is_open-text (c ∷ s) h k = is_open-ends_with_space true c s ∙ h

is_space-blank : (c : ℕ) → is_space c ≡ false → (c == 0x20) ≡ false
unfolding is_space
is_space-blank c h = ground arith

is_single-character : (b : Bool) (char : Text) → is_white char ≡ false → is_single b char ≡ true
is_single-character b [] h = refl
is_single-character b (c ∷ s) h =
    ground (arith, is_space-blank c, is_single-character (c == 0x20) s)

push_character-IsTidy :
    (char : Text) (start end : Option TextPoint) (o : SearchText)
    → is_single (is_open true o.text) char ≡ true
    → IsTidy o
    → IsTidy (push_character char start end o)
push_character-IsTidy char start end o k h = record {
  single = is_single-append true o.text char ∙ ground (arith, h.single, k);
}

extend_space-IsTidy :
    (end : Option TextPoint) (o : SearchText) → IsTidy o → IsTidy (extend_space end o)
extend_space-IsTidy none o h = h
extend_space-IsTidy (some p) o h = record { single = h.single }

append-IsTidy :
    (char : Text) (start end : Option TextPoint) (o : SearchText)
    → IsTidy o
    → IsTidy (append char start end o)
unfolding append
append-IsTidy char start end o h = elim (Bool-cases (is_white char)) [
  | inl w ↦ elim (Bool-cases (ends_with_space o.text)) [
    | inl e ↦ rw (w, e, append) (extend_space-IsTidy end o h)
    | inr e ↦ elim (Bool-cases (is_empty o.text)) [
      | inl k ↦ rw (w, e, k, append) h
      | inr k ↦
          rw (w, e, k, append)
            (push_character-IsTidy (codes " ") start end o (ground (arith, is_open-text o.text e k))
              h)
    ]
  ]
  | inr w ↦ rw (w, append) (push_character-IsTidy char start end o (is_single-character _ char w) h)
]

append_all-IsTidy :
    (id : ℕ) (chars : List Text) (offset : ℕ) (o : SearchText)
    → IsTidy o
    → IsTidy (append_all id offset chars o)
unfolding append_all
append_all-IsTidy id [] offset o h = h
append_all-IsTidy id (char ∷ rest) offset o h = append_all-IsTidy id rest (offset + length char) _ (
    append-IsTidy char (some (record { node = id; offset = offset }))
      (some (record { node = id; offset = offset + length char })) o h)

space-IsTidy : (o : SearchText) → IsTidy o → IsTidy (space o)
space-IsTidy o h = append-IsTidy (codes " ") none none o h

before-IsTidy : (b : Bool) (o : SearchText) → IsTidy o → IsTidy (if b then space o else o)
before-IsTidy true o h = space-IsTidy o h
before-IsTidy false o h = h

mutual
  unfolding walk walk_all

  walk-IsTidy : (is_root : Bool) (n : Node) (o : SearchText) → IsTidy o → IsTidy (walk is_root n o)
  walk-IsTidy is_root (text_node id s) o h = append_all-IsTidy id (characters s) 0 o h
  walk-IsTidy is_root other_node o h = h
  walk-IsTidy is_root (element tag true children) o h = space-IsTidy o h
  walk-IsTidy is_root (element tag false children) o h =
      before-IsTidy (includes blocks tag && not is_root) _ (
        walk_all-IsTidy children _
          (before-IsTidy (includes blocks tag && not is_root || text_eq tag (codes "BR")) o h))

  walk_all-IsTidy : (ns : Nodes) (o : SearchText) → IsTidy o → IsTidy (walk_all ns o)
  walk_all-IsTidy no_nodes o h = h
  walk_all-IsTidy (node n ns) o h = walk_all-IsTidy ns (walk false n o) (walk-IsTidy false n o h)

is_single-drop_last :
    (b : Bool) (s : Text) → is_single b s ≡ true → is_single b (drop_last s) ≡ true
is_single-drop_last b [] h = refl
is_single-drop_last b (c ∷ []) h = refl
is_single-drop_last b (c ∷ d ∷ s) h = ground (arith, is_single-drop_last (c == 0x20) (d ∷ s))

ends_with_space-drop_last :
    (b : Bool) (s : Text)
    → is_single b s ≡ true
    → ends_with_space s ≡ true
    → ends_with_space (drop_last s) ≡ false
ends_with_space-drop_last b [] h k = refl
ends_with_space-drop_last b (c ∷ []) h k = refl
ends_with_space-drop_last b (c ∷ d ∷ []) h k = ground arith
ends_with_space-drop_last b (c ∷ d ∷ e ∷ s) h k =
    ends_with_space-drop_last (c == 0x20) (d ∷ e ∷ s) (ground arith) k

-- Of any document, the text has no two spaces in a row, none at the front and none at the end.
pub build_visible_search_text-IsTidy :
    (root : Node)
    → let o = build_visible_search_text root in IsTidy o × (ends_with_space o.text ≡ false)
unfolding build_visible_search_text
build_visible_search_text-IsTidy root =
    let o = walk true root (record { text = []; starts = []; ends = [] }) in
    let h : IsTidy o = walk-IsTidy true root _ (record { single = refl }) in
    elim (Bool-cases (ends_with_space o.text)) [
      | inl e ↦
          rw (e, build_visible_search_text)
            (
              record { single = is_single-drop_last true o.text h.single },
              ends_with_space-drop_last true o.text h.single e,
            )
      | inr e ↦ rw (e, build_visible_search_text) (h, e)
    ]
