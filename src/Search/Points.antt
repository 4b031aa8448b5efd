-- ===== src/Search/Points.antt =====
-- The points that the walk over the document gives the units of the text that is searched
-- (frontend/src/search/searchText.ts). `content` is the text of the text node with a number.
use mathlib.Core.Path.{subst}
use ichat.Base.{
  ℕ, ◌+◌, ◌≡◌, refl, sym, ◌∙◌, Bool, true, false, not, ◌&&◌, ◌||◌, Option, none, some, List, [],
  ◌∷◌, Text, codes, is_empty, length, is_space, includes, text_eq, if◌then◌else◌, All, arith,
  Bool-cases, inl, inr,
}
use ichat.Search.VisibleText.{
  TextPoint, SearchText, Node, text_node, element, other_node, Nodes, no_nodes, node, blocks,
  characters, ends_with_space, is_white, extend_space, append, append_all, space, walk, walk_all,
  build_visible_search_text,
}
use ichat.Messages.Math.{concat}
use ichat.Search.Tidy.{is_single, build_visible_search_text-IsTidy}
use ichat.Search.Located.{
  AtFrom, AtFrom-append, AtFrom-self, Character, one, two, characters-Character, StartsWhite,
  EndsWhite, Describes, DescribesAll, Pointed, done, Pointed-append, Pointed-blank, Pointed-units,
  Pointed-set_last, Pointed-drop_last,
}

module _ (content : ℕ → Text) where
  record IsPointed (o : SearchText) : Type 0 where
    pointed : Pointed content o.text o.starts o.ends

  extend_space-Pointed :
      (end : Option TextPoint) (o : SearchText)
      → ends_with_space o.text ≡ true
      → EndsWhite content end
      → IsPointed o
      → IsPointed (extend_space end o)
  extend_space-Pointed none o e b h = h
  extend_space-Pointed (some q) o e b h = record {
    pointed = Pointed-set_last content q h.pointed e b;
  }

  -- White space, with the points where it starts and ends or with none.
  append_white-Pointed :
      (char : Text) (start end : Option TextPoint) (o : SearchText)
      → is_white char ≡ true
      → StartsWhite content start
      → EndsWhite content end
      → IsPointed o
      → IsPointed (append char start end o)
  unfolding append
  append_white-Pointed char start end o w a b h = elim (Bool-cases (ends_with_space o.text)) [
    | inl e ↦ rw (w, e, append) (extend_space-Pointed end o e b h)
    | inr e ↦ elim (Bool-cases (is_empty o.text)) [
      | inl k ↦ rw (w, e, k, append) h
      | inr k ↦
          rw (w, e, k, append)
            (record {
              pointed = Pointed-append content h.pointed (Pointed-blank content start end a b);
            })
    ]
  ]

  append_visible-Pointed :
      (id k : ℕ) (char : Text) (o : SearchText)
      → is_white char ≡ false
      → AtFrom (content id) k char
      → IsPointed o
      → IsPointed (
          append char
            (some (record { node = id; offset = k }))
            (some (record { node = id; offset = k + length char }))
            o)
  unfolding append
  append_visible-Pointed id k char o w a h =
      rw (w, append)
        (record {
          pointed = Pointed-append content h.pointed (
              Pointed-units content (record { node = id; offset = k })
                (record { node = id; offset = k + length char }) (length char) 0 char w
                (subst (λ (n : ℕ). AtFrom (content id) n char) (omega arith) a) refl refl);
        })

  -- A character of a text node that stands from `k` on.
  append-Pointed :
      (id k : ℕ) (char : Text) (o : SearchText)
      → Character char
      → AtFrom (content id) k char
      → IsPointed o
      → IsPointed (
          append char
            (some (record { node = id; offset = k }))
            (some (record { node = id; offset = k + length char }))
            o)
  append-Pointed id k char o (two c d u v) a h =
      append_visible-Pointed id k (c ∷ d ∷ []) o (rw (u, v) refl) a h
  append-Pointed id k char o (one c) (a, b) h = elim (Bool-cases (is_space c)) [
    | inl e ↦
        append_white-Pointed (c ∷ []) _ _ o (rw e refl) (c, a, e) (k, omega arith, (c, a, e)) h
    | inr e ↦ append_visible-Pointed id k (c ∷ []) o (rw e refl) (a, b) h
  ]

  append_all-Pointed :
      (id : ℕ) (chars : List Text) (k : ℕ) (o : SearchText)
      → All Character chars
      → AtFrom (content id) k (concat chars)
      → IsPointed o
      → IsPointed (append_all id k chars o)
  unfolding append_all
  append_all-Pointed id [] k o cs a h = h
  append_all-Pointed id (char ∷ rest) k o (c, cs) a h =
      let parts = AtFrom-append (content id) k char (concat rest) a in
      append_all-Pointed id rest (k + length char) _ cs parts.1
        (append-Pointed id k char o c parts.0 h)

  text_node-Pointed :
      (id : ℕ) (s : Text) (o : SearchText)
      → content id ≡ s
      → IsPointed o
      → IsPointed (append_all id 0 (characters s) o)
  text_node-Pointed id s o e h =
      append_all-Pointed id (characters s) 0 o (characters-Character s).0
        (subst (AtFrom (content id) 0) (e ∙ sym (characters-Character s).1)
          (AtFrom-self (content id)))
        h

  space-Pointed : (o : SearchText) → IsPointed o → IsPointed (space o)
  space-Pointed o h = append_white-Pointed (codes " ") none none o (unfold is_space in refl) tt tt h

  before-Pointed : (b : Bool) (o : SearchText) → IsPointed o → IsPointed (if b then space o else o)
  before-Pointed true o h = space-Pointed o h
  before-Pointed false o h = h

  mutual
    unfolding walk walk_all

    walk-Pointed :
        (is_root : Bool) (n : Node) (o : SearchText)
        → Describes content n
        → IsPointed o
        → IsPointed (walk is_root n o)
    walk-Pointed is_root (text_node id s) o d h = text_node-Pointed id s o d h
    walk-Pointed is_root other_node o d h = h
    walk-Pointed is_root (element tag true children) o d h = space-Pointed o h
    walk-Pointed is_root (element tag false children) o d h =
        before-Pointed (includes blocks tag && not is_root) _ (
          walk_all-Pointed children _ d
            (before-Pointed (includes blocks tag && not is_root || text_eq tag (codes "BR")) o h))

    walk_all-Pointed :
        (ns : Nodes) (o : SearchText)
        → DescribesAll content ns
        → IsPointed o
        → IsPointed (walk_all ns o)
    walk_all-Pointed no_nodes o d h = h
    walk_all-Pointed (node n ns) o (d, ds) h =
        walk_all-Pointed ns (walk false n o) ds (walk-Pointed false n o d h)

  -- What is promised of the text that is searched.
  pub record IsAligned (o : SearchText) : Type 0 where
    pub single : is_single true o.text ≡ true
    pub closed : ends_with_space o.text ≡ false
    pub located : Pointed content o.text o.starts o.ends

  -- Of any document whose text nodes have the texts that their numbers name: the text that is searched
  -- has no two spaces in a row, none at the front and none at the end; it has as many starts and ends
  -- as units; a unit that is no space has a start and an end, in one text node, and is the unit of
  -- this node between them; a space starts at white space of a text node, where it has a start, and
  -- ends after white space of a text node, where it has an end.
  pub build_visible_search_text-IsAligned :
      (root : Node) → Describes content root → IsAligned (build_visible_search_text root)
  unfolding build_visible_search_text
  build_visible_search_text-IsAligned root d =
      let o = walk true root (record { text = []; starts = []; ends = [] }) in
      let h : IsPointed o = walk-Pointed true root _ d (record { pointed = done }) in
      let tidy = build_visible_search_text-IsTidy root in
      record {
        single = tidy.0.single;
        closed = tidy.1;
        located = elim (Bool-cases (ends_with_space o.text)) [
          | inl e ↦ rw (e, build_visible_search_text) (Pointed-drop_last content h.pointed)
          | inr e ↦ rw (e, build_visible_search_text) h.pointed
        ];
      }
