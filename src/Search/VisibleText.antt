-- ===== src/Search/VisibleText.antt =====
-- `buildVisibleSearchText` (frontend/src/search/searchText.ts). A node of the document is named by a
-- number; of an element its tag is kept and whether `excluded` matches it.
use ichat.Base.{
  ℕ, suc, ◌+◌, ◌-◌, Bool, true, false, not, ◌&&◌, ◌||◌, Option, none, some, List, [], ◌∷◌, ◌++◌,
  Text, codes, is_empty, length, includes, is_space, leb, text_eq, ◌==◌, if◌then◌else◌,
}

pub record TextPoint : Type 0 where
  pub node : ℕ
  pub offset : ℕ

pub record SearchText : Type 0 where
  pub text : Text
  pub starts : List (Option TextPoint)
  pub ends : List (Option TextPoint)

mutual
  pub data Node : Type 0 where
    text_node : ℕ → Text → Node
    element : (tag : Text) → (is_excluded : Bool) → Nodes → Node
    other_node : Node

  pub data Nodes : Type 0 where
    no_nodes : Nodes
    node : Node → Nodes → Nodes

abbrev pub blocks : List Text
blocks =
    codes "P"
    ∷ codes "DIV"
    ∷ codes "PRE"
    ∷ codes "BLOCKQUOTE"
    ∷ codes "LI"
    ∷ codes "UL"
    ∷ codes "OL"
    ∷ codes "TABLE"
    ∷ codes "TR"
    ∷ codes "TD"
    ∷ codes "TH"
    ∷ codes "H1"
    ∷ codes "H2"
    ∷ codes "H3"
    ∷ codes "H4"
    ∷ codes "H5"
    ∷ codes "H6"
    ∷ codes "HR"
    ∷ []

-- The characters of a `for` loop over a string: a unit, or a surrogate pair.
abbrev pub attach : ℕ → List Text → List Text
attach c ((d ∷ []) ∷ rest) =
    if leb 0xd800 c && leb c 0xdbff && leb 0xdc00 d && leb d 0xdfff
    then (c ∷ d ∷ []) ∷ rest
    else (c ∷ []) ∷ (d ∷ []) ∷ rest
attach c rest = (c ∷ []) ∷ rest

abbrev pub characters : Text → List Text
characters [] = []
characters (c ∷ s) = attach c (characters s)

-- `text.endsWith(" ")`.
abbrev pub ends_with_space : Text → Bool
ends_with_space [] = false
ends_with_space (c ∷ []) = c == 0x20
ends_with_space (c ∷ d ∷ s) = ends_with_space (d ∷ s)

-- `/\s/.test(char)`.
abbrev pub is_white : Text → Bool
is_white [] = false
is_white (c ∷ s) = is_space c || is_white s

abbrev pub set_last : Option TextPoint → List (Option TextPoint) → List (Option TextPoint)
set_last p [] = []
set_last p (x ∷ []) = p ∷ []
set_last p (x ∷ y ∷ s) = x ∷ set_last p (y ∷ s)

-- The points of the units of a character, from unit `i` on.
abbrev pub starts_from : Option TextPoint → ℕ → Text → List (Option TextPoint)
starts_from p i [] = []
starts_from none i (c ∷ s) = none ∷ starts_from none (suc i) s
starts_from (some p) i (c ∷ s) =
    some (record p { offset = p.offset + i }) ∷ starts_from (some p) (suc i) s

abbrev pub ends_from : Option TextPoint → ℕ → ℕ → Text → List (Option TextPoint)
ends_from p n i [] = []
ends_from none n i (c ∷ s) = none ∷ ends_from none n (suc i) s
ends_from (some p) n i (c ∷ s) =
    some (record p { offset = p.offset - n + i + 1 }) ∷ ends_from (some p) n (suc i) s

-- The end of `append`.
abbrev pub push_character : Text → Option TextPoint → Option TextPoint → SearchText → SearchText
push_character char start end o = record {
  text = o.text ++ char;
  starts = o.starts ++ starts_from start 0 char;
  ends = o.ends ++ ends_from end (length char) 0 char;
}

-- A space after a space moves its end.
abbrev pub extend_space : Option TextPoint → SearchText → SearchText
extend_space none o = o
extend_space (some p) o = record o { ends = set_last (some p) o.ends }

unfoldable pub append : Text → Option TextPoint → Option TextPoint → SearchText → SearchText
unfolding is_space
append char start end o =
    if is_white char
    then if ends_with_space o.text
      then extend_space end o
      else if is_empty o.text
      then o
      else push_character (codes " ") start end o
    else push_character char start end o

-- The loop over the characters of a text node.
unfoldable pub append_all : ℕ → ℕ → List Text → SearchText → SearchText
unfolding append
append_all id offset [] o = o
append_all id offset (char ∷ rest) o = append_all id (offset + length char) rest (
    append char (some (record { node = id; offset = offset }))
      (some (record { node = id; offset = offset + length char })) o)

abbrev pub space : SearchText → SearchText
space o = append (codes " ") none none o

-- `walk`; `is_root` tells that the node is the root.
unfoldable mutual
  unfolding append append_all text_eq

  pub walk : Bool → Node → SearchText → SearchText
  walk is_root (text_node id s) o = append_all id 0 (characters s) o
  walk is_root other_node o = o
  walk is_root (element tag is_excluded children) o =
      let is_block = includes blocks tag && not is_root in
      let before = if is_block || text_eq tag (codes "BR") then space o else o in
      let inside = walk_all children before in
      if is_excluded then space o else if is_block then space inside else inside

  pub walk_all : Nodes → SearchText → SearchText
  walk_all no_nodes o = o
  walk_all (node n ns) o = walk_all ns (walk false n o)

abbrev pub drop_last {ℓ} : {A : Type ℓ} → List A → List A
drop_last [] = []
drop_last (x ∷ []) = []
drop_last (x ∷ y ∷ s) = x ∷ drop_last (y ∷ s)

unfoldable pub build_visible_search_text : Node → SearchText
unfolding walk
build_visible_search_text root =
    let o = walk true root (record { text = []; starts = []; ends = [] }) in
    if ends_with_space o.text
    then record { text = drop_last o.text; starts = drop_last o.starts; ends = drop_last o.ends }
    else o
