-- ===== src/Search/Located.antt =====
-- Where in the document the units of the text that is searched stand
-- (frontend/src/search/searchText.ts). `content` is the text of the text node with a number.
use mathlib.Core.Path.{subst}
use ichat.Base.{
  ℕ, zero, suc, ◌+◌, ◌-◌, ◌≡◌, refl, ap, ◌∙◌, Bool, true, false, ◌&&◌, Option, none, some, List, [],
  ◌∷◌, ◌++◌, Text, codes, length, is_space, All, leb, ◌==◌, arith, Bool-cases, inl, inr,
}
use ichat.Search.VisibleText.{
  TextPoint, Node, text_node, element, other_node, Nodes, no_nodes, node, attach, characters,
  ends_with_space, is_white, set_last, starts_from, ends_from, drop_last,
}
use ichat.Messages.Math.{concat}

-- `s[k]`.
abbrev pub unit_at : Text → ℕ → Option ℕ
unit_at [] k = none
unit_at (c ∷ s) zero = some c
unit_at (c ∷ s) (suc k) = unit_at s k

-- The units `t` stand in `s` from `k` on.
abbrev pub AtFrom : Text → ℕ → Text → Type 0
AtFrom s k [] = Unit {0}
AtFrom s k (c ∷ t) = (unit_at s k ≡ some c) × AtFrom s (suc k) t

AtFrom-shift : (c : ℕ) (s : Text) (k : ℕ) (t : Text) → AtFrom s k t → AtFrom (c ∷ s) (suc k) t
AtFrom-shift c s k [] h = tt
AtFrom-shift c s k (d ∷ t) (e, h) = (e, AtFrom-shift c s (suc k) t h)

pub AtFrom-self : (s : Text) → AtFrom s 0 s
AtFrom-self [] = tt
AtFrom-self (c ∷ s) = (refl, AtFrom-shift c s 0 s (AtFrom-self s))

pub AtFrom-append :
    (s : Text) (k : ℕ) (t u : Text) → AtFrom s k (t ++ u) → AtFrom s k t × AtFrom s (k + length t) u
AtFrom-append s k [] u h = (tt, subst (λ (n : ℕ). AtFrom s n u) (omega arith) h)
AtFrom-append s k (c ∷ t) u (e, h) =
    let ih = AtFrom-append s (suc k) t u h in
    ((e, ih.0), subst (λ (n : ℕ). AtFrom s n u) (omega arith) ih.1)

-- A character of a string: one unit, or a surrogate pair, which is no space.
pub data Character : Text → Type 0 where
  one : (c : ℕ) → Character (c ∷ [])
  two : (c d : ℕ) → is_space c ≡ false → is_space d ≡ false → Character (c ∷ d ∷ [])

-- The test of `attach`.
abbrev is_pair : ℕ → ℕ → Bool
is_pair c d = leb 0xd800 c && leb c 0xdbff && leb 0xdc00 d && leb d 0xdfff

high-visible : (c d : ℕ) → is_pair c d ≡ true → is_space c ≡ false
unfolding is_space
high-visible c d h = ground arith

low-visible : (c d : ℕ) → is_pair c d ≡ true → is_space d ≡ false
unfolding is_space
low-visible c d h = ground arith

attach-Character :
    (c : ℕ) (rest : List Text)
    → All Character rest
    → All Character (attach c rest) × (concat (attach c rest) ≡ c ∷ concat rest)
attach-Character c [] h = ((one c, tt), refl)
attach-Character c ([] ∷ rest) h = ((one c, h), refl)
attach-Character c ((d ∷ []) ∷ rest) (h, hs) = elim (Bool-cases (is_pair c d)) [
  | inl e ↦ rw e ((two c d (high-visible c d e) (low-visible c d e), hs), refl)
  | inr e ↦ rw e ((one c, (one d, hs)), refl)
]
attach-Character c ((d ∷ e ∷ s) ∷ rest) h = ((one c, h), refl)

pub characters-Character : (s : Text) → All Character (characters s) × (concat (characters s) ≡ s)
characters-Character [] = (tt, refl)
characters-Character (c ∷ s) =
    let ih = characters-Character s in
    let step = attach-Character c (characters s) ih.0 in (step.0, step.1 ∙ ap (λ t. c ∷ t) ih.1)

visible-blank : (c : ℕ) → is_space c ≡ false → (c == 0x20) ≡ true → ⊥
unfolding is_space
visible-blank c w e = ground arith

module _ (content : ℕ → Text) where
  -- The numbers of the text nodes of a document name their texts.
  abbrev mutual
    pub Describes : Node → Type 0
    Describes (text_node id s) = content id ≡ s
    Describes (element tag is_excluded children) = DescribesAll children
    Describes other_node = Unit {0}

    pub DescribesAll : Nodes → Type 0
    DescribesAll no_nodes = Unit {0}
    DescribesAll (node n ns) = Describes n × DescribesAll ns

  -- White space stands in a text node.
  abbrev pub WhiteAt : ℕ → ℕ → Type 0
  WhiteAt id k = (c : ℕ) × (unit_at (content id) k ≡ some c) × (is_space c ≡ true)

  abbrev pub StartsWhite : Option TextPoint → Type 0
  StartsWhite none = Unit {0}
  StartsWhite (some p) = WhiteAt p.node p.offset

  abbrev pub EndsWhite : Option TextPoint → Type 0
  EndsWhite none = Unit {0}
  EndsWhite (some q) = (k : ℕ) × (q.offset ≡ suc k) × WhiteAt q.node k

  -- A unit of the text and its points: a unit that is no space stands in a text node just between
  -- them; a space, which may stand for several or for the border of a block, starts at white space
  -- and ends after white space, where it has points.
  pub data Located (c : ℕ) (start end : Option TextPoint) : Type 0 where
    visible :
        (p q : TextPoint)
        → start ≡ some p
        → end ≡ some q
        → is_space c ≡ false
        → unit_at (content p.node) p.offset ≡ some c
        → q.node ≡ p.node
        → q.offset ≡ suc p.offset
        → Located c start end
    blank : c ≡ 0x20 → StartsWhite start → EndsWhite end → Located c start end

  -- Every unit has its points.
  pub data Pointed : Text → List (Option TextPoint) → List (Option TextPoint) → Type 0 where
    done : Pointed [] [] []
    next :
        {c : ℕ} {p q : Option TextPoint} {t : Text} {ps qs : List (Option TextPoint)}
        → Located c p q
        → Pointed t ps qs
        → Pointed (c ∷ t) (p ∷ ps) (q ∷ qs)

  pub Pointed-append :
      {t u : Text} {ps qs rs vs : List (Option TextPoint)}
      → Pointed t ps qs
      → Pointed u rs vs
      → Pointed (t ++ u) (ps ++ rs) (qs ++ vs)
  Pointed-append done k = k
  Pointed-append (next l h) k = next l (Pointed-append h k)

  -- Units of a text node that are no spaces.
  pub Pointed-units :
      (p q : TextPoint) (n i : ℕ) (char : Text)
      → is_white char ≡ false
      → AtFrom (content p.node) (p.offset + i) char
      → q.node ≡ p.node
      → q.offset ≡ p.offset + n
      → Pointed char (starts_from (some p) i char) (ends_from (some q) n i char)
  Pointed-units p q n i [] w h e k = done
  Pointed-units p q n i (c ∷ s) w (u, h) e k =
      next
        (visible (record p { offset = p.offset + i }) (record q { offset = q.offset - n + i + 1 })
          refl refl (ground arith) u e (omega (arith, k)))
        (Pointed-units p q n (suc i) s (ground arith)
          (subst (λ (m : ℕ). AtFrom (content p.node) m s) (omega arith) h) e k)

  -- The first of a list of points, if it is there.
  abbrev first_of : List (Option TextPoint) → Option TextPoint
  first_of [] = none
  first_of (p ∷ ps) = p

  starts_from-white :
      (start : Option TextPoint)
      → StartsWhite start
      → StartsWhite (first_of (starts_from start 0 (codes " ")))
  starts_from-white none h = h
  starts_from-white (some p) h = subst (λ (m : ℕ). WhiteAt p.node m) (omega arith) h

  ends_from-white :
      (end : Option TextPoint)
      → EndsWhite end
      → EndsWhite (first_of (ends_from end 1 0 (codes " ")))
  ends_from-white none h = h
  ends_from-white (some q) (k, e, h) = (k, omega (arith, e), h)

  -- A space that is pushed.
  pub Pointed-blank :
      (start end : Option TextPoint)
      → StartsWhite start
      → EndsWhite end
      → Pointed (codes " ") (starts_from start 0 (codes " ")) (ends_from end 1 0 (codes " "))
  Pointed-blank none none h k = next (blank refl tt tt) done
  Pointed-blank none (some q) h k = next (blank refl tt (ends_from-white (some q) k)) done
  Pointed-blank (some p) none h k = next (blank refl (starts_from-white (some p) h) tt) done
  Pointed-blank (some p) (some q) h k =
      next (blank refl (starts_from-white (some p) h) (ends_from-white (some q) k)) done

  -- The last space gets another end.
  pub Pointed-set_last :
      {t : Text} {ps qs : List (Option TextPoint)} (q : TextPoint)
      → Pointed t ps qs
      → ends_with_space t ≡ true
      → EndsWhite (some q)
      → Pointed t ps (set_last (some q) qs)
  Pointed-set_last q done e k = done
  Pointed-set_last q (next (visible a b i j w u m n) done) e k = absurd (visible-blank _ w e)
  Pointed-set_last q (next (blank w a b) done) e k = next (blank w a k) done
  Pointed-set_last q (next l (next m h)) e k = next l (Pointed-set_last q (next m h) e k)

  pub Pointed-drop_last :
      {t : Text} {ps qs : List (Option TextPoint)}
      → Pointed t ps qs
      → Pointed (drop_last t) (drop_last ps) (drop_last qs)
  Pointed-drop_last done = done
  Pointed-drop_last (next l done) = done
  Pointed-drop_last (next l (next m h)) = next l (Pointed-drop_last (next m h))
