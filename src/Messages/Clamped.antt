-- ===== src/Messages/Clamped.antt =====
-- The formulas of a text that streams in (frontend/src/messages/mathDelimiters.ts).
use ichat.Base.{
  ℕ, zero, suc, ◌%◌, ◌≡◌, refl, sym, ap, ◌∙◌, Bool, true, false, not, ◌&&◌, none, some, List, [],
  ◌∷◌, ◌++◌, Text, codes, take, starts_with, ◌==◌, ==_iff, if◌then◌else◌, arith, Bool-cases,
  Option-cases, inl, inr,
}
use ichat.Messages.Math.{
  pairs_after, last_pair, concat, count_outside, cut_parts, clamp_streaming_math,
}

abbrev pub opens : Text → Bool
opens [] = false
opens (c ∷ s) = c == 0x24

starts_with-pair : (c : ℕ) (s : Text) → starts_with (codes "$$") (c ∷ s) ≡ (c == 0x24 && opens s)
unfolding starts_with
starts_with-pair c [] = ground arith
starts_with-pair c (d ∷ s) = ground arith

no_pair :
    (c : ℕ) (s : Text)
    → last_pair (c ∷ s) ≡ none
    → (last_pair s ≡ none) × ((c == 0x24 && opens s) ≡ false)
unfolding last_pair
no_pair c s h = elim (Option-cases (last_pair s)) [
  | inl e ↦ ground (arith, starts_with-pair c s)
  | inr (i, e) ↦ ground arith
]

pairs_after-none :
    (pending : Bool) (s : Text)
    → last_pair s ≡ none
    → (opens s && pending) ≡ false
    → pairs_after pending s ≡ 0
unfolding pairs_after
pairs_after-none pending [] h k = refl
pairs_after-none pending (c ∷ s) h k =
    ground (arith, no_pair c s h, pairs_after-none false s, pairs_after-none true s)

pairs_after-one : (s : Text) → last_pair s ≡ none → opens s ≡ true → pairs_after true s ≡ 1
unfolding pairs_after
pairs_after-one [] h k = cc
pairs_after-one (c ∷ s) h k = ground (arith, no_pair c s h, pairs_after-none false s)

last_pair-here :
    (c : ℕ) (s : Text) (i : ℕ)
    → last_pair s ≡ none
    → last_pair (c ∷ s) ≡ some i
    → (i ≡ 0) × ((c == 0x24 && opens s) ≡ true)
unfolding last_pair
last_pair-here c s i e h = ground (arith, starts_with-pair c s)

last_pair-later :
    (c : ℕ) (s : Text) (i j : ℕ) → last_pair s ≡ some j → last_pair (c ∷ s) ≡ some i → i ≡ suc j
unfolding last_pair
last_pair-later c s i j e h = ground arith

-- Cutting a text before its last pair takes one pair away.
pairs_after-take :
    (pending : Bool) (s : Text) (i : ℕ)
    → last_pair s ≡ some i
    → pairs_after pending s ≡ suc (pairs_after pending (take i s))
unfolding pairs_after
pairs_after-take pending [] i h = unfold last_pair in cc
pairs_after-take pending (c ∷ s) i h = elim (Option-cases (last_pair s)) [
  | inl e ↦
      let (first, starts) = last_pair-here c s i e h in
      rw first (ground (arith, starts, pairs_after-none false s e, pairs_after-one s e))
  | inr (j, e) ↦
      rw (last_pair-later c s i j e h)
        (ground (arith, pairs_after-take true s j e, pairs_after-take false s j e))
]

-- Where no text is cut there is no pair.
cut_parts-none :
    (is_code : Bool) (parts : List Text)
    → cut_parts is_code parts ≡ none
    → count_outside is_code parts ≡ 0
unfolding count_outside cut_parts
cut_parts-none is_code [] h = refl
cut_parts-none is_code (p ∷ parts) h = elim (Option-cases (cut_parts (not is_code) parts)) [
  | inl e ↦ elim (Option-cases (last_pair p)) [
    | inl k ↦ ground (arith, cut_parts-none (not is_code) parts e, pairs_after-none false p k)
    | inr (i, k) ↦ ground (arith, cut_parts-none (not is_code) parts e)
  ]
  | inr (rest, e) ↦ ground arith
]

cut_parts-later :
    (is_code : Bool) (p : Text) (parts kept rest : List Text)
    → cut_parts (not is_code) parts ≡ some rest
    → cut_parts is_code (p ∷ parts) ≡ some kept
    → kept ≡ p ∷ rest
unfolding cut_parts
cut_parts-later is_code p parts kept rest e h = ground arith

cut_parts-here :
    (is_code : Bool) (p : Text) (parts kept : List Text)
    → cut_parts (not is_code) parts ≡ none
    → cut_parts is_code (p ∷ parts) ≡ some kept
    → (i : ℕ) × (is_code ≡ false) × (last_pair p ≡ some i) × (kept ≡ take i p ∷ [])
unfolding cut_parts
cut_parts-here is_code p parts kept e h = elim (Option-cases (last_pair p)) [
  | inl k ↦ (0, ground arith, ground arith, ground arith)
  | inr (i, k) ↦ (i, ground arith, k, ground arith)
]

-- The cut parts have one pair less.
cut_parts-count :
    (is_code : Bool) (parts kept : List Text)
    → cut_parts is_code parts ≡ some kept
    → count_outside is_code parts ≡ suc (count_outside is_code kept)
unfolding count_outside
cut_parts-count is_code [] kept h = unfold cut_parts in cc
cut_parts-count is_code (p ∷ parts) kept h = elim (Option-cases (cut_parts (not is_code) parts)) [
  | inl e ↦
      let (i, text, pair, same) = cut_parts-here is_code p parts kept e h in
      rw same (
        ground (arith, text, cut_parts-none (not is_code) parts e, pairs_after-take false p i pair))
  | inr (rest, e) ↦
      rw (cut_parts-later is_code p parts kept rest e h)
        (ground (arith, cut_parts-count (not is_code) parts rest e))
]

starts_with-append : (a b c : Text) → starts_with (a ++ b) (a ++ c) ≡ starts_with b c
unfolding starts_with
starts_with-append [] b c = refl
starts_with-append (x ∷ a) b c = ground (arith, starts_with-append a b c)

starts_with-take : (i : ℕ) (a c : Text) → starts_with (take i a ++ []) (a ++ c) ≡ true
unfolding starts_with
starts_with-take zero a c = refl
starts_with-take (suc i) [] c = refl
starts_with-take (suc i) (x ∷ a) c = ground (arith, starts_with-take i a c)

cut_parts-prefix :
    (is_code : Bool) (parts kept : List Text)
    → cut_parts is_code parts ≡ some kept
    → starts_with (concat kept) (concat parts) ≡ true
cut_parts-prefix is_code [] kept h = unfold cut_parts in cc
cut_parts-prefix is_code (p ∷ parts) kept h = elim (Option-cases (cut_parts (not is_code) parts)) [
  | inl e ↦
      let (i, text, pair, same) = cut_parts-here is_code p parts kept e h in
      rw same (starts_with-take i p (concat parts))
  | inr (rest, e) ↦ rw (cut_parts-later is_code p parts kept rest e h) (
      starts_with-append p (concat rest) (concat parts)
      ∙ cut_parts-prefix (not is_code) parts rest e)
]

-- What is left of the parts of a text.
abbrev pub kept_parts : List Text → List Text
kept_parts parts =
    if count_outside false parts % 2 == 0
    then parts
    else elim (cut_parts false parts) [ none ↦ parts | some kept ↦ kept ]

starts_with_refl : (s : Text) → starts_with s s ≡ true
unfolding starts_with
starts_with_refl [] = refl
starts_with_refl (x ∷ s) = ground (arith, starts_with_refl s)

-- Where the parts of a split make up the text, what is shown of a text while it streams in is a
-- beginning of it, with an even number of `$$` outside code: no formula is left open.
pub clamp_streaming_math-closed :
    (split : Text → List Text) (markdown : Text)
    → concat (split markdown) ≡ markdown
    → let kept = kept_parts (split markdown) in
      let shown = clamp_streaming_math split markdown in
      (shown ≡ concat kept)
      × (count_outside false kept % 2 ≡ 0)
      × (starts_with shown markdown ≡ true)
unfolding clamp_streaming_math
clamp_streaming_math-closed split markdown h =
    let parts = split markdown in
    elim (Bool-cases (count_outside false parts % 2 == 0)) [
      | inl e ↦
          rw (e, clamp_streaming_math)
            (sym h, (==_iff (count_outside false parts % 2) 0).0 e, starts_with_refl markdown)
      | inr e ↦ elim (Option-cases (cut_parts false parts)) [
        | inl k ↦
            let even : (count_outside false parts % 2 == 0) ≡ true =
              rw (cut_parts-none false parts k) refl in
            (cc, cc, cc)
        | inr (kept, k) ↦
            rw (e, k, clamp_streaming_math)
              (
                refl,
                ground (arith, e, cut_parts-count false parts kept k),
                ap (starts_with (concat kept)) (sym h) ∙ cut_parts-prefix false parts kept k,
              )
      ]
    ]
