-- ===== src/Api/Sse/Lines.antt =====
-- `split(/\r?\n/)` against `join("\n")` (frontend/src/api/sse.ts).
use mathlib.Core.Path.{ap₂}
use native.Mathlib.Decide.{ℕ_discrete}
use ichat.Base.{
  ℕ, ◌≡◌, ◌≢◌, refl, sym, ap, ◌∙◌, false, List, [], ◌∷◌, ◌++◌, Text, is_empty, All, join, arith,
}
use ichat.Api.Sse.{lf, cr, cons_char, split_lines}
use ichat.Api.Sse.Format.{NoBreak, NoReturn, join-cons}

-- Splitting undoes joining with line feeds.
split_lines-char :
    (c : ℕ) (s : Text) → c ≢ lf → c ≢ cr → split_lines (c ∷ s) ≡ cons_char c (split_lines s)
unfolding split_lines
split_lines-char c s h k = ground arith

split_lines-line : (line : Text) → NoBreak line → split_lines line ≡ line ∷ []
split_lines-line [] h = unfold split_lines in refl
split_lines-line (c ∷ line) ((h, k), hs) =
    split_lines-char c line h k ∙ ap (cons_char c) (split_lines-line line hs)

split_lines-feed :
    (line s : Text) → NoBreak line → split_lines (line ++ lf ∷ s) ≡ line ∷ split_lines s
split_lines-feed [] s h = unfold split_lines in refl
split_lines-feed (c ∷ line) s ((h, k), hs) =
    split_lines-char c (line ++ lf ∷ s) h k ∙ ap (cons_char c) (split_lines-feed line s hs)

join-one : (line : Text) → join (lf ∷ []) (line ∷ []) ≡ line
unfolding join
join-one line = refl

pub split_lines-join :
    (line : Text) (lines : List Text)
    → All NoBreak (line ∷ lines)
    → split_lines (join (lf ∷ []) (line ∷ lines)) ≡ line ∷ lines
split_lines-join line [] (h, _) = ap split_lines (join-one line) ∙ split_lines-line line h
split_lines-join line (next ∷ lines) (h, t) =
    ap split_lines (join-cons line next lines)
    ∙ split_lines-feed line (join (lf ∷ []) (next ∷ lines)) h
    ∙ ap (λ x. line ∷ x) (split_lines-join next lines t)

-- Joining undoes splitting where no carriage return stands.
join-cons_char :
    (c : ℕ) (lines : List Text) → join (lf ∷ []) (cons_char c lines) ≡ c ∷ join (lf ∷ []) lines
unfolding join
join-cons_char c [] = refl
join-cons_char c (line ∷ []) = refl
join-cons_char c (line ∷ next ∷ lines) = refl

join-feed :
    (lines : List Text)
    → is_empty lines ≡ false
    → join (lf ∷ []) ([] ∷ lines) ≡ lf ∷ join (lf ∷ []) lines
unfolding join
join-feed [] h = cc
join-feed (line ∷ lines) h = refl

split_lines-lf : (s : Text) → split_lines (lf ∷ s) ≡ [] ∷ split_lines s
unfolding split_lines
split_lines-lf s = refl

cons_char-some : (c : ℕ) (lines : List Text) → is_empty (cons_char c lines) ≡ false
cons_char-some c [] = refl
cons_char-some c (line ∷ lines) = refl

pub is_empty-split_lines : (s : Text) → is_empty (split_lines s) ≡ false
unfolding split_lines
is_empty-split_lines [] = refl
is_empty-split_lines (c ∷ s) =
    ground (arith, is_empty-split_lines s, cons_char-some c (split_lines s))

pub join-split_lines : (s : Text) → NoReturn s → join (lf ∷ []) (split_lines s) ≡ s
join-split_lines [] h = unfold join split_lines in refl
join-split_lines (c ∷ s) (h, hs) = elim (ℕ_discrete c lf) [
  | yes e ↦
      ap (λ x. join (lf ∷ []) (split_lines (x ∷ s))) e
      ∙ ap (join (lf ∷ [])) (split_lines-lf s)
      ∙ join-feed (split_lines s) (is_empty-split_lines s)
      ∙ ap₂ ◌∷◌ (sym e) (join-split_lines s hs)
  | no n ↦
      ap (join (lf ∷ [])) (split_lines-char c s n h)
      ∙ join-cons_char c (split_lines s)
      ∙ ap (λ x. c ∷ x) (join-split_lines s hs)
]

cons_char-NoBreak :
    (c : ℕ) (lines : List Text)
    → (c ≢ lf) × (c ≢ cr)
    → All NoBreak lines
    → All NoBreak (cons_char c lines)
cons_char-NoBreak c [] h k = ((h, tt), tt)
cons_char-NoBreak c (line ∷ lines) h (k, ks) = ((h, k), ks)

pub split_lines-NoBreak : (s : Text) → NoReturn s → All NoBreak (split_lines s)
split_lines-NoBreak [] h = unfold split_lines in (tt, tt)
split_lines-NoBreak (c ∷ s) (h, hs) = elim (ℕ_discrete c lf) [
  | yes e ↦ rw (e, split_lines-lf s) (tt, split_lines-NoBreak s hs)
  | no n ↦
      rw (split_lines-char c s n h)
        (cons_char-NoBreak c (split_lines s) (n, h) (split_lines-NoBreak s hs))
]
