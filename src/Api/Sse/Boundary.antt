-- ===== src/Api/Sse/Boundary.antt =====
-- Where the parser cuts its buffer (`findBoundary` of frontend/src/api/sse.ts), against one scan from
-- the left.
use mathlib.Core.Path.{ap₂}
use ichat.Base.{
  ℕ, suc, ◌+◌, ◌≡◌, refl, sym, ap, ◌∙◌, true, false, Option, none, some, [], ◌∷◌, Text, take, drop,
  starts_with, index_of, if◌then◌else◌, arith, Bool-cases, inl, inr,
}
use ichat.Api.Sse.{lf_boundary, crlf_boundary, choose_boundary, find_boundary}

-- One more unit in front of what stands before the cut.
abbrev pub shift : ℕ → Option (Text × Text) → Option (Text × Text)
shift c none = none
shift c (some (raw, rest)) = some (c ∷ raw, rest)

-- The reference: the first place where one of the two boundaries begins, as the text before it and
-- the text after it.
unfoldable pub cut : Text → Option (Text × Text)
unfolding starts_with
cut [] = none
cut (c ∷ s) =
    let next = shift c (cut s) in
    if starts_with lf_boundary (c ∷ s)
    then some ([], drop 2 (c ∷ s))
    else if starts_with crlf_boundary (c ∷ s)
    then some ([], drop 4 (c ∷ s))
    else next

module _ (c : ℕ) (s : Text) where
  pub cut-lf : starts_with lf_boundary (c ∷ s) ≡ true → cut (c ∷ s) ≡ some ([], drop 2 (c ∷ s))
  unfolding cut
  cut-lf h = rw (h, cut) refl

  pub cut-crlf :
      starts_with lf_boundary (c ∷ s) ≡ false
      → starts_with crlf_boundary (c ∷ s) ≡ true
      → cut (c ∷ s) ≡ some ([], drop 4 (c ∷ s))
  unfolding cut
  cut-crlf h k = rw (h, k, cut) refl

  pub cut-next :
      starts_with lf_boundary (c ∷ s) ≡ false
      → starts_with crlf_boundary (c ∷ s) ≡ false
      → cut (c ∷ s) ≡ shift c (cut s)
  unfolding cut
  cut-next h k = rw (h, k, cut) refl

abbrev pub cut_at : Text → Option (ℕ × ℕ) → Option (Text × Text)
cut_at s none = none
cut_at s (some (index, size)) = some (take index s, drop (index + size) s)

abbrev suc_index : Option (ℕ × ℕ) → Option (ℕ × ℕ)
suc_index none = none
suc_index (some (index, size)) = some (suc index, size)

abbrev suc_option : Option ℕ → Option ℕ
suc_option none = none
suc_option (some i) = some (suc i)

choose_boundary-suc :
    (a b : Option ℕ)
    → choose_boundary (suc_option a) (suc_option b) ≡ suc_index (choose_boundary a b)
choose_boundary-suc none none = refl
choose_boundary-suc none (some b) = refl
choose_boundary-suc (some a) none = refl
choose_boundary-suc (some a) (some b) = ground arith

cut_at-suc :
    (c : ℕ) (s : Text) (o : Option (ℕ × ℕ)) → cut_at (c ∷ s) (suc_index o) ≡ shift c (cut_at s o)
cut_at-suc c s none = refl
cut_at-suc c s (some (index, size)) =
    let e : suc index + size ≡ suc (index + size) = omega arith in
    ap (λ t. some (c ∷ take index s, drop t (c ∷ s))) e

index_of-here :
    (p : Text) (c : ℕ) (s : Text) → starts_with p (c ∷ s) ≡ true → index_of p (c ∷ s) ≡ some 0
unfolding index_of
index_of-here p c s h = rw (h, index_of) refl

index_of-next :
    (p : Text) (c : ℕ) (s : Text)
    → starts_with p (c ∷ s) ≡ false
    → index_of p (c ∷ s) ≡ suc_option (index_of p s)
unfolding index_of
index_of-next p c s h = rw (h, index_of) (ground arith)

-- The two boundaries do not begin at one place.
not_both :
    (c : ℕ) (s : Text)
    → starts_with lf_boundary (c ∷ s) ≡ true
    → starts_with crlf_boundary (c ∷ s) ≡ false
unfolding starts_with
not_both c s h = ground arith

pub not_lf :
    (c : ℕ) (s : Text)
    → starts_with crlf_boundary (c ∷ s) ≡ true
    → starts_with lf_boundary (c ∷ s) ≡ false
unfolding starts_with
not_lf c s h = ground arith

choose_boundary-lf : (o : Option ℕ) → choose_boundary (some 0) (suc_option o) ≡ some (0, 2)
choose_boundary-lf none = refl
choose_boundary-lf (some i) = ground arith

choose_boundary-crlf : (o : Option ℕ) → choose_boundary (suc_option o) (some 0) ≡ some (0, 4)
choose_boundary-crlf none = refl
choose_boundary-crlf (some i) = ground arith

find_boundary-choose :
    (s : Text)
    → find_boundary s ≡ choose_boundary (index_of lf_boundary s) (index_of crlf_boundary s)
unfolding find_boundary
find_boundary-choose s = refl

-- `findBoundary` finds the cut of the scan.
pub find_boundary-cut : (s : Text) → cut_at s (find_boundary s) ≡ cut s
find_boundary-cut [] = unfold find_boundary index_of cut in refl
find_boundary-cut (c ∷ s) = elim (Bool-cases (starts_with lf_boundary (c ∷ s))) [
  | inl l ↦
      ap (cut_at (c ∷ s)) (
        find_boundary-choose (c ∷ s)
        ∙ ap₂ choose_boundary (index_of-here lf_boundary c s l)
            (index_of-next crlf_boundary c s (not_both c s l))
        ∙ choose_boundary-lf (index_of crlf_boundary s))
      ∙ sym (cut-lf c s l)
  | inr l ↦ elim (Bool-cases (starts_with crlf_boundary (c ∷ s))) [
    | inl k ↦
        ap (cut_at (c ∷ s)) (
          find_boundary-choose (c ∷ s)
          ∙ ap₂ choose_boundary (index_of-next lf_boundary c s l)
              (index_of-here crlf_boundary c s k)
          ∙ choose_boundary-crlf (index_of lf_boundary s))
        ∙ sym (cut-crlf c s l k)
    | inr k ↦
        ap (cut_at (c ∷ s)) (
          find_boundary-choose (c ∷ s)
          ∙ ap₂ choose_boundary (index_of-next lf_boundary c s l)
              (index_of-next crlf_boundary c s k)
          ∙ choose_boundary-suc (index_of lf_boundary s) (index_of crlf_boundary s)
          ∙ ap suc_index (sym (find_boundary-choose s)))
        ∙ cut_at-suc c s (find_boundary s)
        ∙ ap (shift c) (find_boundary-cut s)
        ∙ sym (cut-next c s l k)
  ]
]
