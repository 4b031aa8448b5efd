-- ===== src/Api/Sse/Cut.antt =====
-- More text behind the buffer (frontend/src/api/sse.ts): the place of a cut and the length of the rest.
use ichat.Base.{
  ℕ, zero, suc, ◌≤◌, ◌<◌, ◌≡◌, refl, sym, ap, ◌∙◌, true, false, Option, some, [], ◌∷◌, ◌++◌, Text,
  drop, length, starts_with, arith, Bool-cases, Option-cases, inl, inr,
}
use ichat.Api.Sse.{lf_boundary, crlf_boundary}
use ichat.Api.Sse.Boundary.{shift, cut, cut-lf, cut-crlf, cut-next, not_lf}

-- A prefix stays one when more text arrives.
starts_with-append : (p s u : Text) → starts_with p s ≡ true → starts_with p (s ++ u) ≡ true
unfolding starts_with
starts_with-append [] s u h = refl
starts_with-append (a ∷ p) [] u h = cc
starts_with-append (a ∷ p) (b ∷ s) u h = ground (arith, starts_with-append p s u)

-- In front of a text that has a cut, more text makes no boundary begin.
no_late_lf :
    (c : ℕ) (s u : Text) {cutting : Text × Text}
    → cut s ≡ some cutting
    → starts_with lf_boundary (c ∷ s) ≡ false
    → starts_with lf_boundary (c ∷ s ++ u) ≡ false
unfolding starts_with cut
no_late_lf c [] u h k = cc
no_late_lf c (a ∷ s) u h k = k

no_late_crlf :
    (c : ℕ) (s u : Text) {cutting : Text × Text}
    → cut s ≡ some cutting
    → starts_with crlf_boundary (c ∷ s) ≡ false
    → starts_with crlf_boundary (c ∷ s ++ u) ≡ false
unfolding starts_with cut
no_late_crlf c [] u h k = cc
no_late_crlf c (a ∷ []) u h k = ground arith
no_late_crlf c (a ∷ b ∷ []) u h k = ground arith
no_late_crlf c (a ∷ b ∷ d ∷ s) u h k = k

drop-append-lf :
    (c : ℕ) (s u : Text)
    → starts_with lf_boundary (c ∷ s) ≡ true
    → drop 2 (c ∷ s ++ u) ≡ drop 2 (c ∷ s) ++ u
unfolding starts_with
drop-append-lf c [] u h = ground arith
drop-append-lf c (a ∷ s) u h = refl

drop-append-crlf :
    (c : ℕ) (s u : Text)
    → starts_with crlf_boundary (c ∷ s) ≡ true
    → drop 4 (c ∷ s ++ u) ≡ drop 4 (c ∷ s) ++ u
unfolding starts_with
drop-append-crlf c [] u h = ground arith
drop-append-crlf c (a ∷ []) u h = ground arith
drop-append-crlf c (a ∷ b ∷ []) u h = ground arith
drop-append-crlf c (a ∷ b ∷ d ∷ s) u h = refl

-- A cut at the first place.
abbrev here : Text → Option (Text × Text)
here rest = some ([], rest)

here_append :
    (n : ℕ) (s u raw rest : Text)
    → drop n (s ++ u) ≡ drop n s ++ u
    → here (drop n s) ≡ some (raw, rest)
    → here (drop n (s ++ u)) ≡ some (raw, rest ++ u)
here_append n s u raw rest e h = ground arith

shifted_append :
    (c : ℕ) (r t u raw rest : Text)
    → shift c (some (r, t)) ≡ some (raw, rest)
    → shift c (some (r, t ++ u)) ≡ some (raw, rest ++ u)
shifted_append c r t u raw rest h = ground arith

next_append :
    (c : ℕ) (s u raw rest : Text)
    → ((r t : Text) → cut s ≡ some (r, t) → cut (s ++ u) ≡ some (r, t ++ u))
    → starts_with lf_boundary (c ∷ s) ≡ false
    → starts_with crlf_boundary (c ∷ s) ≡ false
    → shift c (cut s) ≡ some (raw, rest)
    → cut (c ∷ s ++ u) ≡ some (raw, rest ++ u)
next_append c s u raw rest ih l k h = elim (Option-cases (cut s)) [
  | inl e ↦ absurd (cc (ap (shift c) e))
  | inr ((r, t), e) ↦
      cut-next c (s ++ u) (no_late_lf c s u e l) (no_late_crlf c s u e k)
      ∙ ap (shift c) (ih r t e)
      ∙ shifted_append c r t u raw rest (sym (ap (shift c) e) ∙ h)
]

-- A cut stays where it is when more text arrives.
pub cut-append :
    (s u raw rest : Text) → cut s ≡ some (raw, rest) → cut (s ++ u) ≡ some (raw, rest ++ u)
cut-append [] u raw rest h = unfold cut in cc
cut-append (c ∷ s) u raw rest h = elim (Bool-cases (starts_with lf_boundary (c ∷ s))) [
  | inl l ↦
      cut-lf c (s ++ u) (starts_with-append lf_boundary (c ∷ s) u l)
      ∙ here_append 2 (c ∷ s) u raw rest (drop-append-lf c s u l) (sym (cut-lf c s l) ∙ h)
  | inr l ↦ elim (Bool-cases (starts_with crlf_boundary (c ∷ s))) [
    | inl k ↦
        cut-crlf c (s ++ u) (not_lf c (s ++ u) (starts_with-append crlf_boundary (c ∷ s) u k))
          (starts_with-append crlf_boundary (c ∷ s) u k)
        ∙ here_append 4 (c ∷ s) u raw rest (drop-append-crlf c s u k) (sym (cut-crlf c s l k) ∙ h)
    | inr k ↦ next_append c s u raw rest (cut-append s u) l k (sym (cut-next c s l k) ∙ h)
  ]
]

length-drop-le : (n : ℕ) (s : Text) → length (drop n s) ≤ length s
length-drop-le zero s = omega arith
length-drop-le (suc n) [] = omega arith
length-drop-le (suc n) (c ∷ s) = omega (arith, length-drop-le n s)

shift-length :
    (c : ℕ) (s raw rest : Text)
    → ((r t : Text) → cut s ≡ some (r, t) → length t < length s)
    → shift c (cut s) ≡ some (raw, rest)
    → length rest < suc (length s)
shift-length c s raw rest ih h = elim (Option-cases (cut s)) [
  | inl e ↦ absurd (cc (ap (shift c) e))
  | inr ((r, t), e) ↦
      let same : ◌≡◌ {A = Option (Text × Text)} (some (c ∷ r, t)) (some (raw, rest)) =
        sym (ap (shift c) e) ∙ h in
      ground (arith, ih r t e)
]

-- What follows a cut is shorter than the whole.
pub length-cut : (s raw rest : Text) → cut s ≡ some (raw, rest) → length rest < length s
length-cut [] raw rest h = unfold cut in cc
length-cut (c ∷ s) raw rest h = elim (Bool-cases (starts_with lf_boundary (c ∷ s))) [
  | inl l ↦
      let e : here (drop 1 s) ≡ some (raw, rest) = sym (cut-lf c s l) ∙ h in
      ground (arith, length-drop-le 1 s)
  | inr l ↦ elim (Bool-cases (starts_with crlf_boundary (c ∷ s))) [
    | inl k ↦
        let e : here (drop 3 s) ≡ some (raw, rest) = sym (cut-crlf c s l k) ∙ h in
        ground (arith, length-drop-le 3 s)
    | inr k ↦ shift-length c s raw rest (length-cut s) (sym (cut-next c s l k) ∙ h)
  ]
]
