-- ===== src/Run/Sources.antt =====
-- Laws of `mergeSources` (frontend/src/runs/state.ts): the citation sources of a run.
use mathlib.Core.List.{append-nil, append_assoc}
use ichat.Base.{
  ℕ, true, false, ◌||◌, ◌≡◌, refl, sym, ap, ◌∙◌, List, [], ◌∷◌, ◌++◌, ◌==◌, is_empty, arith, inl,
  inr, Bool-cases, ==_iff, if◌then◌else◌,
}
use ichat.Api.Types.{RunToolSource}
use ichat.Run.State.{has_id, source_ids, new_sources, merge_sources}

-- No id occurs twice.
abbrev pub DistinctIds : List ℕ → Type 0
DistinctIds [] = Unit
DistinctIds (x ∷ xs) = (has_id xs x ≡ false) × DistinctIds xs

has_id-append : (xs ys : List ℕ) (i : ℕ) → has_id (xs ++ ys) i ≡ (has_id xs i || has_id ys i)
has_id-append [] ys i = refl
has_id-append (x ∷ xs) ys i = ground (arith, has_id-append xs ys i)

source_ids-append : (a b : List RunToolSource) → source_ids (a ++ b) ≡ source_ids a ++ source_ids b
source_ids-append [] b = refl
source_ids-append (s ∷ a) b = ap (λ t. s.id ∷ t) (source_ids-append a b)

-- The array that comes back when nothing is added is what the concatenation would be.
pub merge_sources-eq-append :
    (a b : List RunToolSource) → merge_sources a b ≡ a ++ new_sources (source_ids a) b
unfolding merge_sources
merge_sources-eq-append a b = go (new_sources (source_ids a) b)
  where
    go :
        (n : List RunToolSource)
        → unfold merge_sources in if◌then◌else◌ (is_empty n) a (a ++ n) ≡ a ++ n
    go [] = sym (append-nil a)
    go (s ∷ n) = refl

new_sources-old :
    (seen : List ℕ) (s : RunToolSource) (b : List RunToolSource)
    → has_id seen s.id ≡ true
    → new_sources seen (s ∷ b) ≡ new_sources seen b
unfolding new_sources
new_sources-old seen s b h = rw (h, new_sources) refl

new_sources-new :
    (seen : List ℕ) (s : RunToolSource) (b : List RunToolSource)
    → has_id seen s.id ≡ false
    → new_sources seen (s ∷ b) ≡ s ∷ new_sources (s.id ∷ seen) b
unfolding new_sources
new_sources-new seen s b h = rw (h, new_sources) refl

-- Only the set of seen ids matters.
new_sources-congr :
    (seen seen' : List ℕ) (b : List RunToolSource)
    → ((i : ℕ) → has_id seen i ≡ has_id seen' i)
    → new_sources seen b ≡ new_sources seen' b
new_sources-congr seen seen' [] h = unfold new_sources in refl
new_sources-congr seen seen' (s ∷ b) h = elim (Bool-cases (has_id seen' s.id)) [
  | inl old ↦
      rw (new_sources-old seen s b (h s.id ∙ old), new_sources-old seen' s b old)
        (new_sources-congr seen seen' b h)
  | inr new ↦
      rw (new_sources-new seen s b (h s.id ∙ new), new_sources-new seen' s b new)
        (ap (λ t. s ∷ t)
          (new_sources-congr (s.id ∷ seen) (s.id ∷ seen') b (λ i. ap (λ t. s.id == i || t) (h i))))
]

has_id-eq : (xs : List ℕ) (i j : ℕ) → (i == j) ≡ true → has_id xs i ≡ has_id xs j
has_id-eq xs i j h = ap (has_id xs) ((==_iff i j).0 h)

-- An id is seen or new exactly when it was seen or is given.
pub has_id-new_sources :
    (seen : List ℕ) (b : List RunToolSource) (i : ℕ)
    → (has_id seen i || has_id (source_ids (new_sources seen b)) i)
      ≡ (has_id seen i || has_id (source_ids b) i)
has_id-new_sources seen [] i = unfold new_sources in refl
has_id-new_sources seen (s ∷ b) i = elim (Bool-cases (has_id seen s.id)) [
  | inl old ↦
      rw (new_sources-old seen s b old)
        (ground (arith, has_id-new_sources seen b i, has_id-eq seen s.id i))
  | inr new ↦
      rw (new_sources-new seen s b new) (ground (arith, has_id-new_sources (s.id ∷ seen) b i))
]

-- What was seen is not new.
new_sources-unseen :
    (seen : List ℕ) (b : List RunToolSource) (i : ℕ)
    → has_id seen i ≡ true
    → has_id (source_ids (new_sources seen b)) i ≡ false
new_sources-unseen seen [] i h = unfold new_sources in refl
new_sources-unseen seen (s ∷ b) i h = elim (Bool-cases (has_id seen s.id)) [
  | inl old ↦ rw (new_sources-old seen s b old) (new_sources-unseen seen b i h)
  | inr new ↦
      rw (new_sources-new seen s b new)
        (ground (arith, new_sources-unseen (s.id ∷ seen) b i, has_id-eq seen s.id i))
]

DistinctIds-append :
    (xs ys : List ℕ)
    → DistinctIds xs
    → DistinctIds ys
    → ((i : ℕ) → has_id xs i ≡ true → has_id ys i ≡ false)
    → DistinctIds (xs ++ ys)
DistinctIds-append [] ys p q apart = q
DistinctIds-append (x ∷ xs) ys (fresh, p) q apart = (
  has_id-append xs ys x ∙ (ground (arith, apart x)),
  DistinctIds-append xs ys p q (λ i h. apart i (ground arith)),
)

new_sources-DistinctIds :
    (seen : List ℕ) (b : List RunToolSource) → DistinctIds (source_ids (new_sources seen b))
new_sources-DistinctIds seen [] = unfold new_sources in tt
new_sources-DistinctIds seen (s ∷ b) = elim (Bool-cases (has_id seen s.id)) [
  | inl old ↦ rw (new_sources-old seen s b old) (new_sources-DistinctIds seen b)
  | inr new ↦ rw (new_sources-new seen s b new) (
    new_sources-unseen (s.id ∷ seen) b s.id (ground arith),
    new_sources-DistinctIds (s.id ∷ seen) b,
  )
]

-- Merging keeps the ids distinct, whatever comes in.
pub merge_sources-DistinctIds :
    (a b : List RunToolSource)
    → DistinctIds (source_ids a)
    → DistinctIds (source_ids (merge_sources a b))
merge_sources-DistinctIds a b p =
    rw (merge_sources-eq-append a b, source_ids-append)
      (DistinctIds-append (source_ids a) _ p (new_sources-DistinctIds (source_ids a) b)
        (new_sources-unseen (source_ids a) b))

-- A merged list has exactly the ids of its two parts.
pub has_id-merge_sources :
    (a b : List RunToolSource) (i : ℕ)
    → has_id (source_ids (merge_sources a b)) i
      ≡ (has_id (source_ids a) i || has_id (source_ids b) i)
has_id-merge_sources a b i =
    rw (merge_sources-eq-append a b, source_ids-append)
      (has_id-append (source_ids a) _ i ∙ has_id-new_sources (source_ids a) b i)

has_id-middle : (x : ℕ) (xs ys : List ℕ) (i : ℕ) → has_id (x ∷ xs ++ ys) i ≡ has_id (xs ++ x ∷ ys) i
has_id-middle x xs ys i = ground (arith, has_id-append (x ∷ xs) ys i, has_id-append xs (x ∷ ys) i)

new_sources-append :
    (seen : List ℕ) (b c : List RunToolSource)
    → new_sources seen (b ++ c)
      ≡ new_sources seen b ++ new_sources (seen ++ source_ids (new_sources seen b)) c
new_sources-append seen [] c =
    unfold new_sources in
    new_sources-congr seen (seen ++ []) c (λ i. ap (λ t. has_id t i) (sym (append-nil seen)))
new_sources-append seen (s ∷ b) c = elim (Bool-cases (has_id seen s.id)) [
  | inl old ↦
      rw (new_sources-old seen s b old, new_sources-old seen s (b ++ c) old)
        (new_sources-append seen b c)
  | inr new ↦
      rw (new_sources-new seen s b new, new_sources-new seen s (b ++ c) new)
        (ap (λ t. s ∷ t)
          (new_sources-append (s.id ∷ seen) b c
            ∙ ap (λ t. new_sources (s.id ∷ seen) b ++ t)
                (new_sources-congr _ _ c
                  (λ i. has_id-middle s.id seen (source_ids (new_sources (s.id ∷ seen) b)) i))))
]

-- Merging in two steps is merging once.
pub merge_sources_assoc :
    (a b c : List RunToolSource) → merge_sources (merge_sources a b) c ≡ merge_sources a (b ++ c)
merge_sources_assoc a b c =
    rw (merge_sources-eq-append (merge_sources a b) c, merge_sources-eq-append a b)
      (rw (merge_sources-eq-append a (b ++ c), new_sources-append (source_ids a) b c)
        (rw source_ids-append (append_assoc a _ _)))
