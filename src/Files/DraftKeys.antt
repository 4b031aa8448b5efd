-- ===== src/Files/DraftKeys.antt =====
-- The loops over the keys of `localStorage` (frontend/src/files/draftStore.ts,
-- frontend/src/conversations/replyQuoteDraftStore.ts), against a filter of its entries.
use ichat.Base.{
  ℕ, zero, suc, ◌≡◌, refl, ap, ◌∙◌, Bool, true, false, ◌||◌, not, some, List, [], ◌∷◌, map, Text,
  filter, filter_ext, length, includes, includes-eq, Distinct, starts_with, text_eq, text_eq_refl,
  if◌then◌else◌, arith, Bool-cases, Option-cases, inl, inr,
}
use ichat.Files.Drafts.{
  Entry, Storage, remove_item, key_at, sweep_at, sweep, is_draft_key, own_prefix, is_foreign_key,
  clear_all, clear_other_users,
}

abbrev pub keys : Storage → List Text
keys s = map (λ (e : Entry). e.0) s

remove_item-absent :
    (key : Text) (s : Storage) → includes (keys s) key ≡ false → remove_item key s ≡ s
unfolding remove_item
remove_item-absent key [] h = refl
remove_item-absent key (e ∷ s) h = ground (arith, remove_item-absent key s)

includes-remove_item :
    (key k : Text) (s : Storage)
    → includes (keys s) k ≡ false
    → includes (keys (remove_item key s)) k ≡ false
unfolding remove_item
includes-remove_item key k [] h = refl
includes-remove_item key k (e ∷ s) h = ground (arith, includes-remove_item key k s)

key_at-includes :
    (i : ℕ) (s : Storage) (k : Text) → key_at i s ≡ some k → includes (keys s) k ≡ true
unfolding key_at
key_at-includes i [] k h = cc
key_at-includes zero (e ∷ s) k h = grind (arith, text_eq_refl k)
key_at-includes (suc i) (e ∷ s) k h = ground (arith, key_at-includes i s k h)

key_at-differs :
    (i : ℕ) (s : Storage) (k key : Text)
    → key_at i s ≡ some key
    → includes (keys s) k ≡ false
    → text_eq k key ≡ false
key_at-differs i s k key h fresh =
    ground (arith, key_at-includes i s key h, includes-eq (keys s) k key)

-- What the last round makes of the first entry.
abbrev keep_first : (Text → Bool) → Entry → Storage → Storage
keep_first p e s = if p e.0 then s else e ∷ s

sweep_at-first :
    (p : Text → Bool) (e : Entry) (s : Storage)
    → includes (keys s) e.0 ≡ false
    → sweep_at p 0 (e ∷ s) ≡ keep_first p e s
unfolding sweep_at key_at remove_item
sweep_at-first p e s fresh = ground (arith, remove_item-absent e.0 s fresh, text_eq_refl e.0)

sweep_at-later :
    (p : Text → Bool) (i : ℕ) (e : Entry) (s : Storage)
    → includes (keys s) e.0 ≡ false
    → sweep_at p (suc i) (e ∷ s) ≡ e ∷ sweep_at p i s
unfolding sweep_at key_at remove_item
sweep_at-later p i e s fresh = elim (Option-cases (key_at i s)) [
  | inl k ↦ rw (k, sweep_at) refl
  | inr (key, k) ↦ elim (Bool-cases (p key)) [
    | inl b ↦ rw (k, b, key_at-differs i s e.0 key k fresh, sweep_at, remove_item) refl
    | inr b ↦ rw (k, b, sweep_at) refl
  ]
]

sweep_at-fresh :
    (p : Text → Bool) (i : ℕ) (s : Storage) (k : Text)
    → includes (keys s) k ≡ false
    → includes (keys (sweep_at p i s)) k ≡ false
unfolding sweep_at
sweep_at-fresh p i s k h = elim (Option-cases (key_at i s)) [
  | inl e ↦ rw (e, sweep_at) h
  | inr (key, e) ↦ elim (Bool-cases (p key)) [
    | inl b ↦ rw (e, b, sweep_at) (includes-remove_item key k s h)
    | inr b ↦ rw (e, b, sweep_at) h
  ]
]

sweep-first :
    (p : Text → Bool) (i : ℕ) (e : Entry) (s : Storage)
    → includes (keys s) e.0 ≡ false
    → sweep p (suc i) (e ∷ s) ≡ keep_first p e (sweep p i s)
unfolding sweep
sweep-first p zero e s fresh = sweep_at-first p e s fresh
sweep-first p (suc i) e s fresh =
    ap (sweep p (suc i)) (sweep_at-later p i e s fresh)
    ∙ sweep-first p i e (sweep_at p i s) (sweep_at-fresh p i s e.0 fresh)

-- Though each removal shifts the entries after it, the loop down from the last index takes exactly the
-- entries whose key it tests for and leaves the others in their order.
pub sweep-filter :
    (p : Text → Bool) (s : Storage)
    → Distinct (keys s)
    → sweep p (length s) s ≡ filter (λ e. not (p e.0)) s
unfolding sweep
sweep-filter p [] h = refl
sweep-filter p (e ∷ s) (fresh, h) =
    sweep-first p (length s) e s fresh ∙ ground (arith, sweep-filter p s h)

module _ (prefix user_id : Text) where
  -- What a sign-out or another user leaves in a storage without two entries of a key, where a removal
  -- keeps the order of the other entries: `clearAll` every entry that is no draft, `clearOtherUsers` these
  -- and the drafts of the user, each as it was.
  pub cleared_drafts :
      (s : Storage)
      → Distinct (keys s)
      → (clear_all prefix s ≡ filter (λ e. not (is_draft_key prefix e.0)) s)
        × (clear_other_users prefix user_id s
            ≡ filter
                (λ e. not (is_draft_key prefix e.0) || starts_with (own_prefix prefix user_id) e.0)
                s)
  unfolding clear_all clear_other_users is_foreign_key
  cleared_drafts s h = (
    sweep-filter (is_draft_key prefix) s h,
    sweep-filter (is_foreign_key prefix user_id) s h ∙ filter_ext _ _ (λ e. ground arith) s,
  )
