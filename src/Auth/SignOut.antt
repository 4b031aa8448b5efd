-- ===== src/Auth/SignOut.antt =====
-- What is left after a sign-out (frontend/src/auth/useAuthSession.ts,
-- frontend/src/app/authExpiry.ts).
use ichat.Base.{
  ℕ, ◌≡◌, refl, ap, ◌∙◌, Bool, true, false, not, ◌&&◌, Option, none, [], ◌∷◌, Text, filter,
  includes, Distinct, arith, Bool-cases, inl, inr,
}
use ichat.App.Slices.{initial_auth_state}
use ichat.App.Store.{initial_state}
use ichat.App.Logout.{reset_forgets}
use ichat.Files.Drafts.{
  Entry, Storage, is_draft_key, clear_all, attachment_prefix, reply_quote_prefix,
}
use ichat.Files.DraftKeys.{keys, sweep-filter}
use ichat.Auth.Hook.{Browser, clear_drafts, sign_out, on_auth_expired}

keys-filter-absent :
    (p : Entry → Bool) (s : Storage) (k : Text)
    → includes (keys s) k ≡ false
    → includes (keys (filter p s)) k ≡ false
keys-filter-absent p [] k h = refl
keys-filter-absent p (e ∷ s) k h = ground (arith, keys-filter-absent p s k)

Distinct-keys-filter :
    (p : Entry → Bool) (s : Storage) → Distinct (keys s) → Distinct (keys (filter p s))
Distinct-keys-filter p [] h = tt
Distinct-keys-filter p (e ∷ s) (fresh, h) = elim (Bool-cases (p e)) [
  | inl b ↦ rw b (keys-filter-absent p s e.0 fresh, Distinct-keys-filter p s h)
  | inr b ↦ rw b (Distinct-keys-filter p s h)
]

filter-filter :
    (p q : Entry → Bool) (s : Storage) → filter q (filter p s) ≡ filter (λ e. p e && q e) s
filter-filter p q [] = refl
filter-filter p q (e ∷ s) = ground (arith, filter-filter p q s)

-- An entry that is no draft, neither of attachments nor of a reply quote.
abbrev pub is_other : Entry → Bool
is_other e = not (is_draft_key attachment_prefix e.0) && not (is_draft_key reply_quote_prefix e.0)

clear_drafts-filter : (s : Storage) → Distinct (keys s) → clear_drafts s ≡ filter is_other s
unfolding clear_drafts clear_all
clear_drafts-filter s h =
    ap (clear_all reply_quote_prefix) (sweep-filter (is_draft_key attachment_prefix) s h)
    ∙ sweep-filter (is_draft_key reply_quote_prefix) _ (Distinct-keys-filter _ s h)
    ∙ filter-filter (λ e. not (is_draft_key attachment_prefix e.0)) _ s

module _ (date_parse : Text → Option ℕ) where
  -- What a sign-out leaves, whatever there was, of a storage without two entries of a key, where a
  -- removal keeps the order of the other entries: no session is stored, the store is the initial one
  -- but for the flag that the bootstrap is over, the stream is aborted, and of `localStorage` every
  -- draft of attachments and of a reply quote is gone and every other entry stays, the one of the
  -- selected conversation too. The end of a session that has expired leaves the same, where its tokens
  -- were cleared.
  pub sign_out_forgets :
      (b : Browser)
      → Distinct (keys b.drafts)
      → let left : Browser = record {
        state = record initial_state { auth = record initial_auth_state { bootstrapped = true } };
        stored = none;
        drafts = filter is_other b.drafts;
        stream_aborted = true;
      } in
        (sign_out date_parse b ≡ left)
        × (on_auth_expired date_parse (record b { stored = none }) ≡ left)
  unfolding sign_out on_auth_expired
  sign_out_forgets b h =
      rw (clear_drafts-filter b.drafts h) (rw (reset_forgets date_parse b.state) (refl, refl))
