-- ===== src/Files/Drafts.antt =====
-- The drafts of the composer in `localStorage` (frontend/src/files/draftStore.ts), and those operations
-- of frontend/src/conversations/replyQuoteDraftStore.ts that are the same code for another prefix.
-- `localStorage` is the list of its entries, in the order of `localStorage.key`. `parse` reads a stored
-- text, with `none` where it throws or has another shape; `stringify` writes one.
use ichat.Base.{
  ℕ, zero, suc, Bool, ◌&&◌, not, Option, none, some, List, [], ◌∷◌, ◌++◌, map, Text, codes, filter,
  find, length, is_empty, or_else, starts_with, text_eq, if◌then◌else◌,
}
use ichat.Files.Types.{DraftAttachment}

abbrev pub Entry : Type 0
Entry = Text × Text

abbrev pub Storage : Type 0
Storage = List Entry

abbrev pub has_key : Text → Entry → Bool
has_key key e = text_eq e.0 key

-- `localStorage.getItem`, `removeItem` and `setItem`. The standard leaves the order of the keys to the
-- browser; here a removal keeps the order of the others, which the loops below rely on, and the place of
-- a new entry is the end.
unfoldable pub get_item : Text → Storage → Option Text
get_item key s = elim (find (has_key key) s) [ none ↦ none | some e ↦ some e.1 ]

unfoldable pub remove_item : Text → Storage → Storage
remove_item key s = filter (λ e. not (has_key key e)) s

unfoldable pub set_item : Text → Text → Storage → Storage
set_item key value [] = (key, value) ∷ []
set_item key value (e ∷ s) =
    let rest = set_item key value s in if has_key key e then (key, value) ∷ s else e ∷ rest

-- `localStorage.key(index)`.
unfoldable pub key_at : ℕ → Storage → Option Text
key_at i [] = none
key_at zero (e ∷ s) = some e.0
key_at (suc i) (e ∷ s) = key_at i s

-- The body of the loops of `clearAll` and `clearOtherUsers` at an index.
unfoldable pub sweep_at : (Text → Bool) → ℕ → Storage → Storage
unfolding key_at remove_item
sweep_at p i s = elim (key_at i s) [ none ↦ s | some key ↦ if p key then remove_item key s else s ]

-- The loops, from the index below the given one down to 0.
unfoldable pub sweep : (Text → Bool) → ℕ → Storage → Storage
unfolding sweep_at
sweep p zero s = s
sweep p (suc i) s = sweep p i (sweep_at p i s)

-- What starts with `DRAFT_KEY_PREFIX` and a colon.
unfoldable pub is_draft_key : Text → Text → Bool
unfolding starts_with
is_draft_key prefix key = starts_with (prefix ++ codes ":") key

unfoldable pub own_prefix : Text → Text → Text
own_prefix prefix user_id = prefix ++ codes ":" ++ user_id ++ codes ":"

unfoldable pub is_foreign_key : Text → Text → Text → Bool
unfolding is_draft_key own_prefix starts_with
is_foreign_key prefix user_id key =
    is_draft_key prefix key && not (starts_with (own_prefix prefix user_id) key)

-- `clearAll` and `clearOtherUsers` of both stores.
unfoldable pub clear_all : Text → Storage → Storage
unfolding sweep is_draft_key
clear_all prefix s = sweep (is_draft_key prefix) (length s) s

unfoldable pub clear_other_users : Text → Text → Storage → Storage
unfolding sweep is_foreign_key
clear_other_users prefix user_id s = sweep (is_foreign_key prefix user_id) (length s) s

-- `key` of both stores, and the scope of a conversation that is not there yet.
unfoldable pub draft_key : Text → Text → Text → Text
unfolding own_prefix
draft_key prefix user_id scope = own_prefix prefix user_id ++ scope

abbrev pub attachment_prefix : Text
attachment_prefix = codes "ichat.file-draft.v1"

abbrev pub reply_quote_prefix : Text
reply_quote_prefix = codes "ichat.reply-quote-draft.v1"

abbrev pub scope_of : Option Text → Text
scope_of conversation_id = or_else conversation_id (codes "new")

pub record AttachmentDraft : Type 0 where
  pub content : Text
  pub attachments : List DraftAttachment

abbrev pub empty_draft : AttachmentDraft
empty_draft = record { content = []; attachments = [] }

-- Without the object URLs.
abbrev pub serializable : AttachmentDraft → AttachmentDraft
serializable draft = record draft {
  attachments =
      map (λ (a : DraftAttachment). record a { local_preview_url = none }) draft.attachments;
}

-- `clear` of the attachment drafts.
unfoldable pub clear_draft : Text → Option Text → Storage → Storage
unfolding remove_item draft_key
clear_draft user_id conversation_id s =
    remove_item (draft_key attachment_prefix user_id (scope_of conversation_id)) s

module _ (parse : Text → Option AttachmentDraft) (stringify : AttachmentDraft → Text) where
  -- `readRaw`: the draft, and the storage afterwards.
  unfoldable pub read_raw : Text → Storage → AttachmentDraft × Storage
  unfolding get_item remove_item
  read_raw key s = elim (get_item key s) [
    | none ↦ (empty_draft, s)
    | some raw ↦
        if is_empty raw
        then (empty_draft, s)
        else elim (parse raw) [ some draft ↦ (draft, s) | none ↦ (empty_draft, remove_item key s) ]
  ]

  -- `read` and `write` of `attachmentDraftStore`.
  unfoldable pub read_draft : Text → Option Text → Storage → AttachmentDraft × Storage
  unfolding read_raw draft_key
  read_draft user_id conversation_id s =
      read_raw (draft_key attachment_prefix user_id (scope_of conversation_id)) s

  unfoldable pub write_draft : Text → Option Text → AttachmentDraft → Storage → Storage
  unfolding set_item remove_item draft_key
  write_draft user_id conversation_id draft s =
      let key = draft_key attachment_prefix user_id (scope_of conversation_id) in
      if is_empty draft.content && is_empty draft.attachments
      then remove_item key s
      else set_item key (stringify (serializable draft)) s
