-- ===== src/Files/Kept.antt =====
-- Attachments that fail, in the lists that the hook keeps
-- (frontend/src/files/useAttachmentUploads.ts).
use ichat.Base.{
  ℕ, zero, suc, ◌≡◌, refl, ap, Bool, true, false, ◌&&◌, ◌||◌, not, Option, none, some, List, [],
  ◌∷◌, map, Text, filter, find_last, find_last-holds, any, any-filter, text_eq, text_eq_sym,
  if◌then◌else◌, arith, Bool-cases, Option-cases, inl, inr,
}
use ichat.Files.Types.{server, DraftAttachment, FileUploadRecord, FileUploadSession}
use ichat.Files.Utils.{is_failure, is_upload_failed, draft_from_upload}
use ichat.Files.Uploads.{
  is_upload, not_failed, has_failed_attachments, is_removed, is_removed_id, record_of, apply_record,
  apply_update, apply_session, Direction, up, down, swap_next, move_at,
}

-- Attachments none of which failed.
pub record NoneFailed (attachments : List DraftAttachment) : Type 0 where
  pub kept : has_failed_attachments attachments ≡ false

failed : DraftAttachment → Bool
failed a = is_upload_failed a.status

pub filter-NoneFailed :
    (p : DraftAttachment → Bool) (s : List DraftAttachment) → NoneFailed s → NoneFailed (filter p s)
filter-NoneFailed p s h = record { kept = any-filter p _ s h.kept }

-- A change of attachments that keeps those that did not fail so.
pub map-NoneFailed :
    (f : DraftAttachment → DraftAttachment) (s : List DraftAttachment)
    → ((a : DraftAttachment)
        → is_upload_failed a.status ≡ false
        → is_upload_failed (f a).status ≡ false)
    → NoneFailed s
    → NoneFailed (map f s)
map-NoneFailed f s h k = record { kept = go s k.kept }
  where
    go :
        (s : List DraftAttachment)
        → has_failed_attachments s ≡ false
        → has_failed_attachments (map f s) ≡ false
    go [] k = refl
    go (a ∷ s) k = ground (arith, h a, go s)

swap_next-failed :
    (i : ℕ) (s : List DraftAttachment)
    → has_failed_attachments (swap_next i s) ≡ has_failed_attachments s
swap_next-failed zero [] = refl
swap_next-failed zero (a ∷ []) = refl
swap_next-failed zero (a ∷ b ∷ s) = ground arith
swap_next-failed (suc i) [] = refl
swap_next-failed (suc i) (a ∷ s) = ap (λ t. is_upload_failed a.status || t) (swap_next-failed i s)

pub move_at-failed :
    (o : Option ℕ) (d : Direction) (s : List DraftAttachment)
    → has_failed_attachments (move_at o d s) ≡ has_failed_attachments s
move_at-failed none d s = refl
move_at-failed (some zero) up s = refl
move_at-failed (some (suc i)) up s = swap_next-failed i s
move_at-failed (some i) down s = swap_next-failed i s

pub apply_session-kept :
    (client_id : Text) (session : FileUploadSession) (a : DraftAttachment)
    → is_upload_failed a.status ≡ false
    → is_upload_failed (apply_session client_id session a).status ≡ false
apply_session-kept client_id session a h = ground arith

draft_from_upload-status :
    (a : DraftAttachment) (r : FileUploadRecord) → (draft_from_upload a r).status ≡ server r.status
unfolding draft_from_upload
draft_from_upload-status a r = ground arith

pub update-kept :
    (r : FileUploadRecord) (a : DraftAttachment)
    → is_failure r.status ≡ false
    → is_upload_failed a.status ≡ false
    → is_upload_failed (if is_upload r.upload_id a then draft_from_upload a r else a).status ≡ false
update-kept r a h k = elim (Bool-cases (is_upload r.upload_id a)) [
  | inl e ↦ rw e (rw (draft_from_upload-status a r) h)
  | inr e ↦ rw e k
]

find_last-any :
    (p q : FileUploadRecord → Bool) (xs : List FileUploadRecord) (y : FileUploadRecord)
    → find_last p xs ≡ some y
    → q y ≡ true
    → any q xs ≡ true
find_last-any p q [] y h k = cc
find_last-any p q (x ∷ xs) y h k = elim (Option-cases (find_last p xs)) [
  | inl e ↦ ground arith
  | inr (z, e) ↦ ground (arith, find_last-any p q xs z)
]

record_of-kept :
    (records : List FileUploadRecord) (id : Option Text) (r : FileUploadRecord)
    → is_removed_id records id ≡ false
    → record_of records id ≡ some r
    → is_failure r.status ≡ false
record_of-kept records none r h e = cc
record_of-kept records (some id) r h e = ground (
  arith,
  find_last-holds _ records r e,
  text_eq_sym id r.upload_id,
  find_last-any (λ (x : FileUploadRecord). text_eq x.upload_id id)
      (λ (x : FileUploadRecord). is_failure x.status && text_eq id x.upload_id) records r e,
)

apply_update-kept :
    (a : DraftAttachment) (o : Option FileUploadRecord)
    → ((r : FileUploadRecord) → o ≡ some r → is_failure r.status ≡ false)
    → is_upload_failed a.status ≡ false
    → is_upload_failed (apply_update a o).status ≡ false
apply_update-kept a none h k = k
apply_update-kept a (some r) h k = rw (draft_from_upload-status a r) (h r refl)

apply_record-kept :
    (records : List FileUploadRecord) (a : DraftAttachment)
    → is_removed records a ≡ false
    → is_upload_failed a.status ≡ false
    → is_upload_failed (apply_record records a).status ≡ false
apply_record-kept records a h k =
    apply_update-kept a (record_of records a.upload_id)
      (λ r. record_of-kept records a.upload_id r h) k

pub polled-kept :
    (records : List FileUploadRecord) (s : List DraftAttachment)
    → has_failed_attachments s ≡ false
    → has_failed_attachments
        (map (apply_record records) (filter (λ a. not (is_removed records a)) s))
      ≡ false
polled-kept records [] h = refl
polled-kept records (a ∷ s) h = elim (Bool-cases (is_removed records a)) [
  | inl e ↦ rw e (polled-kept records s (ground arith))
  | inr e ↦ rw e (ground (arith, apply_record-kept records a e, polled-kept records s))
]

pub restored-kept :
    (s : List DraftAttachment) → has_failed_attachments (filter not_failed s) ≡ false
restored-kept [] = refl
restored-kept (a ∷ s) = ground (arith, restored-kept s)
