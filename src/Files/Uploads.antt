-- ===== src/Files/Uploads.antt =====
-- `useAttachmentUploads` (frontend/src/files/useAttachmentUploads.ts): the unsent attachments of the
-- composer and their draft, by the code between two awaits. The transfers themselves (the abort
-- controllers, the files, the preview URLs and the progress), which no attachment depends on, are left
-- out, and so is the text of pasted files.
use ichat.Base.{
  ℕ, zero, suc, Bool, true, false, ◌&&◌, ◌||◌, not, Option, none, some, List, [], ◌∷◌, Text, codes,
  find_last, any, is_some, or_option, option_is, text_eq, ◌==◌, if◌then◌else◌,
}
use ichat.Api.Types.{AttachmentOrigin, FileAttachment, ModelInputKind}
use ichat.Files.Types.{
  FileUploadStatus, DraftAttachmentStatus, creating, uploading, server, DraftAttachment,
  FileUploadRecord, FileUploadSession,
}
use ichat.Files.Utils.{
  attachment_warnings, is_failure, is_upload_failed, is_polling_status, draft_from_upload,
}
use ichat.Files.Drafts.{Storage}

pub record Uploads : Type 0 where
  pub user_id : Option Text
  pub conversation_id : Option Text
  pub attachments : List DraftAttachment
  pub content : Text
  pub scope_version : ℕ
  pub storage : Storage
  pub errors : List Text

abbrev pub same_option : Option Text → Option Text → Bool
same_option none none = true
same_option (some a) (some b) = text_eq a b
same_option _ _ = false

abbrev pub status_text : FileUploadStatus → Text
status_text FileUploadStatus.pending = codes "pending"
status_text FileUploadStatus.queued = codes "queued"
status_text FileUploadStatus.processing = codes "processing"
status_text FileUploadStatus.succeeded = codes "succeeded"
status_text FileUploadStatus.rejected = codes "rejected"
status_text FileUploadStatus.failed = codes "failed"
status_text FileUploadStatus.expired = codes "expired"
status_text FileUploadStatus.cancelled = codes "cancelled"

abbrev pub draft_status_text : DraftAttachmentStatus → Text
draft_status_text creating = codes "creating"
draft_status_text uploading = codes "uploading"
draft_status_text (server s) = status_text s

abbrev pub same_kind : Option ModelInputKind → Option ModelInputKind → Bool
same_kind none none = true
same_kind (some ModelInputKind.document) (some ModelInputKind.document) = true
same_kind (some ModelInputKind.image) (some ModelInputKind.image) = true
same_kind _ _ = false

abbrev pub same_origin : Option AttachmentOrigin → Option AttachmentOrigin → Bool
same_origin none none = true
same_origin (some AttachmentOrigin.upload) (some AttachmentOrigin.upload) = true
same_origin (some AttachmentOrigin.paste) (some AttachmentOrigin.paste) = true
same_origin _ _ = false

abbrev pub same_bool : Bool → Bool → Bool
same_bool true b = b
same_bool false b = not b

abbrev pub same_texts : List Text → List Text → Bool
same_texts [] [] = true
same_texts (a ∷ s) (b ∷ t) = text_eq a b && same_texts s t
same_texts _ _ = false

-- `sameFile` of `sameAttachment`.
abbrev pub same_file : Option FileAttachment → Option FileAttachment → Bool
same_file none none = true
same_file (some f) (some g) =
    text_eq f.id g.id
    && text_eq f.name g.name
    && text_eq f.media_type g.media_type
    && f.size_bytes == g.size_bytes
    && text_eq f.category g.category
    && same_kind f.model_input_kind g.model_input_kind
    && same_bool f.preview_available g.preview_available
    && same_option f.upload_expires_at g.upload_expires_at
    && same_texts (attachment_warnings f) (attachment_warnings g)
same_file _ _ = false

-- `sameAttachment` and `sameAttachmentList`.
unfoldable pub same_attachment : DraftAttachment → DraftAttachment → Bool
unfolding text_eq
same_attachment a b =
    text_eq a.client_id b.client_id
    && same_option a.upload_id b.upload_id
    && text_eq (draft_status_text a.status) (draft_status_text b.status)
    && same_option a.error_code b.error_code
    && same_option a.error_message b.error_message
    && same_file a.file b.file
    && text_eq a.name b.name
    && text_eq a.media_type b.media_type
    && a.size_bytes == b.size_bytes
    && text_eq a.category b.category
    && same_origin a.origin b.origin
    && same_option a.local_preview_url b.local_preview_url
    && same_option a.session_expires_at b.session_expires_at

unfoldable pub same_attachment_list : List DraftAttachment → List DraftAttachment → Bool
unfolding same_attachment
same_attachment_list [] [] = true
same_attachment_list (a ∷ s) (b ∷ t) = same_attachment a b && same_attachment_list s t
same_attachment_list _ _ = false

abbrev pub file_upload_failure_message : Text
file_upload_failure_message = codes "文件上传失败，请稍后再试"

abbrev pub report : Text → Uploads → Uploads
report message u = record u { errors = message ∷ u.errors }

abbrev pub is_client : Text → DraftAttachment → Bool
is_client client_id a = text_eq a.client_id client_id

abbrev pub is_upload : Text → DraftAttachment → Bool
is_upload upload_id a = option_is a.upload_id upload_id

abbrev pub not_failed : DraftAttachment → Bool
not_failed a = not (is_upload_failed a.status)

-- `attachments.some((attachment) => isUploadFailed(attachment.status))`.
abbrev pub has_failed_attachments : List DraftAttachment → Bool
has_failed_attachments attachments =
    any (λ (a : DraftAttachment). is_upload_failed a.status) attachments

-- The upload that a poll asks for.
abbrev pub polled : DraftAttachment → Bool
polled a = is_some a.upload_id && is_polling_status a.status

-- `byId.get(attachment.upload_id)`, where there is an upload id.
abbrev pub record_of : List FileUploadRecord → Option Text → Option FileUploadRecord
record_of records none = none
record_of records (some id) = find_last (λ (r : FileUploadRecord). text_eq r.upload_id id) records

-- `removedUploadIds.has(attachment.upload_id)`.
abbrev pub is_removed_id : List FileUploadRecord → Option Text → Bool
is_removed_id records id =
    any (λ (r : FileUploadRecord). is_failure r.status && option_is id r.upload_id) records

abbrev pub is_removed : List FileUploadRecord → DraftAttachment → Bool
is_removed records a = is_removed_id records a.upload_id

abbrev pub is_error : FileUploadStatus → Bool
is_error FileUploadStatus.cancelled = false
is_error s = is_failure s

abbrev pub apply_update : DraftAttachment → Option FileUploadRecord → DraftAttachment
apply_update a none = a
apply_update a (some r) = draft_from_upload a r

abbrev pub apply_record : List FileUploadRecord → DraftAttachment → DraftAttachment
apply_record records a = apply_update a (record_of records a.upload_id)

abbrev pub apply_session : Text → FileUploadSession → DraftAttachment → DraftAttachment
apply_session client_id session a =
    if is_client client_id a
    then record a {
      upload_id = some session.upload_id;
      status = uploading;
      session_expires_at = some session.session_expires_at;
    }
    else a

abbrev pub image_kind : Option ModelInputKind → Bool
image_kind (some ModelInputKind.image) = true
image_kind _ = false

abbrev pub file_kind : DraftAttachment → Option ModelInputKind
file_kind a = elim a.file [
  | none ↦ a.model_input_kind
  | some f ↦ or_option f.model_input_kind a.model_input_kind
]

-- The test of `removeImages`.
abbrev pub is_image : DraftAttachment → Bool
is_image a =
    image_kind (file_kind a)
    || text_eq (elim a.file [ none ↦ a.category | some f ↦ f.category ]) (codes "image")

-- `current.findIndex`.
abbrev pub index_of_client : Text → List DraftAttachment → Option ℕ
index_of_client client_id [] = none
index_of_client client_id (a ∷ s) =
    if is_client client_id a
    then some 0
    else elim (index_of_client client_id s) [ none ↦ none | some i ↦ some (suc i) ]

-- Swaps the attachment at an index with the next; the list as it is where there is none.
abbrev pub swap_next : ℕ → List DraftAttachment → List DraftAttachment
swap_next zero (a ∷ b ∷ s) = b ∷ a ∷ s
swap_next (suc i) (a ∷ s) = a ∷ swap_next i s
swap_next _ s = s

-- The -1 and the 1 of a move.
pub data Direction : Type 0 where
  up down : Direction

abbrev pub move_from : Direction → ℕ → List DraftAttachment → List DraftAttachment
move_from down i s = swap_next i s
move_from up zero s = s
move_from up (suc i) s = swap_next i s

abbrev pub move_at : Option ℕ → Direction → List DraftAttachment → List DraftAttachment
move_at none d s = s
move_at (some i) d s = move_from d i s

-- The update of `moveAttachment`.
unfoldable pub move : Text → Direction → List DraftAttachment → List DraftAttachment
unfolding text_eq
move client_id d current = move_at (index_of_client client_id current) d current
