-- ===== src/Files/Steps.antt =====
-- The callbacks of `useAttachmentUploads` (frontend/src/files/useAttachmentUploads.ts) in any order.
use ichat.Base.{ℕ, Bool, Option, List, [], Text}
use ichat.Api.Types.{AttachmentOrigin}
use ichat.Files.Types.{DraftAttachment, FileUploadRecord, FileUploadSession}
use ichat.Files.Select.{File}
use ichat.Files.Drafts.{Storage, AttachmentDraft}
use ichat.Files.Uploads.{Uploads, Direction}
use ichat.Files.Hook.{
  enter, set_draft_content, start_file, on_session, on_confirmed, on_upload_error, on_cancelled,
  on_cancel_refused, move_attachment, clear, on_polled, on_images_removed,
}

module _ (lower : Text → Text) (parse : Text → Option AttachmentDraft)
    (stringify : AttachmentDraft → Text) where
  -- A step of the hook: another user or conversation, what the user does, and what the service answers
  -- to an upload, a cancellation or a poll.
  pub data Step (u : Uploads) : Uploads → Type 0 where
    entered :
        (user_id conversation_id : Option Text)
        → Step u (enter lower parse stringify user_id conversation_id u)
    typed : (content : Text) → Step u (set_draft_content lower parse stringify content u)
    started :
        (client_id : Text) (file : File) (media_type : Text) (preview : Option Text)
        (origin : AttachmentOrigin)
        → Step u (start_file lower parse stringify client_id file media_type preview origin u)
    opened :
        (scope_version : ℕ) (client_id : Text) (session : FileUploadSession)
        → Step u (on_session lower parse stringify scope_version client_id session u)
    confirmed :
        (scope_version : ℕ) (client_id : Text) (r : FileUploadRecord)
        → Step u (on_confirmed lower parse stringify scope_version client_id r u)
    broken :
        (scope_version : ℕ) (client_id : Text) (is_abort : Bool)
        → Step u (on_upload_error lower parse stringify scope_version client_id is_abort u)
    cancelled :
        (user_id conversation_id : Option Text) (client_id : Text)
        → Step u (on_cancelled lower parse stringify user_id conversation_id client_id u)
    not_cancelled : Step u (on_cancel_refused lower parse stringify u)
    moved :
        (client_id : Text) (d : Direction)
        → Step u (move_attachment lower parse stringify client_id d u)
    cleared : Step u (clear lower parse stringify u)
    polled : (records : List FileUploadRecord) → Step u (on_polled lower parse stringify records u)
    images_removed :
        (user_id conversation_id : Option Text) (before : List DraftAttachment)
        → Step u (on_images_removed lower parse stringify user_id conversation_id before u)

  pub data Reach : Uploads → Type 0 where
    mounted :
        (user_id conversation_id : Option Text) (storage : Storage)
        → Reach (record {
          user_id = user_id;
          conversation_id = conversation_id;
          attachments = [];
          content = [];
          scope_version = 0;
          storage = storage;
          errors = [];
        })
    next : {u v : Uploads} → Reach u → Step u v → Reach v
