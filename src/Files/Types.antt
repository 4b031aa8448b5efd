-- ===== src/Files/Types.antt =====
-- The types of frontend/src/files/types.ts that uploads use.
use ichat.Base.{ℕ, Bool, Option, List, Text}
use ichat.Api.Types.{AttachmentOrigin, FileAttachment, ModelInputKind}

pub data FileUploadStatus : Type 0 where
  pending queued processing succeeded rejected failed expired cancelled : FileUploadStatus

-- `FileUploadStatus | "creating" | "uploading"`.
pub data DraftAttachmentStatus : Type 0 where
  creating uploading : DraftAttachmentStatus
  server : FileUploadStatus → DraftAttachmentStatus

pub record FileUploadRecord : Type 0 where
  pub upload_id : Text
  pub status : FileUploadStatus
  pub error_code : Option Text
  pub message : Option Text
  pub file : Option FileAttachment

-- The fields that the client reads of a session.
pub record FileUploadSession : Type 0 where
  pub upload_id : Text
  pub session_expires_at : Text

-- `category_max_bytes` is the function of the entries of the object.
pub record FilesCapability : Type 0 where
  pub enabled : Bool
  pub allowed_extensions : List Text
  pub category_max_bytes : Text → Option ℕ
  pub accepts_unlisted_text : Option Bool
  pub max_attachments_per_message : ℕ
  pub max_message_bytes : ℕ

pub record DraftAttachment : Type 0 where
  pub client_id : Text
  pub upload_id : Option Text
  pub status : DraftAttachmentStatus
  pub error_code : Option Text
  pub error_message : Option Text
  pub file : Option FileAttachment
  pub name : Text
  pub media_type : Text
  pub size_bytes : ℕ
  pub category : Text
  pub model_input_kind : Option ModelInputKind
  pub origin : Option AttachmentOrigin
  pub local_preview_url : Option Text
  pub session_expires_at : Option Text
