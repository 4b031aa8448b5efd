-- ===== src/Api/Types.antt =====
-- The payload types of frontend/src/api/types.ts and of frontend/src/files/types.ts that the
-- reducers store. A field that may be absent or null is an `Option`: the code reads both through
-- `??`, `?.` or truthiness.
use ichat.Base.{ℕ, Bool, Option, List, Text}

pub record AuthUserResponse : Type 0 where
  pub id : ℕ
  pub username : Text
  pub nickname : Text
  pub email : Text
  pub email_verified : Bool
  pub avatar_url : Option Text

pub data RunStatus : Type 0 where
  queued started streaming succeeded failed cancelling cancelled : RunStatus

pub record ConversationActiveRun : Type 0 where
  pub id : Text
  pub status : RunStatus

pub record ConversationResponse : Type 0 where
  pub id : Text
  pub title : Option Text
  pub activated_at : Option Text
  pub pinned_at : Option Text
  pub favorited_at : Option Text
  pub created_at : Text
  pub updated_at : Text
  pub deleted_at : Option Text
  pub deletion_due_at : Option Text
  pub active_run : Option ConversationActiveRun

pub data ImageContextState : Type 0 where
  no_images vision_required legacy_upgrade_required : ImageContextState

pub record ImageContext : Type 0 where
  pub state : ImageContextState
  pub legacy_message_id : Option Text
  pub recommended_model : Option Text

pub data MessageRole : Type 0 where
  user assistant : MessageRole

pub record MessageSource : Type 0 where
  pub id : ℕ
  pub title : Text
  pub url : Text
  pub snippet : Option Text
  pub published_at : Option Text
  pub provider : Option Text

pub record MessageMetadata : Type 0 where
  pub sources : Option (List MessageSource)

pub record ReplyQuoteSourceAnchor : Type 0 where
  pub start : ℕ
  pub end : ℕ

pub record ReplyQuote : Type 0 where
  pub source_message_id : Option Text
  pub excerpt : Text
  pub source_anchor : Option ReplyQuoteSourceAnchor

pub record ReplyQuoteDraft : Type 0 where
  pub source_message_id : Text
  pub excerpt : Text
  pub source_anchor : Option ReplyQuoteSourceAnchor

pub data AttachmentOrigin : Type 0 where
  upload paste : AttachmentOrigin

pub data ModelInputKind : Type 0 where
  document image : ModelInputKind

-- A value of `stats`.
pub data Stat : Type 0 where
  count : ℕ → Stat
  label : Text → Stat

pub record FileAttachment : Type 0 where
  pub id : Text
  pub name : Text
  pub media_type : Text
  pub size_bytes : ℕ
  pub category : Text
  pub model_input_kind : Option ModelInputKind
  pub origin : Option AttachmentOrigin
  pub position : Option ℕ
  pub warning : Option (List Text)
  pub warnings : Option (List Text)
  pub preview_available : Bool
  pub stats : Option (List (Text × Stat))
  pub upload_expires_at : Option Text
  pub unbound_expires_at : Option Text

pub record MessageTiming : Type 0 where
  pub work_ms : ℕ

pub record MessageResponse : Type 0 where
  pub id : Text
  pub conversation_id : Text
  pub run_id : Option Text
  pub role : MessageRole
  pub content : Text
  pub reasoning : Option Text
  pub reasoning_summary : Option Text
  pub metadata : Option MessageMetadata
  pub attachments : Option (List FileAttachment)
  pub reply_quote : Option ReplyQuote
  pub timing : Option MessageTiming
  pub position : ℕ
  pub created_at : Text

pub record RunToolSource : Type 0 where
  pub id : ℕ
  pub title : Text
  pub url : Text
  pub snippet : Option Text
  pub published_at : Option Text

pub data ToolStatus : Type 0 where
  running succeeded failed : ToolStatus

pub record RunToolState : Type 0 where
  pub status : ToolStatus
  pub tool_name : Text
  pub query : Option Text
  pub message : Option Text
  pub result_count : Option ℕ
  pub sources : List RunToolSource
  pub running_count : Option ℕ
  pub batch_source_count : Option ℕ

pub record ChatModelCapability : Type 0 where
  pub id : Text
  pub provider : Text
  pub label : Text
  pub thinking_levels : List Text
  pub supports_reasoning_summary : Option Bool
  pub default : Bool
  pub supports_image_input : Bool
