-- ===== src/Files/Utils.antt =====
-- frontend/src/files/utils.ts. `lower` is `toLowerCase`, which stands on the tables of Unicode.
use ichat.Base.{
  ℕ, Bool, true, false, ◌&&◌, ◌||◌, not, Option, none, some, List, [], ◌∷◌, Text, codes, trim,
  text_eq, is_empty, includes, or_else, or_option, ◌==◌, if◌then◌else◌,
}
use ichat.Api.Types.{FileAttachment}
use ichat.Files.Types.{
  FileUploadStatus, DraftAttachmentStatus, creating, uploading, server, DraftAttachment,
  FileUploadRecord,
}

abbrev pub image_extensions : List Text
image_extensions =
    codes "jpg"
    ∷ codes "jpeg"
    ∷ codes "png"
    ∷ codes "webp"
    ∷ codes "gif"
    ∷ codes "heic"
    ∷ codes "heif"
    ∷ []

abbrev pub office_extensions : List Text
office_extensions = codes "docx" ∷ codes "pptx" ∷ codes "xlsx" ∷ []

abbrev pub data_extensions : List Text
data_extensions =
    codes "csv"
    ∷ codes "tsv"
    ∷ codes "json"
    ∷ codes "yaml"
    ∷ codes "yml"
    ∷ codes "toml"
    ∷ codes "xml"
    ∷ codes "ini"
    ∷ codes "cfg"
    ∷ codes "conf"
    ∷ codes "properties"
    ∷ codes "env"
    ∷ []

abbrev pub code_extensions : List Text
code_extensions =
    codes "py"
    ∷ codes "js"
    ∷ codes "jsx"
    ∷ codes "mjs"
    ∷ codes "cjs"
    ∷ codes "ts"
    ∷ codes "tsx"
    ∷ codes "mts"
    ∷ codes "cts"
    ∷ codes "go"
    ∷ codes "java"
    ∷ codes "sql"
    ∷ codes "c"
    ∷ codes "h"
    ∷ codes "cc"
    ∷ codes "cpp"
    ∷ codes "cxx"
    ∷ codes "hpp"
    ∷ codes "cs"
    ∷ codes "rs"
    ∷ codes "rb"
    ∷ codes "php"
    ∷ codes "kt"
    ∷ codes "kts"
    ∷ codes "swift"
    ∷ codes "scala"
    ∷ codes "dart"
    ∷ codes "lua"
    ∷ codes "pl"
    ∷ codes "r"
    ∷ codes "m"
    ∷ codes "sh"
    ∷ codes "bash"
    ∷ codes "zsh"
    ∷ codes "fish"
    ∷ codes "ps1"
    ∷ codes "bat"
    ∷ codes "cmd"
    ∷ codes "html"
    ∷ codes "htm"
    ∷ codes "css"
    ∷ codes "scss"
    ∷ codes "sass"
    ∷ codes "less"
    ∷ codes "vue"
    ∷ codes "svelte"
    ∷ codes "graphql"
    ∷ codes "gql"
    ∷ codes "proto"
    ∷ codes "tf"
    ∷ codes "hcl"
    ∷ codes "gradle"
    ∷ codes "dockerfile"
    ∷ codes "makefile"
    ∷ []

-- `s.split(".").at(-1)`: what follows the last dot.
unfoldable pub last_part : Text → Text
last_part s = go s s
  where
    go : Text → Text → Text
    go part [] = part
    go part (c ∷ s) = go (if c == 0x2e then s else part) s

module _ (lower : Text → Text) where
  -- `fileExtension`.
  unfoldable pub file_extension : Text → Text
  unfolding last_part trim text_eq
  file_extension name =
      let suffix = last_part (trim name) in
      if not (is_empty suffix) && not (text_eq suffix name) then lower suffix else []

  -- The category of an extension.
  unfoldable pub category_of : Text → Text
  unfolding text_eq
  category_of extension =
      if includes image_extensions extension
      then codes "image"
      else if text_eq extension (codes "pdf")
      then codes "pdf"
      else if includes office_extensions extension
      then codes "office"
      else if includes data_extensions extension
      then codes "data"
      else if includes code_extensions extension
      then codes "code"
      else codes "text"

  -- `categoryForFileName`.
  unfoldable pub category_for_file_name : Text → Text
  unfolding file_extension category_of
  category_for_file_name name = category_of (file_extension name)

  -- `categoryLimit`.
  unfoldable pub category_limit : (Text → Option ℕ) → Text → Option ℕ
  unfolding file_extension category_for_file_name text_eq
  category_limit category_max_bytes name =
      let extension = file_extension name in
      let category = category_for_file_name name in
      let capability_category =
        if text_eq category (codes "data") || text_eq category (codes "code")
        then codes "text"
        else category in
      or_option (category_max_bytes extension) (
        or_option (category_max_bytes category) (
          or_option (category_max_bytes capability_category)
            (category_max_bytes (codes "default"))))

-- `isUploadInProgress`, `isUploadReady`, `isUploadFailed` and `isPollingStatus`.
abbrev pub is_upload_in_progress : DraftAttachmentStatus → Bool
is_upload_in_progress creating = true
is_upload_in_progress uploading = true
is_upload_in_progress (server FileUploadStatus.pending) = true
is_upload_in_progress (server FileUploadStatus.queued) = true
is_upload_in_progress (server FileUploadStatus.processing) = true
is_upload_in_progress _ = false

abbrev pub is_upload_ready : DraftAttachmentStatus → Bool
is_upload_ready (server FileUploadStatus.succeeded) = true
is_upload_ready _ = false

-- The failures of the service.
abbrev pub is_failure : FileUploadStatus → Bool
is_failure FileUploadStatus.rejected = true
is_failure FileUploadStatus.failed = true
is_failure FileUploadStatus.expired = true
is_failure FileUploadStatus.cancelled = true
is_failure _ = false

abbrev pub is_upload_failed : DraftAttachmentStatus → Bool
is_upload_failed (server s) = is_failure s
is_upload_failed _ = false

abbrev pub is_polling_status : DraftAttachmentStatus → Bool
is_polling_status (server FileUploadStatus.pending) = true
is_polling_status (server FileUploadStatus.queued) = true
is_polling_status (server FileUploadStatus.processing) = true
is_polling_status _ = false

-- `attachmentWarnings`.
abbrev pub attachment_warnings : FileAttachment → List Text
attachment_warnings f = or_else (or_option f.warning f.warnings) []

-- `draftFromUpload`.
unfoldable pub draft_from_upload : DraftAttachment → FileUploadRecord → DraftAttachment
draft_from_upload draft update = elim update.file [
  | none ↦ record draft {
    status = server update.status;
    error_code = update.error_code;
    error_message = update.message;
    file = none;
  }
  | some file ↦ record draft {
    status = server update.status;
    error_code = update.error_code;
    error_message = update.message;
    file = some file;
    name = file.name;
    media_type = file.media_type;
    size_bytes = file.size_bytes;
    category = file.category;
  }
]
