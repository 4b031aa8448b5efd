-- ===== src/Files/Select.antt =====
-- `addFiles` (frontend/src/files/useAttachmentUploads.ts): which of the files that the user selects are
-- taken.
use ichat.Base.{
  ℕ, suc, ◌+◌, Bool, false, ◌&&◌, ◌||◌, not, Option, none, some, List, [], ◌∷◌, map, Text, codes,
  any, length, is_empty, includes, or_else, ltb, leb, text_eq, if◌then◌else◌,
}
use ichat.Files.Types.{FilesCapability, DraftAttachment}
use ichat.Files.Utils.{file_extension, category_for_file_name, category_limit}

-- The fields of a `File` that the test reads.
pub record File : Type 0 where
  pub name : Text
  pub size : ℕ

-- What the loop adds: the accepted files, and the message of each rejection.
pub record Chosen : Type 0 where
  pub accepted : List File
  pub rejections : List Text

-- What `addFiles` does: the files that are started, the result's `error`, the messages that are
-- reported, and the files that are handed to `onImagesBlocked`.
pub record AddFilesResult : Type 0 where
  pub started : List File
  pub error : Option Text
  pub reported : List Text
  pub blocked : List File

abbrev pub file_too_large_message : Text
file_too_large_message = codes "文件过大，无法上传"

abbrev pub file_type_unsupported_message : Text
file_type_unsupported_message = codes "不支持该文件类型"

abbrev pub message_attachment_limit_message : Text
message_attachment_limit_message = codes "超出单条消息的附件数量或总大小限制"

-- What becomes of a file: `continue` after a rejection, `break` after one, or it is taken.
pub data Verdict : Type 0 where
  skip stop : Text → Verdict
  accept : Verdict

abbrev pub count_after : Verdict → ℕ → ℕ
count_after accept count = suc count
count_after _ count = count

abbrev pub total_after : Verdict → File → ℕ → ℕ
total_after accept file total = total + file.size
total_after _ file total = total

-- `rest` is what the loop makes of the files after this one.
abbrev pub put : Verdict → File → Chosen → Chosen
put (skip message) file rest = record rest { rejections = message ∷ rest.rejections }
put (stop message) file rest = record { accepted = []; rejections = message ∷ [] }
put accept file rest = record rest { accepted = file ∷ rest.accepted }

abbrev pub total_of : List File → ℕ
total_of [] = 0
total_of (f ∷ fs) = f.size + total_of fs

abbrev pub draft_total : List DraftAttachment → ℕ
draft_total [] = 0
draft_total (a ∷ rest) = a.size_bytes + draft_total rest

abbrev pub first_of : List Text → Option Text
first_of [] = none
first_of (t ∷ ts) = some t

module _ (lower : Text → Text) (capability : FilesCapability) where
  -- `listed || capability.accepts_unlisted_text === true`.
  unfoldable pub is_supported : Text → Bool
  unfolding file_extension text_eq
  is_supported name =
      let extension = file_extension lower name in
      not (is_empty extension) && includes (map lower capability.allowed_extensions) extension
      || or_else capability.accepts_unlisted_text false

  -- `limit != null && file.size > limit`.
  unfoldable pub is_too_big : File → Bool
  unfolding category_limit
  is_too_big file = elim (category_limit lower capability.category_max_bytes file.name) [
    | none ↦ false
    | some limit ↦ ltb limit file.size
  ]

  -- What the body of the loop does with a file, with `count` attachments of `total` bytes so far.
  unfoldable pub verdict : ℕ → ℕ → File → Verdict
  unfolding is_supported is_too_big
  verdict count total file =
      if not (is_supported file.name)
      then skip file_type_unsupported_message
      else if leb capability.max_attachments_per_message count
      then stop message_attachment_limit_message
      else if is_too_big file
      then skip file_too_large_message
      else if ltb capability.max_message_bytes (total + file.size)
      then skip message_attachment_limit_message
      else accept

  -- The loop.
  unfoldable pub choose : ℕ → ℕ → List File → Chosen
  unfolding verdict
  choose count total [] = record { accepted = []; rejections = [] }
  choose count total (file ∷ files) =
      let v = verdict count total file in
      let rest = choose (count_after v count) (total_after v file total) files in put v file rest

-- The message without an enabled capability.
abbrev pub unavailable : Bool → Text
unavailable can_create =
    if can_create
    then codes "File uploads are currently unavailable."
    else codes "Verify your email before uploading files."

abbrev pub nothing : AddFilesResult
nothing = record { started = []; error = none; reported = []; blocked = [] }

-- A rejection of all files.
abbrev pub refuse : Bool → Text → AddFilesResult
refuse quiet message = record nothing {
  error = some message;
  reported = if quiet then [] else message ∷ [];
}

-- `addFiles`; `supports_images` is `selectedModel?.supports_image_input === true`, `capability` may be
-- missing.
unfoldable pub add_files :
    (Text → Text)
    → Option FilesCapability
    → (can_create supports_images quiet : Bool) → List DraftAttachment
    → List File
    → AddFilesResult
unfolding choose category_for_file_name text_eq
add_files lower capability can_create supports_images quiet attachments selected =
    if is_empty selected then nothing else elim capability [
      | none ↦ refuse quiet (unavailable can_create)
      | some c ↦
          if not c.enabled || not can_create
          then refuse quiet (unavailable can_create)
          else if any (λ (f : File). text_eq (category_for_file_name lower f.name) (codes "image"))
                selected
              && not supports_images
          then record nothing { blocked = selected }
          else let chosen =
              choose lower c (length attachments) (draft_total attachments) selected in
            record {
              started = chosen.accepted;
              error = first_of chosen.rejections;
              reported = if quiet then [] else chosen.rejections;
              blocked = [];
            }
    ]
