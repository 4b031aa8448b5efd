-- ===== src/Tests/Files.antt =====
-- The attachments of a message on concrete states.
use ichat.Base.{
  ℕ, ◌≡◌, refl, arith, true, false, not, ◌||◌, Option, none, some, List, [], ◌∷◌, Text, codes,
  filter, starts_with, text_eq, if◌then◌else◌,
}
use ichat.Api.Types.{AttachmentOrigin}
use ichat.Files.Types.{
  FileUploadStatus, uploading, DraftAttachment, FileUploadRecord, FileUploadSession,
  FilesCapability,
}
use ichat.Files.Select.{File, add_files}
use ichat.Files.Selection.{Fits, add_files-Fits}
use ichat.Files.Drafts.{
  Storage, AttachmentDraft, serializable, write_draft, clear_all, clear_other_users, is_draft_key,
  own_prefix,
}
use ichat.Files.DraftKeys.{cleared_drafts}
use ichat.Files.Uploads.{Uploads}
use ichat.Files.Hook.{enter, start_file, on_session, on_confirmed, on_upload_error}
use ichat.Files.Kept.{NoneFailed}
use ichat.Files.Steps.{mounted, next, started}
use ichat.Files.Failures.{Reach-NoneFailed}
use ichat.Files.LateUploads.{here, further, late_answers_change_nothing}

-- The names of the tests are in lower case.
abbrev lower : Text → Text
lower t = t

abbrev limit_of : Text → Option ℕ
limit_of category = if text_eq category (codes "text") then some 60 else none

abbrev capability : FilesCapability
capability = record {
  enabled = true;
  allowed_extensions = codes "txt" ∷ codes "py" ∷ [];
  category_max_bytes = limit_of;
  accepts_unlisted_text = none;
  max_attachments_per_message = 2;
  max_message_bytes = 100;
}

abbrev file : Text → ℕ → File
file name size = record { name = name; size = size }

abbrev attachment : Text → DraftAttachment
attachment client_id = record {
  client_id = client_id;
  upload_id = none;
  status = uploading;
  error_code = none;
  error_message = none;
  file = none;
  name = codes "a.txt";
  media_type = codes "text/plain";
  size_bytes = 40;
  category = codes "text";
  model_input_kind = none;
  origin = none;
  local_preview_url = some (codes "blob");
  session_expires_at = none;
}

abbrev selected : List File
selected = file (codes "b.py") 50 ∷ file (codes "c.exe") 1 ∷ file (codes "d.txt") 5 ∷ []

add_files-Fits_example :
    Fits lower capability 1 40
      (add_files lower
        (some capability)
        true
        true
        false
        (attachment (codes "x") ∷ [])
        selected).started
add_files-Fits_example =
    add_files-Fits lower capability true true false (attachment (codes "x") ∷ []) selected
      (omega arith) (omega arith)

abbrev prefix : Text
prefix = codes "p"

abbrev storage : Storage
storage =
    (codes "p:1:a", codes "x")
    ∷ (codes "p:2:a", codes "y")
    ∷ (codes "q", codes "z")
    ∷ (codes "p:2:b", codes "w")
    ∷ []

cleared_drafts_example :
    (clear_all prefix storage ≡ filter (λ e. not (is_draft_key prefix e.0)) storage)
    × (clear_other_users prefix (codes "1") storage
        ≡ filter
            (λ e. not (is_draft_key prefix e.0) || starts_with (own_prefix prefix (codes "1")) e.0)
            storage)
cleared_drafts_example =
    cleared_drafts prefix (codes "1") storage (unfold text_eq in (refl, (refl, (refl, (refl, tt)))))

-- A draft with one attachment, written as its content after a brace.
abbrev draft : Text → AttachmentDraft
draft content = record { content = content; attachments = attachment (codes "x") ∷ [] }

abbrev parse : Text → Option AttachmentDraft
parse [] = none
parse (c ∷ t) = some (serializable (draft t))

abbrev stringify : AttachmentDraft → Text
stringify d = 0x7b ∷ d.content

abbrev written : Storage
written = write_draft parse stringify (codes "1") none (draft (codes "hi")) storage

abbrev first : Uploads
first = record {
  user_id = some (codes "1");
  conversation_id = none;
  attachments = [];
  content = [];
  scope_version = 0;
  storage = storage;
  errors = [];
}

abbrev added : Uploads → Uploads
added u =
    start_file lower parse stringify (codes "x") (file (codes "a.txt") 4) (codes "text/plain") none
      AttachmentOrigin.upload u

Reach-NoneFailed_example : NoneFailed (added first).attachments
Reach-NoneFailed_example = Reach-NoneFailed lower parse stringify {u = added first} (
    next {u = first} {v = added first} (mounted (some (codes "1")) none storage) (
      started (codes "x") (file (codes "a.txt") 4) (codes "text/plain") none
        AttachmentOrigin.upload))

abbrev session : FileUploadSession
session = record { upload_id = codes "u"; session_expires_at = codes "9" }

abbrev failure : FileUploadRecord
failure = record {
  upload_id = codes "u";
  status = FileUploadStatus.failed;
  error_code = none;
  message = none;
  file = none;
}

-- Another conversation was opened and a file selected there.
abbrev elsewhere : Uploads
elsewhere = enter lower parse stringify (some (codes "1")) (some (codes "c")) first

late_answers_change_nothing_example :
    let v = added elsewhere in
    (on_session lower parse stringify 0 (codes "x") session v ≡ v)
    × (on_confirmed lower parse stringify 0 (codes "x") failure v ≡ v)
    × (on_upload_error lower parse stringify 0 (codes "x") false v ≡ v)
late_answers_change_nothing_example =
    late_answers_change_nothing lower parse stringify (some (codes "1")) (some (codes "c"))
      (codes "x") session failure false first {v = added elsewhere}
      (further {v = elsewhere} {w = added elsewhere} here (
        started (codes "x") (file (codes "a.txt") 4) (codes "text/plain") none
          AttachmentOrigin.upload))
