-- ===== src/Files/Hook.antt =====
-- The callbacks of `useAttachmentUploads` (frontend/src/files/useAttachmentUploads.ts), each up to its
-- `await` or from there on. `scope_version` is the one that a callback was started with.
use ichat.Base.{
  ℕ, suc, Bool, ◌&&◌, ◌||◌, not, Option, none, some, List, [], ◌∷◌, ◌++◌, map, Text, codes, filter,
  length, any, includes, text_eq, ◌==◌, if◌then◌else◌,
}
use ichat.Api.Types.{AttachmentOrigin, ModelInputKind}
use ichat.Files.Types.{creating, DraftAttachment, FileUploadRecord, FileUploadSession}
use ichat.Files.Utils.{category_for_file_name, is_failure, draft_from_upload}
use ichat.Files.Select.{File}
use ichat.Files.Drafts.{
  AttachmentDraft, clear_other_users, attachment_prefix, read_draft, write_draft, clear_draft,
}
use ichat.Files.Uploads.{
  Uploads, same_attachment_list, file_upload_failure_message, report, is_client, is_upload,
  not_failed, is_removed, is_error, apply_record, apply_session, is_image, Direction, move,
}

module _ (lower : Text → Text) (parse : Text → Option AttachmentDraft)
    (stringify : AttachmentDraft → Text) where
  -- `persist`.
  unfoldable pub persist : List DraftAttachment → Uploads → Uploads
  unfolding write_draft
  persist next u = elim u.user_id [
    | none ↦ u
    | some user ↦ record u {
      storage =
          write_draft parse stringify user u.conversation_id
            (record { content = u.content; attachments = next }) u.storage;
    }
  ]

  -- `commit`.
  unfoldable pub commit : (List DraftAttachment → List DraftAttachment) → Uploads → Uploads
  unfolding persist same_attachment_list
  commit updater u =
      let next = updater u.attachments in
      if same_attachment_list u.attachments next
      then u
      else record (persist next u) { attachments = next }

  -- The drafts of a user that are restored.
  unfoldable pub restore_user : Text → Uploads → Uploads
  unfolding clear_other_users read_draft write_draft
  restore_user user u =
      let read =
        read_draft parse stringify user u.conversation_id
          (clear_other_users attachment_prefix user u.storage) in
      let kept = filter not_failed read.0.attachments in
      let restored = record u { attachments = kept; content = read.0.content; storage = read.1 } in
      if length kept == length read.0.attachments
      then restored
      else report file_upload_failure_message (record restored {
        storage =
            write_draft parse stringify user u.conversation_id
              (record { content = read.0.content; attachments = kept }) read.1;
      })

  -- The effect of another user or conversation.
  unfoldable pub enter : Option Text → Option Text → Uploads → Uploads
  unfolding restore_user
  enter user_id conversation_id u =
      let scoped = record u {
        user_id = user_id;
        conversation_id = conversation_id;
        scope_version = suc u.scope_version;
      } in
      elim user_id [
        | none ↦ record scoped { attachments = []; content = [] }
        | some user ↦ restore_user user scoped
      ]

  -- `setDraftContent`.
  unfoldable pub set_draft_content : Text → Uploads → Uploads
  unfolding persist
  set_draft_content content u = persist u.attachments (record u { content = content })

  -- `updateUploadRecord`.
  unfoldable pub update_upload_record : FileUploadRecord → Text → Uploads → Uploads
  unfolding commit draft_from_upload text_eq
  update_upload_record r client_id u =
      let left =
        commit (filter (λ a. not (is_client client_id a) && not (is_upload r.upload_id a))) u in
      if is_error r.status
      then report file_upload_failure_message left
      else if is_failure r.status
      then left
      else commit (map (λ a. if is_upload r.upload_id a then draft_from_upload a r else a)) u

  -- `initial` of `startFile`.
  unfoldable pub draft_of : Text → File → Text → Option Text → AttachmentOrigin → DraftAttachment
  unfolding category_for_file_name text_eq
  draft_of client_id file media_type preview origin =
      let category = category_for_file_name lower file.name in
      record {
        client_id = client_id;
        upload_id = none;
        status = creating;
        error_code = none;
        error_message = none;
        file = none;
        name = file.name;
        media_type = media_type;
        size_bytes = file.size;
        category = category;
        model_input_kind =
            if text_eq category (codes "image") then some ModelInputKind.image else none;
        origin = some origin;
        local_preview_url = preview;
        session_expires_at = none;
      }

  -- `startFile` up to its request; the id, the media type and the preview URL are made there.
  unfoldable pub start_file :
      Text → File → Text → Option Text → AttachmentOrigin → Uploads → Uploads
  unfolding commit draft_of
  start_file client_id file media_type preview origin u =
      commit (λ current. current ++ draft_of client_id file media_type preview origin ∷ []) u

  -- The session of the upload, its confirmation, and the failure of either.
  unfoldable pub on_session : ℕ → Text → FileUploadSession → Uploads → Uploads
  unfolding commit
  on_session scope_version client_id session u =
      if not (scope_version == u.scope_version)
      then u
      else commit (map (apply_session client_id session)) u

  unfoldable pub on_confirmed : ℕ → Text → FileUploadRecord → Uploads → Uploads
  unfolding update_upload_record
  on_confirmed scope_version client_id r u =
      if not (scope_version == u.scope_version) then u else update_upload_record r client_id u

  unfoldable pub on_upload_error : ℕ → Text → (is_abort : Bool) → Uploads → Uploads
  unfolding commit
  on_upload_error scope_version client_id is_abort u =
      if not (scope_version == u.scope_version) || is_abort
      then u
      else report file_upload_failure_message (commit (filter (λ a. not (is_client client_id a))) u)

  -- The `commit` that a callback holds from the time when it was called, for a user and a conversation
  -- that may not be the current ones any more: the current attachments go into the draft of these.
  unfoldable pub commit_for :
      (user_id conversation_id : Option Text)
      → (List DraftAttachment → List DraftAttachment)
      → Uploads
      → Uploads
  unfolding persist same_attachment_list
  commit_for user_id conversation_id updater u =
      let next = updater u.attachments in
      let as_called = record u { user_id = user_id; conversation_id = conversation_id } in
      if same_attachment_list u.attachments next
      then u
      else record u { attachments = next; storage = (persist next as_called).storage }

  -- `cancelAttachment` after its request, and its failure. The user and the conversation are those of the
  -- call.
  unfoldable pub on_cancelled : (user_id conversation_id : Option Text) → Text → Uploads → Uploads
  unfolding commit_for
  on_cancelled user_id conversation_id client_id u =
      commit_for user_id conversation_id (filter (λ a. not (is_client client_id a))) u

  abbrev pub on_cancel_refused : Uploads → Uploads
  on_cancel_refused u = report (codes "The upload could not be cancelled. Please try again.") u

  -- `moveAttachment`.
  unfoldable pub move_attachment : Text → Direction → Uploads → Uploads
  unfolding commit move
  move_attachment client_id d u = commit (move client_id d) u

  -- `clear`.
  unfoldable pub clear : Uploads → Uploads
  unfolding clear_draft
  clear u = record u {
    attachments = [];
    storage = elim u.user_id [
      | none ↦ u.storage
      | some user ↦ clear_draft user u.conversation_id u.storage
    ];
  }

  -- The answer to a poll.
  unfoldable pub on_polled : List FileUploadRecord → Uploads → Uploads
  unfolding commit draft_from_upload
  on_polled records u =
      let left =
        commit
          (λ current. map (apply_record records) (filter (λ a. not (is_removed records a)) current))
          u in
      if any (λ (r : FileUploadRecord). is_error r.status) records
      then report file_upload_failure_message left
      else left

  -- `removeImages` after its requests; `before` were the attachments when they were made, and the user
  -- and the conversation are those of the call.
  unfoldable pub on_images_removed :
      (user_id conversation_id : Option Text) → List DraftAttachment → Uploads → Uploads
  unfolding commit_for text_eq
  on_images_removed user_id conversation_id before u =
      let ids = map (λ (a : DraftAttachment). a.client_id) (filter is_image before) in
      commit_for user_id conversation_id (filter (λ a. not (includes ids a.client_id))) u
