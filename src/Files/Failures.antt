-- ===== src/Files/Failures.antt =====
-- Attachments that fail, over the steps of the hook (frontend/src/files/useAttachmentUploads.ts).
use ichat.Base.{
  ℕ, suc, ◌≡◌, refl, ◌∙◌, Bool, false, ◌&&◌, ◌||◌, not, Option, none, some, List, [], ◌∷◌, ◌++◌,
  map, Text, filter, length, any, any-append, ◌==◌, if◌then◌else◌, arith, Bool-cases, Option-cases,
  inl, inr,
}
use ichat.Api.Types.{AttachmentOrigin}
use ichat.Files.Types.{DraftAttachment, FileUploadRecord, FileUploadSession}
use ichat.Files.Utils.{is_failure, is_upload_failed, draft_from_upload}
use ichat.Files.Select.{File}
use ichat.Files.Drafts.{AttachmentDraft, read_draft, clear_other_users, attachment_prefix}
use ichat.Files.Uploads.{
  Uploads, same_attachment_list, is_client, is_upload, not_failed, is_removed, is_error,
  apply_record, apply_session, index_of_client, move,
}
use ichat.Files.Hook.{
  persist, commit, restore_user, enter, set_draft_content, update_upload_record, draft_of,
  start_file, on_session, on_confirmed, on_upload_error, commit_for, on_cancelled, move_attachment,
  clear, on_polled, on_images_removed,
}
use ichat.Files.Steps.{
  Step, entered, typed, started, opened, confirmed, broken, cancelled, not_cancelled, moved,
  cleared, polled, images_removed, Reach, mounted, next,
}
use ichat.Files.Kept.{
  NoneFailed, filter-NoneFailed, map-NoneFailed, move_at-failed, apply_session-kept, update-kept,
  polled-kept, restored-kept,
}

module _ (lower : Text → Text) (parse : Text → Option AttachmentDraft)
    (stringify : AttachmentDraft → Text) where
  commit-NoneFailed :
      (f : List DraftAttachment → List DraftAttachment) (u : Uploads)
      → NoneFailed u.attachments
      → NoneFailed (f u.attachments)
      → NoneFailed (commit lower parse stringify f u).attachments
  unfolding commit
  commit-NoneFailed f u h k =
      elim (Bool-cases (same_attachment_list u.attachments (f u.attachments))) [
        | inl e ↦ rw (e, commit) h
        | inr e ↦ rw (e, commit) k
      ]

  added-NoneFailed :
      (a : DraftAttachment) (s : List DraftAttachment)
      → is_upload_failed a.status ≡ false
      → NoneFailed s
      → NoneFailed (s ++ a ∷ [])
  added-NoneFailed a s e h = record {
    kept =
        any-append (λ (x : DraftAttachment). is_upload_failed x.status) s (a ∷ [])
        ∙ ground (arith, h.kept);
  }

  abbrev update : FileUploadRecord → DraftAttachment → DraftAttachment
  update r a = if is_upload r.upload_id a then draft_from_upload a r else a

  commit-filter :
      (p : DraftAttachment → Bool) (u : Uploads)
      → NoneFailed u.attachments
      → NoneFailed (commit lower parse stringify (filter p) u).attachments
  commit-filter p u h = commit-NoneFailed (filter p) u h (filter-NoneFailed p u.attachments h)

  commit_for-filter :
      (user_id conversation_id : Option Text) (p : DraftAttachment → Bool) (u : Uploads)
      → NoneFailed u.attachments
      → NoneFailed
          (commit_for lower parse stringify user_id conversation_id (filter p) u).attachments
  unfolding commit_for
  commit_for-filter user_id conversation_id p u h =
      elim (Bool-cases (same_attachment_list u.attachments (filter p u.attachments))) [
        | inl e ↦ rw (e, commit_for) h
        | inr e ↦ rw (e, commit_for) (filter-NoneFailed p u.attachments h)
      ]

  restore_user-NoneFailed :
      (user : Text) (u : Uploads)
      → NoneFailed (restore_user lower parse stringify user u).attachments
  unfolding restore_user
  restore_user-NoneFailed user u =
      let drafts =
        (read_draft parse stringify user u.conversation_id
          (clear_other_users attachment_prefix user u.storage)).0.attachments in
      elim (Bool-cases (length (filter not_failed drafts) == length drafts)) [
        | inl e ↦ rw (e, restore_user) (record { kept = restored-kept drafts })
        | inr e ↦ rw (e, restore_user) (record { kept = restored-kept drafts })
      ]

  enter-NoneFailed :
      (user_id conversation_id : Option Text) (u : Uploads)
      → NoneFailed (enter lower parse stringify user_id conversation_id u).attachments
  unfolding enter
  enter-NoneFailed none c u = record { kept = refl }
  enter-NoneFailed (some user) c u =
      restore_user-NoneFailed user
        (record u { user_id = some user; conversation_id = c; scope_version = suc u.scope_version })

  persist-attachments :
      (s : List DraftAttachment) (u : Uploads)
      → (persist lower parse stringify s u).attachments ≡ u.attachments
  unfolding persist
  persist-attachments s u = elim (Option-cases u.user_id) [
    | inl e ↦ rw (e, persist) refl
    | inr (user, e) ↦ rw (e, persist) refl
  ]

  typed-NoneFailed :
      (content : Text) (u : Uploads)
      → NoneFailed u.attachments
      → NoneFailed (set_draft_content lower parse stringify content u).attachments
  unfolding set_draft_content
  typed-NoneFailed content u h =
      rw (persist-attachments u.attachments (record u { content = content })) h

  started-NoneFailed :
      (client_id : Text) (file : File) (media_type : Text) (preview : Option Text)
      (origin : AttachmentOrigin) (u : Uploads)
      → NoneFailed u.attachments
      → NoneFailed
          (start_file lower parse stringify client_id file media_type preview origin u).attachments
  unfolding start_file draft_of
  started-NoneFailed client_id file media_type preview origin u h =
      let a = draft_of lower parse stringify client_id file media_type preview origin in
      commit-NoneFailed (λ current. current ++ a ∷ []) u h (added-NoneFailed a u.attachments refl h)

  opened-NoneFailed :
      (n : ℕ) (client_id : Text) (session : FileUploadSession) (u : Uploads)
      → NoneFailed u.attachments
      → NoneFailed (on_session lower parse stringify n client_id session u).attachments
  unfolding on_session
  opened-NoneFailed n client_id session u h = elim (Bool-cases (n == u.scope_version)) [
    | inl e ↦
        rw (e, on_session)
          (commit-NoneFailed (map (apply_session client_id session)) u h (
            map-NoneFailed (apply_session client_id session) u.attachments
              (apply_session-kept client_id session) h))
    | inr e ↦ rw (e, on_session) h
  ]

  update-NoneFailed :
      (r : FileUploadRecord) (client_id : Text) (u : Uploads)
      → NoneFailed u.attachments
      → NoneFailed (update_upload_record lower parse stringify r client_id u).attachments
  unfolding update_upload_record
  update-NoneFailed r client_id u h =
      let left =
        commit-filter (λ a. not (is_client client_id a) && not (is_upload r.upload_id a)) u h in
      elim (Bool-cases (is_error r.status)) [
        | inl e ↦ rw (e, update_upload_record) left
        | inr e ↦ elim (Bool-cases (is_failure r.status)) [
          | inl k ↦ rw (e, k, update_upload_record) left
          | inr k ↦
              rw (e, k, update_upload_record)
                (commit-NoneFailed (map (update r)) u h
                  (map-NoneFailed (update r) u.attachments (λ a. update-kept r a k) h))
        ]
      ]

  confirmed-NoneFailed :
      (n : ℕ) (client_id : Text) (r : FileUploadRecord) (u : Uploads)
      → NoneFailed u.attachments
      → NoneFailed (on_confirmed lower parse stringify n client_id r u).attachments
  unfolding on_confirmed
  confirmed-NoneFailed n client_id r u h = elim (Bool-cases (n == u.scope_version)) [
    | inl e ↦ rw (e, on_confirmed) (update-NoneFailed r client_id u h)
    | inr e ↦ rw (e, on_confirmed) h
  ]

  broken-NoneFailed :
      (n : ℕ) (client_id : Text) (is_abort : Bool) (u : Uploads)
      → NoneFailed u.attachments
      → NoneFailed (on_upload_error lower parse stringify n client_id is_abort u).attachments
  unfolding on_upload_error
  broken-NoneFailed n client_id is_abort u h =
      elim (Bool-cases (not (n == u.scope_version) || is_abort)) [
        | inl e ↦ rw (e, on_upload_error) h
        | inr e ↦ rw (e, on_upload_error) (commit-filter (λ a. not (is_client client_id a)) u h)
      ]

  polled-NoneFailed :
      (records : List FileUploadRecord) (u : Uploads)
      → NoneFailed u.attachments
      → NoneFailed (on_polled lower parse stringify records u).attachments
  unfolding on_polled
  polled-NoneFailed records u h =
      let left =
        commit-NoneFailed
          (λ current. map (apply_record records) (filter (λ a. not (is_removed records a)) current))
          u h (record { kept = polled-kept records u.attachments h.kept }) in
      elim (Bool-cases (any (λ (r : FileUploadRecord). is_error r.status) records)) [
        | inl e ↦ rw (e, on_polled) left
        | inr e ↦ rw (e, on_polled) left
      ]

  Step-NoneFailed :
      {u v : Uploads}
      → Step lower parse stringify u v
      → NoneFailed u.attachments
      → NoneFailed v.attachments
  unfolding on_cancelled move_attachment move clear on_images_removed
  Step-NoneFailed {u} (entered user c) h = enter-NoneFailed user c u
  Step-NoneFailed {u} (typed content) h = typed-NoneFailed content u h
  Step-NoneFailed {u} (started i f m p o) h = started-NoneFailed i f m p o u h
  Step-NoneFailed {u} (opened n i session) h = opened-NoneFailed n i session u h
  Step-NoneFailed {u} (confirmed n i r) h = confirmed-NoneFailed n i r u h
  Step-NoneFailed {u} (broken n i b) h = broken-NoneFailed n i b u h
  Step-NoneFailed {u} (cancelled n c i) h = commit_for-filter n c (λ a. not (is_client i a)) u h
  Step-NoneFailed {u} not_cancelled h = h
  Step-NoneFailed {u} (moved i d) h =
      commit-NoneFailed (move i d) u h (record {
        kept = move_at-failed (index_of_client i u.attachments) d u.attachments ∙ h.kept;
      })
  Step-NoneFailed {u} cleared h = record { kept = refl }
  Step-NoneFailed {u} (polled records) h = polled-NoneFailed records u h
  Step-NoneFailed {u} (images_removed n c before) h = commit_for-filter n c _ u h

  -- Whatever the user and the service do, in whatever order, no attachment of the composer is one that
  -- failed: such an attachment is taken away with the step that makes it fail, or when it is restored.
  pub Reach-NoneFailed : {u : Uploads} → Reach lower parse stringify u → NoneFailed u.attachments
  Reach-NoneFailed (mounted user c storage) = record { kept = refl }
  Reach-NoneFailed (next r step) = Step-NoneFailed step (Reach-NoneFailed r)
