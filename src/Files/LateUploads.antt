-- ===== src/Files/LateUploads.antt =====
-- Answers to the uploads of a conversation that the composer has left
-- (frontend/src/files/useAttachmentUploads.ts, `scopeVersionRef`).
use ichat.Base.{
  suc, ◌≤◌, ◌≡◌, refl, Bool, false, ◌&&◌, not, Option, none, some, List, map, Text, filter, ◌==◌,
  if◌then◌else◌, arith, Option-cases, inl, inr,
}
use ichat.Files.Types.{DraftAttachment, FileUploadRecord, FileUploadSession}
use ichat.Files.Utils.{draft_from_upload}
use ichat.Files.Drafts.{AttachmentDraft}
use ichat.Files.Uploads.{
  Uploads, is_client, is_upload, is_removed, apply_record, apply_session, move,
}
use ichat.Files.Hook.{
  persist, commit, restore_user, enter, set_draft_content, update_upload_record, draft_of,
  start_file, on_session, on_confirmed, on_upload_error, commit_for, on_cancelled, move_attachment,
  clear, on_polled, on_images_removed,
}
use ichat.Files.Steps.{
  Step, entered, typed, started, opened, confirmed, broken, cancelled, not_cancelled, moved,
  cleared, polled, images_removed,
}

module _ (lower : Text → Text) (parse : Text → Option AttachmentDraft)
    (stringify : AttachmentDraft → Text) where
  abbrev committed : (List DraftAttachment → List DraftAttachment) → Uploads → Uploads
  committed = commit lower parse stringify

  persist-scope :
      (s : List DraftAttachment) (u : Uploads)
      → (persist lower parse stringify s u).scope_version ≡ u.scope_version
  unfolding persist
  persist-scope s u = elim (Option-cases u.user_id) [
    | inl e ↦ rw (e, persist) refl
    | inr (user, e) ↦ rw (e, persist) refl
  ]

  commit-scope :
      (f : List DraftAttachment → List DraftAttachment) (u : Uploads)
      → (committed f u).scope_version ≡ u.scope_version
  unfolding commit
  commit-scope f u = ground (arith, persist-scope (f u.attachments) u)

  commit_for-scope :
      (user_id conversation_id : Option Text) (f : List DraftAttachment → List DraftAttachment)
      (u : Uploads)
      → (commit_for lower parse stringify user_id conversation_id f u).scope_version
        ≡ u.scope_version
  unfolding commit_for
  commit_for-scope user_id conversation_id f u = ground arith

  restore_user-scope :
      (user : Text) (u : Uploads)
      → (restore_user lower parse stringify user u).scope_version ≡ u.scope_version
  unfolding restore_user
  restore_user-scope user u = ground arith

  enter-scope :
      (user_id conversation_id : Option Text) (u : Uploads)
      → (enter lower parse stringify user_id conversation_id u).scope_version ≡ suc u.scope_version
  unfolding enter
  enter-scope none c u = refl
  enter-scope (some user) c u =
      restore_user-scope user
        (record u { user_id = some user; conversation_id = c; scope_version = suc u.scope_version })

  update-scope :
      (r : FileUploadRecord) (client_id : Text) (u : Uploads)
      → (update_upload_record lower parse stringify r client_id u).scope_version ≡ u.scope_version
  unfolding update_upload_record
  update-scope r client_id u = ground (
    arith,
    commit-scope (filter (λ a. not (is_client client_id a) && not (is_upload r.upload_id a))) u,
    commit-scope (map (λ a. if is_upload r.upload_id a then draft_from_upload a r else a)) u,
  )

  Step-scope : {u v : Uploads} → Step lower parse stringify u v → u.scope_version ≤ v.scope_version
  unfolding set_draft_content start_file draft_of on_session on_confirmed on_upload_error
      on_cancelled move_attachment move clear on_polled on_images_removed
  Step-scope {u} (entered user c) = omega (arith, enter-scope user c u)
  Step-scope {u} (typed content) =
      omega (arith, persist-scope u.attachments (record u { content = content }))
  Step-scope {u} (started i f m p o) = omega (arith, commit-scope _ u)
  Step-scope {u} (opened n i session) =
      ground (arith, commit-scope (map (apply_session i session)) u)
  Step-scope {u} (confirmed n i r) = ground (arith, update-scope r i u)
  Step-scope {u} (broken n i b) = ground (arith, commit-scope (filter (λ a. not (is_client i a))) u)
  Step-scope {u} (cancelled n c i) =
      omega (arith, commit_for-scope n c (filter (λ a. not (is_client i a))) u)
  Step-scope {u} not_cancelled = omega arith
  Step-scope {u} (moved i d) = omega (arith, commit-scope (move i d) u)
  Step-scope {u} cleared = omega arith
  Step-scope {u} (polled records) = ground (
    arith,
    commit-scope
        (λ current. map (apply_record records) (filter (λ a. not (is_removed records a)) current))
        u,
  )
  Step-scope {u} (images_removed n c before) = omega (arith, commit_for-scope n c _ u)

  -- Any number of steps.
  pub data Steps (u : Uploads) : Uploads → Type 0 where
    here : Steps u u
    further : {v w : Uploads} → Steps u v → Step lower parse stringify v w → Steps u w

  Steps-scope : {u v : Uploads} → Steps u v → u.scope_version ≤ v.scope_version
  Steps-scope here = omega arith
  Steps-scope (further steps step) = omega (arith, Step-scope step, Steps-scope steps)

  -- Once the composer has gone to another conversation or user, whatever happens after that, the session,
  -- the confirmation and the failure of an upload that was started before change nothing.
  pub late_answers_change_nothing :
      (user_id conversation_id : Option Text) (client_id : Text) (session : FileUploadSession)
      (r : FileUploadRecord) (is_abort : Bool) (u : Uploads) {v : Uploads}
      → Steps (enter lower parse stringify user_id conversation_id u) v
      → (on_session lower parse stringify u.scope_version client_id session v ≡ v)
        × (on_confirmed lower parse stringify u.scope_version client_id r v ≡ v)
        × (on_upload_error lower parse stringify u.scope_version client_id is_abort v ≡ v)
  unfolding on_session on_confirmed on_upload_error
  late_answers_change_nothing user c client_id session r is_abort u {v} steps =
      let old : (u.scope_version == v.scope_version) ≡ false =
        ground (arith, Steps-scope steps, enter-scope user c u) in
      rw old (refl, refl, refl)
