-- ===== src/Files/Selection.antt =====
-- The limits on the files of a message, and what `addFiles` takes
-- (frontend/src/files/useAttachmentUploads.ts).
use ichat.Base.{
  ℕ, suc, ◌+◌, ◌≤◌, ◌≡◌, ◌⊎◌, refl, ap, Bool, true, false, ◌&&◌, not, some, List, [], ◌∷◌, Text,
  all, length, is_empty, is_some, arith, inl, inr,
}
use ichat.Files.Types.{FilesCapability, DraftAttachment}
use ichat.Files.Select.{
  File, Chosen, Verdict, skip, stop, accept, count_after, total_after, put, total_of, draft_total,
  is_supported, is_too_big, verdict, choose, add_files,
}

-- What holds of an accepted file.
abbrev pub is_allowed : (Text → Text) → FilesCapability → File → Bool
is_allowed lower c file = is_supported lower c file.name && not (is_too_big lower c file)

-- The files keep to the limits next to `count` attachments of `total` bytes.
pub record Fits (lower : Text → Text) (c : FilesCapability) (count total : ℕ) (files : List File)
    : Type 0 where
  pub few : count + length files ≤ c.max_attachments_per_message
  pub small : total + total_of files ≤ c.max_message_bytes
  pub allowed : all (is_allowed lower c) files ≡ true

module _ (lower : Text → Text) (capability : FilesCapability) where
  verdict-accept :
      (count total : ℕ) (file : File)
      → verdict lower capability count total file ≡ accept
      → (suc count ≤ capability.max_attachments_per_message)
        × (total + file.size ≤ capability.max_message_bytes)
        × (is_allowed lower capability file ≡ true)
  unfolding verdict
  verdict-accept count total file h = ground arith

  put-Fits :
      (count total : ℕ) (file : File) (v : Verdict) (rest : Chosen)
      → verdict lower capability count total file ≡ v
      → count ≤ capability.max_attachments_per_message
      → total ≤ capability.max_message_bytes
      → Fits lower capability (count_after v count) (total_after v file total) rest.accepted
      → Fits lower capability count total (put v file rest).accepted
  put-Fits count total file (skip m) rest e h k f = f
  put-Fits count total file (stop m) rest e h k f = record {
    few = omega (arith, h);
    small = omega (arith, k);
    allowed = refl;
  }
  put-Fits count total file accept rest e h k f = record {
    few = omega (arith, f.few);
    small = omega (arith, f.small);
    allowed = ground (arith, f.allowed, verdict-accept count total file e);
  }

  after-fits :
      (count total : ℕ) (file : File) (v : Verdict)
      → verdict lower capability count total file ≡ v
      → count ≤ capability.max_attachments_per_message
      → total ≤ capability.max_message_bytes
      → (count_after v count ≤ capability.max_attachments_per_message)
        × (total_after v file total ≤ capability.max_message_bytes)
  after-fits count total file (skip m) e h k = (h, k)
  after-fits count total file (stop m) e h k = (h, k)
  after-fits count total file accept e h k =
      let (few, small, rest) = verdict-accept count total file e in (few, small)

  choose-Fits :
      (files : List File) (count total : ℕ)
      → count ≤ capability.max_attachments_per_message
      → total ≤ capability.max_message_bytes
      → Fits lower capability count total (choose lower capability count total files).accepted
  unfolding choose
  choose-Fits [] count total h k = record {
    few = omega (arith, h);
    small = omega (arith, k);
    allowed = refl;
  }
  choose-Fits (file ∷ files) count total h k =
      let (few, small) =
        after-fits count total file (verdict lower capability count total file) refl h k in
      put-Fits count total file (verdict lower capability count total file) _ refl h k
        (choose-Fits files _ _ few small)

  -- Without a rejection every file is taken.
  put-all :
      (v : Verdict) (file : File) (files : List File) (rest : Chosen)
      → (is_empty rest.rejections ≡ true → rest.accepted ≡ files)
      → is_empty (put v file rest).rejections ≡ true
      → (put v file rest).accepted ≡ file ∷ files
  put-all (skip m) file files rest h e = cc
  put-all (stop m) file files rest h e = cc
  put-all accept file files rest h e = ap (λ t. file ∷ t) (h e)

  choose-all :
      (files : List File) (count total : ℕ)
      → is_empty (choose lower capability count total files).rejections ≡ true
      → (choose lower capability count total files).accepted ≡ files
  unfolding choose
  choose-all [] count total h = refl
  choose-all (file ∷ files) count total h =
      put-all (verdict lower capability count total file) file files _ (choose-all files _ _) h

  abbrev picked : List DraftAttachment → List File → Chosen
  picked attachments selected =
      choose lower capability (length attachments) (draft_total attachments) selected

  -- Either no file is taken, or those that the loop accepts.
  add_files-started :
      (can_create supports_images quiet : Bool) (attachments : List DraftAttachment)
      (selected : List File)
      → let r =
          add_files lower (some capability) can_create supports_images quiet attachments selected in
        (r.started ≡ []) ⊎ (r.started ≡ (picked attachments selected).accepted)
  unfolding add_files
  add_files-started can_create supports_images quiet attachments selected = ground arith

  -- Next to attachments that keep to the limits of a message, `addFiles` takes files that keep to them
  -- too, in number and in bytes, each of a supported type and within the limit of its category.
  pub add_files-Fits :
      (can_create supports_images quiet : Bool) (attachments : List DraftAttachment)
      (selected : List File)
      → length attachments ≤ capability.max_attachments_per_message
      → draft_total attachments ≤ capability.max_message_bytes
      → let r =
          add_files lower (some capability) can_create supports_images quiet attachments selected in
        Fits lower capability (length attachments) (draft_total attachments) r.started
  add_files-Fits can_create supports_images quiet attachments selected h k =
      elim (add_files-started can_create supports_images quiet attachments selected) [
        | inl e ↦ rw e (record { few = omega (arith, h); small = omega (arith, k); allowed = refl })
        | inr e ↦ rw e (choose-Fits selected (length attachments) (draft_total attachments) h k)
      ]

  -- Where `addFiles` gives no error and blocks no image, it takes every file, in their order.
  pub add_files-all :
      (can_create supports_images quiet : Bool) (attachments : List DraftAttachment)
      (selected : List File)
      → let r =
          add_files lower (some capability) can_create supports_images quiet attachments selected in
        is_some r.error ≡ false → is_empty r.blocked ≡ true → r.started ≡ selected
  unfolding add_files
  add_files-all can_create supports_images quiet attachments selected h k =
      ground (arith, choose-all selected (length attachments) (draft_total attachments))
