-- ===== src/Files/DraftRoundTrip.antt =====
-- Writing a draft and reading it back (`attachmentDraftStore` of frontend/src/files/draftStore.ts).
