-- ===== src/Lib.antt =====
-- iChat is a chat application: a Python service that runs language models, and a browser client in
-- TypeScript (frontend/src). This library models the client's logic: the client of the API with
-- its refresh of tokens, the parser of the event stream, the store with its reducers, the hooks that
-- select, send and regenerate, the options of a run, the task that reads a run's events into the store,
-- the attachments of the composer, and sign-in and sign-out.
--
-- How the parts interact. The client keeps one state, `AppState`, that only `rootReducer` changes:
-- every action is handed to the reducer of each slice. A run of the service is read as server-sent
-- events (`SseParser`); `useRunStream` turns each event into actions, while the rest of the client
-- (navigation, polls of the conversation list, other runs) dispatches its own in between. Every hook
-- is cut at its awaits: a function models the code between two of them, and a step relation
-- interleaves these functions with whatever else runs (Stream/Task, Conversation/ThreadSteps,
-- Api/Client/Steps, Files/Steps). The end of a session (Auth/Hook) resets the store, the tokens and
-- the drafts of Files/Drafts together.
--
-- The files:
--   Base          JavaScript strings as lists of UTF-16 units, the array methods that the code calls
--                 (Base/Lists, Base/Strings), Boolean tests on numbers (Base/Tests)
--   Api/Types     the payload types of frontend/src/api/types.ts and frontend/src/files/types.ts
--   Api/Sse       frontend/src/api/sse.ts: `find_boundary`, `parse_event`, `push`,
--                 `decode_sse_stream`; below it the scan that `findBoundary` is compared with
--                 (Boundary, Cut), chunks (Chunks), the format written out (Format, Lines) and the
--                 round trip (RoundTrip)
--   Api/Errors    frontend/src/api/errors.ts; Api/Json holds the payloads and the reading of them
--   Api/Client    frontend/src/api/client.ts with frontend/src/auth/tokenStore.ts: requests that share
--                 a refresh, interleaved in any order (Steps); SingleFlight, Progress and LateRefresh
--                 reason about them
--   Api/Session   `createAuthSession` of frontend/src/auth/tokenStore.ts
--   App/Action    the union `AppAction` of frontend/src/app/store.ts
--   App/Slices    `authReducer` (frontend/src/auth/state.ts), `uiReducer` (frontend/src/ui/state.ts),
--                 `pendingSubmissionReducer` (frontend/src/conversations/submission.ts) and
--                 `composerReducer` (frontend/src/app/store.ts)
--   App/Store     `AppState` and `rootReducer`; App/Logout and App/Toasts reason about them
--   Files         frontend/src/files: types.ts (Types), utils.ts (Utils), `addFiles` (Select, with
--                 Selection), draftStore.ts and the loops of
--                 frontend/src/conversations/replyQuoteDraftStore.ts (Drafts, with DraftKeys and
--                 DraftRoundTrip), and the rest of useAttachmentUploads.ts (Uploads and Hook); its
--                 callbacks in any order (Steps), and what they keep (Kept, Failures, LateUploads, Move)
--   Auth          frontend/src/auth/useAuthSession.ts with frontend/src/app/authExpiry.ts and the start
--                 of frontend/src/app/AppProvider.tsx (Hook), and authErrorMessages.ts (ErrorMessages);
--                 SignOut reasons about the end of a session
--   Messages      `conversationSources` of frontend/src/messages/sourceUtils.ts (Sources, with Resolved)
--                 and `clampStreamingMath` of mathDelimiters.ts there (Math, with Clamped)
--   ModelAdmin    frontend/src/model-admin/catalogView.ts (Catalog, with Routes)
--   Search        `buildVisibleSearchText` of frontend/src/search/searchText.ts (VisibleText, with
--                 Tidy, Located and Points)
--   Run/State     frontend/src/runs/state.ts: `active_run_reducer`, a function for each longer branch,
--                 `merge_sources`; Run/Sources, Run/Invariant, Run/Stream and Run/Cancel reason about
--                 it
--   Run/Options   frontend/src/runs/thinkingLevel.ts, modelPreference.ts, webSearchPreference.ts and
--                 runOptions.ts; Run/Choice reasons about them
--   Run/Pending   frontend/src/runs/pendingRun.ts
--   Conversation  frontend/src/conversations/state.ts: helpers on rows (Rows), the index reducer
--                 (Index, with its theorems below it), the detail reducer (Detail); and
--                 frontend/src/conversations/useConversationMarkers.ts (Markers, with PinLimit and
--                 PinFailure), useConversationListSync.ts (Sync, with Titles), pagination.ts
--                 (Pagination), useConversationLoader.ts and selectionStore.ts (Loader),
--                 useSendMessage.ts (Send) and useRegenerate.ts (Regenerate); Thread, ThreadKept,
--                 ThreadSteps, OneSend and LateAnswers reason about the last three
--   Stream        frontend/src/runs/useRunStream.ts: the code between two awaits (Handler), its
--                 interleaving with other dispatches as a step relation (Task), the run that is
--                 shown meanwhile (Isolation, Stop) and the other slices (Scope); frontend/src/runs/useRunRecovery.ts (Recovery, with
--                 its theorems in Resume)
--   Tests         the theorems at concrete inputs
--
-- Conventions. A value that may be null or absent is an `Option`. Numbers are natural numbers: ids,
-- sequence numbers and counts are never negative. `Date.parse` is a parameter, with `none` for NaN.
-- A `Map` built from a list answers with the last of its entries, a `find` with the first. A record
-- that the code returns unchanged and a copy with the same fields are the same here. `localStorage` is
-- a list of entries, whose order a removal keeps.
--
-- Fuel. The loop of `push` runs on fuel, one round more than the buffer has units; each round that
-- goes on takes at least the two units of a boundary off, so the loop ends by its own test first.
--
-- Not modelled: the service (Python), the React views, the requests behind the API services, the
-- building of URLs, the transfer of files, pasted text, shares, the validation of stored reply quotes,
-- the scanner of citations and the rewriting of math, the ranges of search results, scrolling. Of
-- `useRunStream`, the abort of an earlier stream and `toolStateFromEvent`, whose result is a field of
-- the event. Of an error, the fields `detail`, `payload` and `cause`. `toLowerCase`, `localeCompare`,
-- JSON texts and the split by a regular expression are parameters where they are used. The directory
-- design/ holds a second frontend, near to a copy of this one.
pub mod Base
pub mod Api
pub mod App
pub mod Files
pub mod Auth
pub mod Messages
pub mod ModelAdmin
pub mod Search
pub mod Run
pub mod Conversation
pub mod Stream
pub mod Tests
