-- ===== src/Stream/Recovery.antt =====
-- Recovery of a run on entry of a conversation (frontend/src/runs/useRunRecovery.ts): the code
-- between two awaits, on the state that the store has then. A failed request ends the recovery
-- without a dispatch.
use ichat.Base.{
  ℕ, Bool, true, false, not, Option, none, some, List, [], length, Text, option_is, text_eq,
  or_else, if◌then◌else◌,
}
use ichat.Api.Types.{ConversationResponse, RunStatus, RunToolSource, RunToolState}
use ichat.App.Action
use ichat.App.Store.{AppState, root_reducer}
use ichat.Conversation.Pagination.{has_more_conversation_pages}
use ichat.Run.State.{ActiveRun}
use ichat.Run.Pending.{find_pending_run_id}
use ichat.Stream.Handler.{ConversationDetailResponse, dispatch_if}

-- `terminal_event` is left out: the client does not read it.
pub record RunStateResponse : Type 0 where
  pub run_id : Text
  pub provider_name : Text
  pub status : RunStatus
  pub latest_seq : ℕ
  pub draft_text : Text
  pub draft_reasoning : Text
  pub draft_reasoning_summary : Option Text
  pub tool_state : Option RunToolState
  pub sources : Option (List RunToolSource)

-- `conversationDetail.conversation?.id === conversationId`.
unfoldable pub shows_detail : Text → Option ConversationResponse → Bool
shows_detail conversation_id none = false
shows_detail conversation_id (some c) = text_eq c.id conversation_id

-- `activeRun?.conversationId === conversationId`.
unfoldable pub is_attached : Text → Option ActiveRun → Bool
is_attached conversation_id none = false
is_attached conversation_id (some run) = text_eq run.conversation_id conversation_id

-- Up to the first `await`: the run whose state is asked for, `none` where the recovery returns.
unfoldable pub pending_recovery : Text → AppState → Option Text
unfolding shows_detail is_attached find_pending_run_id
pending_recovery conversation_id s =
    if not (shows_detail conversation_id s.conversation_detail.conversation)
    then none
    else if is_attached conversation_id s.active_run
    then none
    else find_pending_run_id s.conversation_detail.messages

-- What follows the answer: nothing, the requests for the detail and the list, or a stream of the run
-- from a sequence number on.
pub data Next : Type 0 where
  stop refetch : Next
  stream : Text → Text → ℕ → Next

-- The payload of `run/restored`.
abbrev pub snapshot_of : Text → Text → RunStateResponse → Action.RunSnapshot
snapshot_of run_id conversation_id r = record {
  run_id = run_id;
  conversation_id = conversation_id;
  provider_name = some r.provider_name;
  latest_seq = r.latest_seq;
  draft_text = r.draft_text;
  draft_reasoning = r.draft_reasoning;
  draft_reasoning_summary = some (or_else r.draft_reasoning_summary []);
  tool_state = r.tool_state;
  sources = r.sources;
  status = r.status;
}

abbrev pub is_succeeded : RunStatus → Bool
is_succeeded RunStatus.succeeded = true
is_succeeded _ = false

abbrev pub is_failed : RunStatus → Bool
is_failed RunStatus.failed = true
is_failed RunStatus.cancelled = true
is_failed _ = false

module _ (date_parse : Text → Option ℕ) where
  -- From the answer of `runApi.state` on, up to the next `await`.
  unfoldable pub on_run_state : Text → Text → RunStateResponse → AppState → AppState × Next
  on_run_state run_id conversation_id r s =
      if not (option_is s.conversation_index.selected_id conversation_id)
      then (s, stop)
      else if is_succeeded r.status
      then (s, refetch)
      else (
        root_reducer date_parse s (Action.run_restored (snapshot_of run_id conversation_id r)),
        if is_failed r.status then stop else stream run_id conversation_id r.latest_seq,
      )

  -- After the requests that follow a succeeded run.
  unfoldable pub on_refetched :
      Text → ConversationDetailResponse → List ConversationResponse → AppState → AppState
  unfolding dispatch_if has_more_conversation_pages
  on_refetched conversation_id detail list s =
      let loaded =
        root_reducer date_parse s
          (Action.list_loaded list none (some (has_more_conversation_pages (length list)))) in
      let activated = root_reducer date_parse loaded Action.draft_activated in
      dispatch_if date_parse (option_is activated.conversation_index.selected_id conversation_id)
        (Action.detail_loaded detail.conversation detail.messages detail.image_context) activated
