-- ===== src/Tests/Recovery.antt =====
-- The recovery of a run on a concrete state.
use ichat.Base.{◌≡◌, ◌≢◌, ◌⊎◌, refl, none, some, List, [], ◌∷◌, codes, text_eq}
use ichat.Api.Types.{ConversationResponse, RunStatus, MessageRole, no_images}
use ichat.App.Action
use ichat.App.Store.{AppState, initial_state, dispatch_all}
use ichat.Conversation.Detail.{DetailStatus}
use ichat.Run.State.{ActiveRun}
use ichat.Run.Pending.{Awaits, is_materialized, find_pending_run_id, scan}
use ichat.Stream.Recovery.{
  RunStateResponse, shows_detail, is_attached, pending_recovery, on_run_state,
}
use ichat.Stream.Resume.{pending_recovery-Awaits, recovers_once}
use ichat.Tests.Data.{unit_date, row_a, index, message}

-- The conversation is open, and its last question has no reply.
abbrev state : AppState
state = record initial_state {
  conversation_index = record index { selected_id = some (codes "a") };
  conversation_detail = record {
    conversation = some row_a;
    messages = message (codes "q") MessageRole.user (some (codes "r")) ∷ [];
    image_context = record {
      state = no_images;
      legacy_message_id = none;
      recommended_model = none;
    };
    status = DetailStatus.ready;
  };
}

abbrev answer : RunStateResponse
answer = record {
  run_id = codes "r";
  provider_name = codes "x";
  status = RunStatus.streaming;
  latest_seq = 1;
  draft_text = codes "Hi";
  draft_reasoning = [];
  draft_reasoning_summary = none;
  tool_state = none;
  sources = none;
}

state-pending : pending_recovery (codes "a") state ≡ some (codes "r")
unfolding pending_recovery find_pending_run_id scan is_materialized shows_detail is_attached text_eq
state-pending = refl

pending_recovery-Awaits_example :
    ((c : ConversationResponse) × (state.conversation_detail.conversation ≡ some c)
      × (c.id ≡ codes "a"))
    × ((state.active_run ≡ none)
        ⊎ ((r : ActiveRun) × (state.active_run ≡ some r) × (r.conversation_id ≢ codes "a")))
    × Awaits state.conversation_detail.messages (some (codes "r"))
pending_recovery-Awaits_example =
    pending_recovery-Awaits (codes "a") state (codes "r") state-pending

-- The run goes on and ends, and the thread is loaded again.
abbrev meanwhile : List Action.AppAction
meanwhile =
    Action.text_delta 2 (codes "!")
    ∷ Action.run_terminal Action.failed
    ∷ Action.detail_loaded row_a (message (codes "q") MessageRole.user (some (codes "r")) ∷ []) none
    ∷ []

recovers_once_example :
    pending_recovery (codes "a") (
      dispatch_all unit_date
        (on_run_state unit_date (codes "r") (codes "a") answer state).0
        meanwhile)
    ≡ none
recovers_once_example =
    recovers_once unit_date (codes "r") (codes "a") answer state meanwhile (unfold text_eq in refl)
      refl refl
