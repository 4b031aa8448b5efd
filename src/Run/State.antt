-- ===== src/Run/State.antt =====
-- `activeRunReducer` and `mergeSources` of frontend/src/runs/state.ts. `ActiveRunState` is
-- `Option ActiveRun`; the `default` branch is the last clause.
use ichat.Base.{
  ℕ, Bool, true, false, not, ◌&&◌, ◌||◌, Option, none, some, List, [], ◌++◌, Text, ◌==◌, any,
  is_empty, or_else, is_visible, if◌then◌else◌, ◌∷◌,
}
use ichat.Api.Types.{RunStatus, RunToolSource, RunToolState, ToolStatus}
use ichat.App.Action

pub data RunStreamPhase : Type 0 where
  waiting reasoning text tool : RunStreamPhase

pub record ActiveRun : Type 0 where
  pub run_id : Text
  pub conversation_id : Text
  pub provider_name : Option Text
  pub latest_seq : ℕ
  pub draft_text : Text
  pub draft_reasoning : Text
  pub draft_reasoning_summary : Text
  pub stream_phase : RunStreamPhase
  pub tool_state : Option RunToolState
  pub draft_sources : List RunToolSource
  pub status : RunStatus
  pub cancel_requested : Bool

abbrev pub initial_active_run_state : Option ActiveRun
initial_active_run_state = none

abbrev pub is_cancelling : RunStatus → Bool
is_cancelling RunStatus.cancelling = true
is_cancelling _ = false

abbrev pub is_terminal : RunStatus → Bool
is_terminal RunStatus.succeeded = true
is_terminal RunStatus.failed = true
is_terminal RunStatus.cancelled = true
is_terminal _ = false

abbrev pub is_running : ToolStatus → Bool
is_running ToolStatus.running = true
is_running _ = false

abbrev pub is_succeeded : ToolStatus → Bool
is_succeeded ToolStatus.succeeded = true
is_succeeded _ = false

-- The run's status after a terminal event.
abbrev pub of_terminal : Action.TerminalStatus → RunStatus
of_terminal Action.TerminalStatus.succeeded = RunStatus.succeeded
of_terminal Action.TerminalStatus.failed = RunStatus.failed
of_terminal Action.TerminalStatus.cancelled = RunStatus.cancelled

-- `seen.has(id)`.
abbrev pub has_id : List ℕ → ℕ → Bool
has_id seen id = any (λ x. x == id) seen

abbrev pub source_ids : List RunToolSource → List ℕ
source_ids [] = []
source_ids (s ∷ ss) = s.id ∷ source_ids ss

-- The `filter` of `mergeSources`, with the set that its callback extends.
unfoldable pub new_sources : List ℕ → List RunToolSource → List RunToolSource
new_sources seen [] = []
new_sources seen (s ∷ ss) = elim (has_id seen s.id) [
  | true ↦ new_sources seen ss
  | false ↦ s ∷ new_sources (s.id ∷ seen) ss
]

unfoldable pub merge_sources : List RunToolSource → List RunToolSource → List RunToolSource
merge_sources existing incoming =
    let added = new_sources (source_ids existing) incoming in
    if is_empty added then existing else existing ++ added

-- `state.status === "cancelling" ? state.status : "streaming"`.
abbrev pub keep_cancelling : RunStatus → RunStatus
keep_cancelling s = if is_cancelling s then s else RunStatus.streaming

-- Which of the two reasoning drafts a delta extends: an absent kind is raw.
abbrev pub is_summary : Option Action.DeltaKind → Bool
is_summary (some Action.DeltaKind.summary) = true
is_summary _ = false

unfoldable pub on_reasoning_delta : ℕ → Text → Option Action.DeltaKind → ActiveRun → ActiveRun
on_reasoning_delta seq t kind s = record s {
  draft_reasoning = if is_summary kind then s.draft_reasoning else s.draft_reasoning ++ t;
  draft_reasoning_summary =
      if is_summary kind then s.draft_reasoning_summary ++ t else s.draft_reasoning_summary;
  stream_phase = reasoning;
  tool_state = none;
  latest_seq = seq;
  status = keep_cancelling s.status;
}

unfoldable pub on_text_delta : ℕ → Text → ActiveRun → ActiveRun
on_text_delta seq t s =
    let has_visible_text = is_visible t in
    record s {
      draft_text = s.draft_text ++ t;
      stream_phase = if has_visible_text then text else s.stream_phase;
      tool_state = if has_visible_text then none else s.tool_state;
      latest_seq = seq;
      status = keep_cancelling s.status;
    }

unfoldable pub on_tool_state : ℕ → RunToolState → ActiveRun → ActiveRun
on_tool_state seq tool_state s = record s {
  latest_seq = seq;
  stream_phase = tool;
  tool_state = some tool_state;
  draft_sources =
      if is_succeeded tool_state.status
      then merge_sources s.draft_sources tool_state.sources
      else s.draft_sources;
  status = keep_cancelling s.status;
}

-- `keepToolState` of `run/restored`.
unfoldable pub keep_tool_state : Action.RunSnapshot → Bool
keep_tool_state a = elim a.tool_state [
  | none ↦ false
  | some t ↦ not (is_terminal a.status) && (is_running t.status || not (is_visible a.draft_text))
]

unfoldable pub restored_phase : Action.RunSnapshot → RunStreamPhase
unfolding keep_tool_state
restored_phase a =
    if keep_tool_state a
    then tool
    else if is_visible a.draft_text
    then text
    else if is_visible a.draft_reasoning || is_visible (or_else a.draft_reasoning_summary [])
    then reasoning
    else waiting

unfoldable pub restore : Action.RunSnapshot → ActiveRun
unfolding keep_tool_state restored_phase
restore a = record {
  run_id = a.run_id;
  conversation_id = a.conversation_id;
  provider_name = a.provider_name;
  latest_seq = a.latest_seq;
  draft_text = a.draft_text;
  draft_reasoning = a.draft_reasoning;
  draft_reasoning_summary = or_else a.draft_reasoning_summary [];
  stream_phase = restored_phase a;
  tool_state = if keep_tool_state a then a.tool_state else none;
  draft_sources = merge_sources [] (or_else a.sources []);
  status = a.status;
  cancel_requested = is_cancelling a.status;
}

unfoldable pub start : Text → Text → Option Text → ActiveRun
start run_id conversation_id provider_name = record {
  run_id = run_id;
  conversation_id = conversation_id;
  provider_name = provider_name;
  latest_seq = 0;
  draft_text = [];
  draft_reasoning = [];
  draft_reasoning_summary = [];
  stream_phase = waiting;
  tool_state = none;
  draft_sources = [];
  status = RunStatus.started;
  cancel_requested = false;
}

unfoldable pub on_cancel_failed : ActiveRun → ActiveRun
on_cancel_failed s =
    if is_cancelling s.status
    then record s { cancel_requested = false; status = RunStatus.streaming }
    else s

unfoldable pub active_run_reducer : Option ActiveRun → Action.AppAction → Option ActiveRun
unfolding on_reasoning_delta on_text_delta on_tool_state restore start on_cancel_failed
active_run_reducer s (Action.run_started run_id conversation_id provider) =
    some (start run_id conversation_id provider)
active_run_reducer s (Action.run_restored a) = some (restore a)
active_run_reducer (some s) (Action.reasoning_delta seq t kind) =
    some (on_reasoning_delta seq t kind s)
active_run_reducer (some s) (Action.text_delta seq t) = some (on_text_delta seq t s)
active_run_reducer (some s) (Action.run_tool_state seq t) = some (on_tool_state seq t s)
active_run_reducer (some s) (Action.run_terminal status) =
    some (record s { tool_state = none; status = of_terminal status })
active_run_reducer (some s) Action.cancel_requested =
    some (record s { cancel_requested = true; status = RunStatus.cancelling })
active_run_reducer (some s) Action.cancel_failed = some (on_cancel_failed s)
active_run_reducer s Action.run_cleared = none
active_run_reducer s Action.app_reset = initial_active_run_state
active_run_reducer s _ = s
