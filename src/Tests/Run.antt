-- ===== src/Tests/Run.antt =====
-- The active run and the run options on concrete values.
use ichat.Base.{◌≡◌, refl, true, false, none, some, List, [], ◌∷◌, ◌++◌, codes, map}
use ichat.Api.Types.{MessageResponse, MessageRole, RunStatus, ImageContext, vision_required}
use ichat.App.Action
use ichat.Run.State.{merge_sources, new_sources, active_run_reducer, of_terminal}
use ichat.Run.Invariant.{IsValidOption, active_run_reducer-IsValid}
use ichat.Run.Stream.{
  Delta, reasoning_of, text_of, tool_of, action_of, reduce_all, drafts, drafts_of, extend,
  Accumulates, reduce_all-drafts, resume_equals_stream,
}
use ichat.Run.Cancel.{progress, cancel_outcomes}
use ichat.Run.Pending.{find_pending_run_id, Awaits, find_pending_run_id-Awaits}
use ichat.Run.Options.{Preferences}
use ichat.Tests.Data.{run, found, source, message, model}

abbrev first_deltas : List Delta
first_deltas =
    reasoning_of 1 (codes "hm") (some Action.DeltaKind.summary)
    ∷ tool_of 2 found
    ∷ text_of 3 (codes "Hi")
    ∷ []

abbrev later_deltas : List Delta
later_deltas = text_of 4 (codes " you") ∷ []

-- The snapshot that the server holds after the first deltas.
abbrev snapshot : Action.RunSnapshot
snapshot = record {
  run_id = codes "r";
  conversation_id = codes "a";
  provider_name = none;
  latest_seq = 3;
  draft_text = codes "Hi";
  draft_reasoning = [];
  draft_reasoning_summary = some (codes "hm");
  tool_state = none;
  sources = some (source 1 ∷ source 2 ∷ []);
  status = RunStatus.streaming;
}

snapshot-Accumulates : Accumulates first_deltas snapshot
unfolding merge_sources new_sources
snapshot-Accumulates = record {
  seq_reached = refl;
  text_reached = refl;
  reasoning_reached = refl;
  summary_reached = refl;
  sources_reached = refl;
}

resume_equals_stream_example :
    drafts (reduce_all none (Action.run_restored snapshot ∷ map action_of later_deltas))
    ≡ drafts (
        reduce_all none (
          Action.run_started (codes "r") (codes "a") none
          ∷ map action_of (first_deltas ++ later_deltas)))
resume_equals_stream_example =
    resume_equals_stream none first_deltas later_deltas snapshot snapshot-Accumulates

reduce_all-drafts_example :
    drafts (reduce_all (some run) (map action_of first_deltas))
    ≡ some (extend (drafts_of run) first_deltas)
reduce_all-drafts_example = reduce_all-drafts run first_deltas

run-IsValid : IsValidOption (some run)
run-IsValid = record {
  cancelling_requested = λ h. cc;
  tool_phase = λ h. refl;
  terminal_no_tool = λ h. cc;
  distinct_sources = (refl, tt);
}

active_run_reducer-IsValid_example :
    IsValidOption (active_run_reducer (some run) (Action.run_tool_state 5 found))
active_run_reducer-IsValid_example =
    active_run_reducer-IsValid (some run) (Action.run_tool_state 5 found) run-IsValid

cancel_outcomes_example :
    let during = reduce_all (some run) (Action.cancel_requested ∷ map action_of later_deltas) in
    let ended = active_run_reducer during (Action.run_terminal Action.cancelled) in
    (progress during ≡ some (RunStatus.cancelling, true))
    × (progress (active_run_reducer during Action.cancel_failed)
        ≡ some (RunStatus.streaming, false))
    × (progress ended ≡ some (of_terminal Action.cancelled, true))
    × (active_run_reducer ended Action.cancel_failed ≡ ended)
cancel_outcomes_example = cancel_outcomes run later_deltas Action.cancelled

abbrev question : MessageResponse
question = message (codes "q") MessageRole.user (some (codes "r"))

abbrev answer : MessageResponse
answer = message (codes "w") MessageRole.assistant (some (codes "r"))

find_pending_run_id-Awaits_example :
    Awaits
      (question ∷ answer ∷ question ∷ [])
      (find_pending_run_id (question ∷ answer ∷ question ∷ []))
find_pending_run_id-Awaits_example = find_pending_run_id-Awaits (question ∷ answer ∷ question ∷ [])

abbrev preferences : Preferences
preferences = record {
  stored_level = some (codes "fast");
  stored_model = some (codes "o");
  stored_web_search = none;
  available_models = model (codes "v") [] ∷ [];
  capability_enabled = true;
}

abbrev images : ImageContext
images = record {
  state = vision_required;
  legacy_message_id = none;
  recommended_model = some (codes "v");
}
