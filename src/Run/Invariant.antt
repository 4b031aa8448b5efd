-- ===== src/Run/Invariant.antt =====
-- What holds of the active run between any two actions (frontend/src/runs/state.ts).
use ichat.Base.{true, ◌≡◌, Option, none, some, [], is_some, or_else, arith}
use ichat.Api.Types.{RunStatus}
use ichat.App.Action
use ichat.Run.State.{ActiveRun, tool, is_terminal, source_ids, active_run_reducer}
use ichat.Run.Sources.{DistinctIds, merge_sources-DistinctIds}

-- The stop request is recorded while the run is being cancelled, a tool label shows only in the
-- tool phase and never on an ended run, and no citation id stands twice among the sources.
pub record IsValid (s : ActiveRun) : Type 0 where
  pub cancelling_requested : s.status ≡ RunStatus.cancelling → s.cancel_requested ≡ true
  pub tool_phase : is_some s.tool_state ≡ true → s.stream_phase ≡ tool
  pub terminal_no_tool : is_terminal s.status ≡ true → s.tool_state ≡ none
  pub distinct_sources : DistinctIds (source_ids s.draft_sources)

abbrev pub IsValidOption : Option ActiveRun → Type 0
IsValidOption none = Unit {0}
IsValidOption (some s) = IsValid s

-- Every action keeps the active run valid.
pub active_run_reducer-IsValid :
    (s : Option ActiveRun) (a : Action.AppAction)
    → IsValidOption s
    → IsValidOption (active_run_reducer s a)
unfolding active_run_reducer
active_run_reducer-IsValid s (Action.run_started r c p) v = ground arith
active_run_reducer-IsValid s (Action.run_restored a) v =
    ground (arith, merge_sources-DistinctIds [] (or_else a.sources []))
active_run_reducer-IsValid (some s) (Action.run_tool_state seq t) v =
    ground (arith, merge_sources-DistinctIds s.draft_sources t.sources)
active_run_reducer-IsValid none a v = ground arith
active_run_reducer-IsValid (some s) a v = ground arith
