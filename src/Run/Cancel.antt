-- ===== src/Run/Cancel.antt =====
-- Stopping a run: the optimistic "cancelling" state and what can settle it
-- (frontend/src/runs/state.ts).
use ichat.Base.{◌≡◌, refl, Bool, true, false, Option, none, some, List, [], ◌∷◌, map, arith}
use ichat.Api.Types.{RunStatus}
use ichat.App.Action
use ichat.Run.State.{ActiveRun, of_terminal, active_run_reducer}
use ichat.Run.Stream.{Delta, reasoning_of, text_of, tool_of, action_of, reduce_all}

-- The status and the stop flag of the run that is shown.
abbrev pub progress : Option ActiveRun → Option (RunStatus × Bool)
progress none = none
progress (some s) = some (s.status, s.cancel_requested)

progress-delta :
    (s : Option ActiveRun) (d : Delta)
    → progress s ≡ some (RunStatus.cancelling, true)
    → progress (active_run_reducer s (action_of d)) ≡ some (RunStatus.cancelling, true)
unfolding active_run_reducer
progress-delta (some s) (reasoning_of seq t kind) h = ground arith
progress-delta (some s) (text_of seq t) h = ground arith
progress-delta (some s) (tool_of seq t) h = ground arith
progress-delta none d h = cc

progress-deltas :
    (s : Option ActiveRun) (ds : List Delta)
    → progress s ≡ some (RunStatus.cancelling, true)
    → progress (reduce_all s (map action_of ds)) ≡ some (RunStatus.cancelling, true)
unfolding reduce_all
progress-deltas s [] h = h
progress-deltas s (d ∷ ds) h =
    progress-deltas (active_run_reducer s (action_of d)) ds (progress-delta s d h)

cancel_failed-progress :
    (s : Option ActiveRun)
    → progress s ≡ some (RunStatus.cancelling, true)
    → progress (active_run_reducer s Action.cancel_failed) ≡ some (RunStatus.streaming, false)
unfolding active_run_reducer
cancel_failed-progress (some s) h = ground arith
cancel_failed-progress none h = cc

terminal-progress :
    (s : Option ActiveRun) (t : Action.TerminalStatus)
    → progress s ≡ some (RunStatus.cancelling, true)
    → progress (active_run_reducer s (Action.run_terminal t)) ≡ some (of_terminal t, true)
unfolding active_run_reducer
terminal-progress (some s) t h = ground arith
terminal-progress none t h = cc

terminal-cancel_failed :
    (s : Option ActiveRun) (t : Action.TerminalStatus)
    → active_run_reducer (active_run_reducer s (Action.run_terminal t)) Action.cancel_failed
      ≡ active_run_reducer s (Action.run_terminal t)
unfolding active_run_reducer
terminal-cancel_failed none t = refl
terminal-cancel_failed (some s) Action.TerminalStatus.succeeded = refl
terminal-cancel_failed (some s) _ = refl

-- After a stop request the run stays "cancelling" under every later delta and tool event. A failed
-- request then turns it back to "streaming" with the stop flag down; but once a terminal event came
-- in, the failure of the request changes nothing any more.
pub cancel_outcomes :
    (s : ActiveRun) (ds : List Delta) (t : Action.TerminalStatus)
    → let during = reduce_all (some s) (Action.cancel_requested ∷ map action_of ds) in
      let ended = active_run_reducer during (Action.run_terminal t) in
      (progress during ≡ some (RunStatus.cancelling, true))
      × (progress (active_run_reducer during Action.cancel_failed)
          ≡ some (RunStatus.streaming, false))
      × (progress ended ≡ some (of_terminal t, true))
      × (active_run_reducer ended Action.cancel_failed ≡ ended)
unfolding reduce_all
cancel_outcomes s ds t =
    let asked = active_run_reducer (some s) Action.cancel_requested in
    let cancelling = progress-deltas asked ds (unfold active_run_reducer in refl) in
    let during = reduce_all asked (map action_of ds) in
    (
      cancelling,
      cancel_failed-progress during cancelling,
      terminal-progress during t cancelling,
      terminal-cancel_failed during t,
    )
