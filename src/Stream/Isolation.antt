-- ===== src/Stream/Isolation.antt =====
-- A stream that runs in the background, and the run that the store shows
-- (frontend/src/runs/useRunStream.ts).
use ichat.Base.{
  ℕ, ◌≡◌, refl, ap, ◌∙◌, Bool, true, false, not, Option, none, some, List, Text, option_is,
  has_text,
}
use ichat.Api.Types.{ConversationResponse}
use ichat.App.Action
use ichat.App.Store.{AppState, root_reducer}
use ichat.Run.State.{ActiveRun, active_run_reducer}
use ichat.Stream.Handler.{
  RunEventType, RunStreamEvent, ConversationDetailResponse, run_started, run_succeeded, run_failed,
  run_cancelled, shows_run, dispatch_if, dispatch_active, on_terminal, on_event, on_fetched,
  on_stream_error,
}
use ichat.Stream.Task.{World, TaskStep, receive, fetched, fail}

module _ (date_parse : Text → Option ℕ) (run_id conversation_id : Text) where
  -- A guarded dispatch does nothing while another run is shown.
  dispatch_active-foreign :
      (a : Action.AppAction) (s : AppState)
      → shows_run run_id s.active_run ≡ false
      → dispatch_active date_parse run_id a s ≡ s
  unfolding dispatch_active
  dispatch_active-foreign a s h = rw h refl

  finished-active :
      (s : AppState)
      → (root_reducer date_parse s (Action.run_in_list_finished conversation_id)).active_run
        ≡ s.active_run
  unfolding root_reducer active_run_reducer
  finished-active s = go s.active_run
    where
      go :
          (r : Option ActiveRun)
          → active_run_reducer r (Action.run_in_list_finished conversation_id) ≡ r
      go none = refl
      go (some r) = refl

  on_terminal-foreign :
      (t : Action.TerminalStatus) (s : AppState)
      → shows_run run_id s.active_run ≡ false
      → (on_terminal date_parse run_id conversation_id t s).active_run ≡ s.active_run
  unfolding on_terminal
  on_terminal-foreign t s h =
      finished-active (dispatch_active date_parse run_id (Action.run_terminal t) s)
      ∙ ap (λ (x : AppState). x.active_run) (dispatch_active-foreign (Action.run_terminal t) s h)

  on_event-foreign :
      (t : RunEventType) (e : RunStreamEvent) (s : AppState)
      → shows_run run_id s.active_run ≡ false
      → (on_event date_parse run_id conversation_id t e s).active_run ≡ s.active_run
  unfolding on_event
  on_event-foreign run_started e s h = refl
  on_event-foreign run_succeeded e s h = on_terminal-foreign Action.succeeded s h
  on_event-foreign run_failed e s h = on_terminal-foreign Action.failed s h
  on_event-foreign run_cancelled e s h = on_terminal-foreign Action.cancelled s h
  on_event-foreign _ e s h = ap (λ (x : AppState). x.active_run) (dispatch_active-foreign _ s h)

  -- Actions that leave the shown run alone.
  KeepsRun : Action.AppAction → Type 0
  KeepsRun a = (r : Option ActiveRun) → active_run_reducer r a ≡ r

  synced-KeepsRun : (list : List ConversationResponse) → KeepsRun (Action.list_synced list none)
  unfolding active_run_reducer KeepsRun
  synced-KeepsRun list none = refl
  synced-KeepsRun list (some r) = refl

  activated-KeepsRun : KeepsRun Action.draft_activated
  unfolding active_run_reducer KeepsRun
  activated-KeepsRun none = refl
  activated-KeepsRun (some r) = refl

  loaded-KeepsRun :
      (d : ConversationDetailResponse)
      → KeepsRun (Action.detail_loaded d.conversation d.messages d.image_context)
  unfolding active_run_reducer KeepsRun
  loaded-KeepsRun d none = refl
  loaded-KeepsRun d (some r) = refl

  titled-KeepsRun : KeepsRun (Action.title_pending conversation_id)
  unfolding active_run_reducer KeepsRun
  titled-KeepsRun none = refl
  titled-KeepsRun (some r) = refl

  dispatch_if-keeps :
      (guard : Bool) (a : Action.AppAction) (s : AppState)
      → KeepsRun a
      → (dispatch_if date_parse guard a s).active_run ≡ s.active_run
  unfolding dispatch_if root_reducer KeepsRun
  dispatch_if-keeps true a s h = h s.active_run
  dispatch_if-keeps false a s h = refl

  on_fetched-foreign :
      (d : ConversationDetailResponse) (list : List ConversationResponse) (s : AppState)
      → shows_run run_id s.active_run ≡ false
      → (on_fetched date_parse run_id conversation_id d list s).active_run ≡ s.active_run
  unfolding on_fetched
  on_fetched-foreign d list s h =
      let synced = root_reducer date_parse s (Action.list_synced list none) in
      let activated = root_reducer date_parse synced Action.draft_activated in
      let open_here = option_is activated.conversation_index.selected_id conversation_id in
      let loading = Action.detail_loaded d.conversation d.messages d.image_context in
      let loaded = dispatch_if date_parse open_here loading activated in
      let same : loaded.active_run ≡ s.active_run =
        dispatch_if-keeps open_here loading activated (loaded-KeepsRun d)
        ∙ dispatch_if-keeps true Action.draft_activated synced activated-KeepsRun
        ∙ dispatch_if-keeps true (Action.list_synced list none) s (synced-KeepsRun list) in
      dispatch_if-keeps (not (has_text d.conversation.title)) (Action.title_pending conversation_id)
        (dispatch_active date_parse run_id Action.run_cleared loaded) titled-KeepsRun
      ∙ ap (λ (x : AppState). x.active_run)
          (dispatch_active-foreign Action.run_cleared loaded (ap (shows_run run_id) same ∙ h))
      ∙ same

  on_stream_error-foreign :
      (is_abort : Bool) (s : AppState)
      → shows_run run_id s.active_run ≡ false
      → (on_stream_error date_parse run_id is_abort s).active_run ≡ s.active_run
  unfolding on_stream_error
  on_stream_error-foreign true s h = refl
  on_stream_error-foreign false s h =
      ap (λ (x : AppState). x.active_run) (dispatch_active-foreign _ s h)

  -- While the store shows another run, or none, no step of this run's stream changes the shown run:
  -- no delta, no terminal event, no failure and nothing after a fetch.
  pub TaskStep-foreign :
      {w v : World}
      → TaskStep date_parse run_id conversation_id w v
      → shows_run run_id w.state.active_run ≡ false
      → v.state.active_run ≡ w.state.active_run
  TaskStep-foreign (receive s e) h = on_event-foreign e.type e s h
  TaskStep-foreign (fetched s d list) h = on_fetched-foreign d list s h
  TaskStep-foreign (fail s p is_abort live) h = on_stream_error-foreign is_abort s h
