-- ===== src/Stream/Resume.antt =====
-- The recovery of a run (frontend/src/runs/useRunRecovery.ts): which run it asks for, what it restores
-- and from where it streams on.
use mathlib.Core.Path.{subst}
use ichat.Base.{
  ℕ, ◌≡◌, ◌≢◌, refl, Bool, true, false, not, ◌⊎◌, inl, inr, Option, none, some, List, [], ◌∷◌, Text,
  all, option_is, text_eq_refl, text_eq_sound, if◌then◌else◌, arith,
}
use ichat.Api.Types.{ConversationResponse}
use ichat.App.Action
use ichat.App.Store.{AppState, root_reducer, dispatch_all}
use ichat.Run.State.{
  ActiveRun, active_run_reducer, restore, on_text_delta, on_reasoning_delta, on_tool_state,
  on_cancel_failed,
}
use ichat.Run.Pending.{find_pending_run_id, Awaits, find_pending_run_id-Awaits}
use ichat.Stream.Recovery.{
  RunStateResponse, stream, stop, snapshot_of, is_succeeded, is_failed, shows_detail, is_attached,
  pending_recovery, on_run_state,
}

-- The open thread: a conversation that is loaded.
shows_detail-some :
    (id : Text) (o : Option ConversationResponse)
    → shows_detail id o ≡ true
    → (c : ConversationResponse) × (o ≡ some c) × (c.id ≡ id)
unfolding shows_detail
shows_detail-some id none h = cc
shows_detail-some id (some c) h = (c, refl, text_eq_sound c.id id h)

is_attached-none :
    (id : Text) (o : Option ActiveRun)
    → is_attached id o ≡ false
    → (o ≡ none) ⊎ ((r : ActiveRun) × (o ≡ some r) × (r.conversation_id ≢ id))
unfolding is_attached
is_attached-none id none h = inl refl
is_attached-none id (some r) h = inr (r, refl, λ e. ground (arith, text_eq_refl id))

-- A recovery that asks for the state of a run does so for the conversation whose thread is on display;
-- the store shows no run or one of another conversation; and the run is the one that the thread waits
-- for: the last that a user message of it carries, with no assistant message that belongs to it.
pub pending_recovery-Awaits :
    (conversation_id : Text) (s : AppState) (run_id : Text)
    → pending_recovery conversation_id s ≡ some run_id
    → ((c : ConversationResponse) × (s.conversation_detail.conversation ≡ some c)
        × (c.id ≡ conversation_id))
      × ((s.active_run ≡ none)
          ⊎ ((r : ActiveRun) × (s.active_run ≡ some r) × (r.conversation_id ≢ conversation_id)))
      × Awaits s.conversation_detail.messages (some run_id)
unfolding pending_recovery
pending_recovery-Awaits conversation_id s run_id h =
    let asked : find_pending_run_id s.conversation_detail.messages ≡ some run_id = ground arith in
    (
      shows_detail-some conversation_id s.conversation_detail.conversation (ground arith),
      is_attached-none conversation_id s.active_run (ground arith),
      subst (Awaits s.conversation_detail.messages) asked
          (find_pending_run_id-Awaits s.conversation_detail.messages),
    )

-- The actions that put another run, or none, in the place of the one that is shown.
abbrev pub replaces_run : Action.AppAction → Bool
replaces_run (Action.run_started run_id conversation_id provider) = true
replaces_run (Action.run_restored a) = true
replaces_run Action.run_cleared = true
replaces_run Action.app_reset = true
replaces_run _ = false

still_attached :
    (id : Text) (o : Option ActiveRun) (a : Action.AppAction)
    → replaces_run a ≡ false
    → is_attached id o ≡ true
    → is_attached id (active_run_reducer o a) ≡ true
unfolding active_run_reducer is_attached on_text_delta on_reasoning_delta on_tool_state
    on_cancel_failed
still_attached id none a h k = cc
still_attached id (some r) a h k = ground arith

module _ (date_parse : Text → Option ℕ) where
  on_run_state-restored :
      (run_id conversation_id : Text) (r : RunStateResponse) (s : AppState)
      → option_is s.conversation_index.selected_id conversation_id ≡ true
      → is_succeeded r.status ≡ false
      → (on_run_state date_parse run_id conversation_id r s) ≡ (
        root_reducer date_parse s (Action.run_restored (snapshot_of run_id conversation_id r)),
        if is_failed r.status then stop else stream run_id conversation_id r.latest_seq,
      )
  unfolding on_run_state
  on_run_state-restored run_id conversation_id r s h k = rw (h, k) refl

  still_attached_all :
      (id : Text) (s : AppState) (actions : List Action.AppAction)
      → all (λ a. not (replaces_run a)) actions ≡ true
      → is_attached id s.active_run ≡ true
      → is_attached id (dispatch_all date_parse s actions).active_run ≡ true
  unfolding dispatch_all root_reducer
  still_attached_all id s [] h k = k
  still_attached_all id s (a ∷ actions) h k =
      still_attached_all id (root_reducer date_parse s a) actions (ground arith)
        (still_attached id s.active_run a (ground arith) k)

  pending_recovery-attached :
      (id : Text) (s : AppState) → is_attached id s.active_run ≡ true → pending_recovery id s ≡ none
  unfolding pending_recovery
  pending_recovery-attached id s h = ground arith

  -- Once a run that has not succeeded is restored in the open conversation, a further recovery of that
  -- conversation asks for nothing, whatever is dispatched in between, its deltas, its end and a thread
  -- loaded again included, until another run is started or restored, the shown run is cleared (as when
  -- another conversation is selected) or the store reset.
  pub recovers_once :
      (run_id conversation_id : Text) (r : RunStateResponse) (s : AppState)
      (actions : List Action.AppAction)
      → option_is s.conversation_index.selected_id conversation_id ≡ true
      → is_succeeded r.status ≡ false
      → all (λ a. not (replaces_run a)) actions ≡ true
      → pending_recovery conversation_id
          (dispatch_all date_parse (on_run_state date_parse run_id conversation_id r s).0 actions)
        ≡ none
  recovers_once run_id conversation_id r s actions h k e =
      pending_recovery-attached conversation_id _ (
        still_attached_all conversation_id (on_run_state date_parse run_id conversation_id r s).0
          actions e
          (rw (on_run_state-restored run_id conversation_id r s h k) (
            unfold root_reducer active_run_reducer restore is_attached in
            (text_eq_refl conversation_id))))
