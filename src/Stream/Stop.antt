-- ===== src/Stream/Stop.antt =====
-- Stopping a run through the hook (`cancel` of frontend/src/runs/useRunStream.ts).
use ichat.Base.{
  ℕ, ◌≡◌, refl, sym, ap, ◌∙◌, Bool, true, false, Option, none, some, Text, text_eq, Bool-cases, inl,
  inr, arith,
}
use ichat.Api.Types.{RunStatus}
use ichat.App.Action
use ichat.App.Store.{AppState, root_reducer}
use ichat.Run.State.{ActiveRun, start, active_run_reducer}
use ichat.Stream.Handler.{shows_run, already_requested, cancel, on_cancel_error}

already_requested-cancelled :
    (run_id : Text) (r : Option ActiveRun)
    → shows_run run_id r ≡ true
    → already_requested run_id (active_run_reducer r Action.cancel_requested) ≡ true
unfolding active_run_reducer already_requested shows_run
already_requested-cancelled run_id none h = cc
already_requested-cancelled run_id (some r) h = ground arith

already_requested_self :
    (r : ActiveRun) → r.cancel_requested ≡ false → already_requested r.run_id (some r) ≡ false
unfolding already_requested
already_requested_self r h = ground arith

already_requested_start :
    (run_id conversation_id : Text) (provider : Option Text)
    → already_requested run_id (some (start run_id conversation_id provider)) ≡ false
unfolding start
already_requested_start run_id conversation_id provider =
    already_requested_self (start run_id conversation_id provider) refl

other_shown :
    (run_id other_id conversation_id : Text) (provider : Option Text)
    → text_eq other_id run_id ≡ false
    → shows_run run_id (
        some (record (start other_id conversation_id provider) {
          status = RunStatus.streaming;
          cancel_requested = false;
        }))
      ≡ false
unfolding shows_run start
other_shown run_id other_id conversation_id provider e = e

module _ (date_parse : Text → Option ℕ) where
  cancel-again :
      (run_id : Text) (s : AppState)
      → already_requested run_id s.active_run ≡ true
      → cancel date_parse run_id s ≡ (s, false)
  unfolding cancel
  cancel-again run_id s h = rw h refl

  cancel-first :
      (run_id : Text) (s : AppState)
      → already_requested run_id s.active_run ≡ false
      → cancel date_parse run_id s ≡ (root_reducer date_parse s Action.cancel_requested, true)
  unfolding cancel
  cancel-first run_id s h = rw h refl

  -- While the run is shown, a second stop changes nothing and sends no second request, whether or
  -- not the first one sent it.
  pub cancel-cancel :
      (run_id : Text) (s : AppState)
      → shows_run run_id s.active_run ≡ true
      → cancel date_parse run_id (cancel date_parse run_id s).0
        ≡ ((cancel date_parse run_id s).0, false)
  cancel-cancel run_id s h = elim (Bool-cases (already_requested run_id s.active_run)) [
    | inl e ↦
        ap (λ (x : AppState × Bool). cancel date_parse run_id x.0) (cancel-again run_id s e)
        ∙ cancel-again run_id s e
        ∙ ap (λ (x : AppState × Bool). (x.0, false)) (sym (cancel-again run_id s e))
    | inr e ↦
        ap (λ (x : AppState × Bool). cancel date_parse run_id x.0) (cancel-first run_id s e)
        ∙ cancel-again run_id (root_reducer date_parse s Action.cancel_requested)
            (unfold root_reducer in (already_requested-cancelled run_id s.active_run h))
        ∙ ap (λ (x : AppState × Bool). (x.0, false)) (sym (cancel-first run_id s e))
  ]

  reverted :
      (run_id message : Text) (s : AppState) (r : ActiveRun)
      → s.active_run ≡ some r
      → (on_cancel_error date_parse run_id message
          (root_reducer date_parse s Action.cancel_requested)).active_run
        ≡ some (record r { status = RunStatus.streaming; cancel_requested = false })
  unfolding on_cancel_error root_reducer active_run_reducer
  reverted run_id message s r h = rw h refl

  -- One run is shown and stopped; its request goes out. Then another run is started and stopped in its
  -- turn, and its request goes out too. If now the request of the first run fails, the second run, which
  -- is shown, is put back: the store shows it as streaming and not stopped, though its own request is on
  -- its way.
  pub cancel_error_reverts_shown_run :
      (message other_id conversation_id : Text) (provider : Option Text) (s : AppState)
      (r : ActiveRun)
      → s.active_run ≡ some r
      → r.cancel_requested ≡ false
      → text_eq other_id r.run_id ≡ false
      → let first = cancel date_parse r.run_id s in
        let restarted =
          root_reducer date_parse first.0 (Action.run_started other_id conversation_id provider) in
        let second = cancel date_parse other_id restarted in
        let failed = on_cancel_error date_parse r.run_id message second.0 in
        (first.1 ≡ true)
        × (second.1 ≡ true)
        × (shows_run r.run_id failed.active_run ≡ false)
        × (failed.active_run
            ≡ some
                (record (start other_id conversation_id provider) { status = RunStatus.streaming }))
  cancel_error_reverts_shown_run message other_id conversation_id provider s r h c e =
      let first =
        cancel-first r.run_id s (ap (already_requested r.run_id) h ∙ already_requested_self r c) in
      let restarted =
        root_reducer date_parse (cancel date_parse r.run_id s).0
          (Action.run_started other_id conversation_id provider) in
      let shown : restarted.active_run ≡ some (start other_id conversation_id provider) =
        unfold root_reducer active_run_reducer in refl in
      let second = cancel-first other_id restarted (
        ap (already_requested other_id) shown
        ∙ already_requested_start other_id conversation_id provider) in
      let left =
        ap (λ (x : AppState × Bool). (on_cancel_error date_parse r.run_id message x.0).active_run)
          second
        ∙ reverted r.run_id message restarted (start other_id conversation_id provider) shown in
      (
        ap (λ (x : AppState × Bool). x.1) first,
        ap (λ (x : AppState × Bool). x.1) second,
        ap (shows_run r.run_id) left ∙ other_shown r.run_id other_id conversation_id provider e,
        left ∙ ap some (unfold start in refl),
      )
