-- ===== src/App/Logout.antt =====
-- What a reset of the store leaves (`app/reset` in every reducer of frontend/src/app/store.ts).
use ichat.Base.{ℕ, ◌≡◌, refl, Option, Text, true}
use ichat.App.Action
use ichat.App.Slices.{
  initial_auth_state, auth_reducer, ui_reducer, composer_reducer, pending_submission_reducer,
}
use ichat.App.Store.{AppState, initial_state, root_reducer}
use ichat.Conversation.Index.{conversation_index_reducer}
use ichat.Conversation.Detail.{conversation_detail_reducer}
use ichat.Run.State.{active_run_reducer}

-- After a reset nothing of the state before it is left, whatever it was: the store is the initial
-- one, but for the flag that the bootstrap is over.
pub reset_forgets :
    (date_parse : Text → Option ℕ) (s : AppState)
    → root_reducer date_parse s Action.app_reset
      ≡ record initial_state { auth = record initial_auth_state { bootstrapped = true } }
unfolding root_reducer auth_reducer ui_reducer composer_reducer pending_submission_reducer
    conversation_index_reducer conversation_detail_reducer active_run_reducer
reset_forgets date_parse s = refl
