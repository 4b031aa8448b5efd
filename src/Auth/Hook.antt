-- ===== src/Auth/Hook.antt =====
-- `useAuthSession` (frontend/src/auth/useAuthSession.ts), the start of `AppProvider`
-- (frontend/src/app/AppProvider.tsx) and `createAuthExpiryHandler` (frontend/src/app/authExpiry.ts): the
-- code between two awaits. `tokenStore` is the session that is stored; the field `drafts`
-- holds the other entries of `localStorage`, the drafts of attachments and reply quotes among them. `now` is what `Date.now()` gives.
use ichat.Base.{ℕ, Bool, true, false, Option, none, some, Text}
use ichat.Api.Types.{AuthUserResponse}
use ichat.Api.Session.{AuthTokenResponse, create_auth_session}
use ichat.App.Action
use ichat.App.Store.{AppState, root_reducer}
use ichat.Files.Drafts.{Storage, clear_all, attachment_prefix, reply_quote_prefix}

-- `stream_aborted` tells that the stream of the shown run was aborted.
pub record Browser : Type 0 where
  pub state : AppState
  pub stored : Option Action.AuthSession
  pub drafts : Storage
  pub stream_aborted : Bool

-- `tokenStore.updateUser`.
unfoldable pub update_user :
    AuthUserResponse → Option Action.AuthSession → Option Action.AuthSession
update_user user none = none
update_user user (some session) = some (record session { user = user })

-- `attachmentDraftStore.clearAll` and `replyQuoteDraftStore.clearAll`.
unfoldable pub clear_drafts : Storage → Storage
unfolding clear_all
clear_drafts s = clear_all reply_quote_prefix (clear_all attachment_prefix s)

module _ (date_parse : Text → Option ℕ) where
  abbrev pub dispatch : Action.AppAction → Browser → Browser
  dispatch a b = record b { state = root_reducer date_parse b.state a }

  -- `login` and `register` up to the request, the answer and the failure.
  unfoldable pub submit : Browser → Browser
  submit b = dispatch Action.auth_submit_started b

  unfoldable pub on_tokens : ℕ → AuthTokenResponse → Browser → Browser
  unfolding create_auth_session
  on_tokens now tokens b =
      let session = create_auth_session tokens now in
      dispatch (Action.auth_logged_in session) (record b { stored = some session })

  unfoldable pub on_submit_error : Browser → Browser
  on_submit_error b = dispatch Action.auth_submit_failed b

  -- `logout` after its request, if there was one, whether it failed or not.
  unfoldable pub sign_out : Browser → Browser
  unfolding clear_drafts
  sign_out b =
      dispatch Action.app_reset
        (record b { stored = none; drafts = clear_drafts b.drafts; stream_aborted = true })

  -- `refreshUser` after its request.
  unfoldable pub on_user : AuthUserResponse → Browser → Browser
  unfolding update_user
  on_user user b =
      dispatch (Action.auth_user_updated user) (record b { stored = update_user user b.stored })

  -- The handler of `createAuthExpiryHandler`; `expireAuth` has cleared the token store before.
  unfoldable pub on_auth_expired : Browser → Browser
  unfolding clear_drafts
  on_auth_expired b =
      dispatch Action.app_reset (record b { drafts = clear_drafts b.drafts; stream_aborted = true })

  -- The first effect of `AppProvider`, and whether it asks for the user.
  unfoldable pub restore_session : Browser → Browser × Bool
  restore_session b =
      let restored = dispatch (Action.auth_restored b.stored) b in
      elim b.stored [
        | none ↦ (dispatch Action.auth_bootstrap_completed restored, false)
        | some session ↦ (restored, true)
      ]

  -- The end of that request: the user, if it succeeded.
  unfoldable pub on_restored : Option AuthUserResponse → Browser → Browser
  unfolding on_user
  on_restored none b = dispatch Action.auth_bootstrap_completed b
  on_restored (some user) b = dispatch Action.auth_bootstrap_completed (on_user user b)
