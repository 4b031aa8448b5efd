-- ===== src/Api/Session.antt =====
-- The session that the client keeps for a token response (frontend/src/auth/tokenStore.ts). `now` is
-- what `Date.now()` gives.
use ichat.Base.{ℕ, ◌+◌, ◌*◌, Text}
use ichat.Api.Types.{AuthUserResponse}
use ichat.App.Action.{AuthSession}

pub record AuthTokenResponse : Type 0 where
  pub user : AuthUserResponse
  pub access_token : Text
  pub refresh_token : Text
  pub token_type : Text
  pub expires_in : ℕ

-- `createAuthSession`.
unfoldable pub create_auth_session : AuthTokenResponse → ℕ → AuthSession
create_auth_session response now = record {
  user = response.user;
  access_token = response.access_token;
  refresh_token = response.refresh_token;
  token_type = response.token_type;
  expires_at = now + response.expires_in * 1000;
}
