-- ===== src/Api/Client/LateRefresh.antt =====
-- What a refresh leaves behind (frontend/src/api/client.ts).
use ichat.Base.{ℕ, ◌≡◌, refl, Bool, true, false, not, ◌&&◌, Option, none, some, ◌==◌, ==_iff, arith}
use ichat.Api.Errors.{api, Thrown, api_error}
use ichat.Api.Json.{Json}
use ichat.Api.Session.{AuthTokenResponse, create_auth_session}
use ichat.Api.Client.{
  ApiRequestOptions, Response, Phase, waiting, failed, refreshed, broken, World, is_token,
  get_refresh_token, expire_auth, refresh_session, needs_refresh, on_response, on_refreshed,
  on_refresh_error, resume, refresh_error, no_token_error,
}

-- How a request that was told of an expired session ends.
abbrev pub is_expired : Phase → Bool
is_expired (failed (api e)) = e.is_auth_expired && not (e.status == 0)
is_expired _ = false

same : (i : ℕ) → (i == i) ≡ true
same i = (==_iff i i).1 refl

is_expired-refresh_error : (e : Thrown) → is_expired (failed (api (refresh_error e))) ≡ true
unfolding refresh_error api_error
is_expired-refresh_error e = ground arith

module _ (token_of : Json → Option AuthTokenResponse) where
  -- A logout during a refresh is undone: the request that waits for the refresh saves the new session
  -- once the refresh is over, though the session was cleared in between.
  pub logout_undone :
      (now i n : ℕ) (payload : Json) (tokens : AuthTokenResponse) (w : World)
      → w.phase i ≡ waiting n
      → token_of payload ≡ some tokens
      → let logged_out = record w { stored = none } in
        let ended = on_refreshed n (refreshed payload) logged_out in
        (ended.phase i ≡ waiting n)
        × (ended.outcome n ≡ some (refreshed payload))
        × ((resume token_of now i (refreshed payload) ended).stored
            ≡ some (create_auth_session tokens now))
  unfolding resume on_refreshed
  logout_undone now i n payload tokens w h e = (h, ground (arith, ==_iff n n), rw (e, resume) refl)

  -- A session that cannot be refreshed, for want of a token or since the refresh fails, ends the
  -- request with an error that says so and has a status, and leaves no session.
  pub expired_session :
      (now i : ℕ) (options : ApiRequestOptions) (r : Response) (e : Thrown) (w : World)
      → needs_refresh options false r.status ≡ true
      → is_token (get_refresh_token w) ≡ false
      → let refused = on_response options i false r w in
        let broken_off = resume token_of now i (broken e) w in
        (is_expired (refused.phase i) ≡ true)
        × (refused.stored ≡ none)
        × (refused.refresh_promise ≡ w.refresh_promise)
        × (is_expired (broken_off.phase i) ≡ true)
        × (broken_off.stored ≡ none)
  unfolding on_response refresh_session resume on_refresh_error expire_auth no_token_error
      refresh_error api_error
  expired_session now i options r e w h k =
      rw (h, k) (rw (same i) refl, refl, refl, rw (same i) (is_expired-refresh_error e), refl)
