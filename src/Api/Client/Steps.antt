-- ===== src/Api/Client/Steps.antt =====
-- Requests that share a client, interleaved in any order (frontend/src/api/client.ts), with logins and
-- logouts (frontend/src/auth/useAuthSession.ts) in between.
use ichat.Base.{ℕ, ◌<◌, ◌≡◌, Option, none, some, Bool, false}
use ichat.App.Action.{AuthSession}
use ichat.Api.Errors.{Thrown}
use ichat.Api.Json.{Json}
use ichat.Api.Session.{AuthTokenResponse}
use ichat.Api.Client.{
  ApiRequestOptions, Response, fetching, waiting, Outcome, World, on_response, on_fetch_error,
  on_refreshed, resume,
}

module _ (token_of : Json → Option AuthTokenResponse) (options : ℕ → ApiRequestOptions) where
  -- What one of the requests, a refresh or a login or logout does next.
  pub data Step (w : World) : World → Type 0 where
    answered :
        (i : ℕ) (has_retried : Bool) (r : Response)
        → w.phase i ≡ fetching has_retried
        → Step w (on_response (options i) i has_retried r w)
    thrown :
        (i : ℕ) (has_retried : Bool) (e : Thrown)
        → w.phase i ≡ fetching has_retried
        → Step w (on_fetch_error i e w)
    refresh_ended :
        (n : ℕ) (o : Outcome) → n < w.started → w.outcome n ≡ none → Step w (on_refreshed n o w)
    resumed :
        (now i n : ℕ) (o : Outcome)
        → w.phase i ≡ waiting n
        → w.outcome n ≡ some o
        → Step w (resume token_of now i o w)
    session_changed : (session : Option AuthSession) → Step w (record w { stored = session })

  -- Reachable from a client with no refresh under way.
  pub data Reach : World → Type 0 where
    launched :
        (session : Option AuthSession)
        → Reach (record {
          stored = session;
          refresh_promise = none;
          started = 0;
          outcome = λ n. none;
          phase = λ i. fetching false;
          expirations = 0;
        })
    next : {w v : World} → Reach w → Step w v → Reach v
