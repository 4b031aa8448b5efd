-- ===== src/Tests/Client.antt =====
-- Requests that share a refresh, on concrete worlds.
use ichat.Base.{
  ℕ, ◌≡◌, refl, ◌⊎◌, ◌<◌, ◌≤◌, ◌+◌, arith, true, false, none, some, Option, is_some, codes,
}
use ichat.Api.Json.{Json, null, string}
use ichat.Api.Session.{AuthTokenResponse, create_auth_session}
use ichat.Api.Client.{
  ApiRequestOptions, Response, refreshed, World, fetching, waiting, on_response, on_refreshed,
  resume, needs_refresh, refresh_session, get_refresh_token,
}
use ichat.Api.Client.Steps.{Reach, launched, next, Step, answered}
use ichat.Api.Client.SingleFlight.{single_flight, no_stranded_request}
use ichat.Api.Client.Progress.{still, own, foreign, steps_left, Moves-steps_left}
use ichat.Api.Client.LateRefresh.{logout_undone}

abbrev tokens : AuthTokenResponse
tokens = record {
  user = record {
    id = 1;
    username = codes "u";
    nickname = codes "n";
    email = codes "e";
    email_verified = true;
    avatar_url = none;
  };
  access_token = codes "a";
  refresh_token = codes "r";
  token_type = codes "bearer";
  expires_in = 60;
}

abbrev token_of : Json → Option AuthTokenResponse
token_of null = none
token_of _ = some tokens

abbrev options : ℕ → ApiRequestOptions
options i = record { auth = none; retry_on_unauthorized = none }

abbrev unauthorized : Response
unauthorized = record { status = 401; payload = none }

abbrev idle : World
idle = record {
  stored = some (create_auth_session tokens 0);
  refresh_promise = none;
  started = 0;
  outcome = λ n. none;
  phase = λ i. fetching false;
  expirations = 0;
}

-- Two requests are refused one after the other.
abbrev refused : World
refused = on_response (options 0) 0 false unauthorized idle

abbrev both : World
both = on_response (options 1) 1 false unauthorized refused

refused-Step : Step token_of options idle refused
refused-Step = answered 0 false unauthorized refl

both-Step : Step token_of options refused both
unfolding on_response needs_refresh refresh_session get_refresh_token create_auth_session
both-Step = answered 1 false unauthorized refl

both-Reach : Reach token_of options both
both-Reach =
    next {w = refused} {v = both}
      (next {w = idle} {v = refused} (launched (some (create_auth_session tokens 0))) refused-Step)
      both-Step

single_flight_example : ◌≡◌ {A = ℕ} 0 0
unfolding on_response needs_refresh refresh_session get_refresh_token create_auth_session
single_flight_example =
    single_flight token_of options {w = both} 0 0 both-Reach (omega arith) (omega arith) refl refl

no_stranded_request_example :
    (is_some (both.outcome 0) ≡ true)
    ⊎ ((both.outcome 0 ≡ none) × (0 < both.started) × (both.refresh_promise ≡ some 0))
unfolding on_response needs_refresh refresh_session get_refresh_token create_auth_session
no_stranded_request_example = no_stranded_request token_of options {w = both} 1 0 both-Reach refl

Moves-steps_left_example : 1 + steps_left (both.phase 1) ≤ steps_left (idle.phase 1)
unfolding on_response needs_refresh refresh_session get_refresh_token create_auth_session
Moves-steps_left_example = Moves-steps_left token_of options 1 {w = idle} {k = 1} {v = both} (
    own {v = refused} {u = both}
      (foreign {v = idle} {u = refused} still (answered 0 false unauthorized refl) refl)
      (answered 1 false unauthorized refl) refl)

logout_undone_example :
    let logged_out = record refused { stored = none } in
    let ended = on_refreshed 0 (refreshed (string (codes "x"))) logged_out in
    (ended.phase 0 ≡ waiting 0)
    × (ended.outcome 0 ≡ some (refreshed (string (codes "x"))))
    × ((resume token_of 9 0 (refreshed (string (codes "x"))) ended).stored
        ≡ some (create_auth_session tokens 9))
unfolding on_response needs_refresh refresh_session get_refresh_token create_auth_session
logout_undone_example = logout_undone token_of 9 0 0 (string (codes "x")) tokens refused refl refl

-- No session is stored.
abbrev signed_out : World
signed_out = record idle { stored = none }
