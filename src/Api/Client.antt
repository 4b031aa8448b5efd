-- ===== src/Api/Client.antt =====
-- `ApiClient` (frontend/src/api/client.ts) with `tokenStore` (frontend/src/auth/tokenStore.ts): the
-- requests that are under way, and the refresh that they share. Each function is the code between two
-- awaits. The requests and the refreshes are numbered. `token_of` reads the payload of a refresh as a
-- token response, with `none` where it has no fields to read; `now` is what `Date.now()` gives.
pub mod Steps
pub mod SingleFlight
pub mod Progress
pub mod LateRefresh
use ichat.Base.{
  ℕ, suc, Bool, true, false, not, ◌&&◌, Option, none, some, Text, codes, is_empty, leb, ltb, ◌==◌,
  or_else, or_option, text_eq, if◌then◌else◌, ◌++◌,
}
use ichat.App.Action.{AuthSession}
use ichat.Api.Errors.{ApiError, Thrown, api, other, api_error, default_error_message, to_api_error}
use ichat.Api.Json.{Json, field, get_error_code, get_legacy_message_id}
use ichat.Api.Session.{AuthTokenResponse, create_auth_session}

-- The options that decide on the course of a request.
pub record ApiRequestOptions : Type 0 where
  pub auth : Option Bool
  pub retry_on_unauthorized : Option Bool

-- `none` where `response.json()` throws.
pub record Response : Type 0 where
  pub status : ℕ
  pub payload : Option Json

-- `response.ok`.
abbrev pub is_ok : ℕ → Bool
is_ok status = leb 200 status && ltb status 300

-- Where a request stands: its fetch is under way, it waits for a refresh, or it is over.
pub data Phase : Type 0 where
  fetching : (has_retried : Bool) → Phase
  waiting : (refresh : ℕ) → Phase
  responded : Response → Phase
  failed : Thrown → Phase

-- How a refresh ended.
pub data Outcome : Type 0 where
  refreshed : Json → Outcome
  broken : Thrown → Outcome

-- `stored` is the item of `tokenStore`, `refresh_promise` the refresh that is shared, of the `started`
-- ones so far; `expirations` counts the calls of `onAuthExpired`.
pub record World : Type 0 where
  pub stored : Option AuthSession
  pub refresh_promise : Option ℕ
  pub started : ℕ
  pub outcome : ℕ → Option Outcome
  pub phase : ℕ → Phase
  pub expirations : ℕ

abbrev pub set_at {ℓ} : {A : Type ℓ} → ℕ → A → (ℕ → A) → ℕ → A
set_at i x f j = if j == i then x else f j

abbrev pub set_phase : ℕ → Phase → World → World
set_phase i p w = record w { phase = set_at i p w.phase }

-- `tokenStore.getAccessToken` and `getRefreshToken`.
unfoldable pub get_access_token : World → Option Text
get_access_token w = elim w.stored [ none ↦ none | some session ↦ some session.access_token ]

unfoldable pub get_refresh_token : World → Option Text
get_refresh_token w = elim w.stored [ none ↦ none | some session ↦ some session.refresh_token ]

-- A token that is a condition: absent or empty is false.
abbrev pub is_token : Option Text → Bool
is_token none = false
is_token (some t) = not (is_empty t)

-- `headers[name] = value` and the spread of further headers.
abbrev pub Headers : Type 0
Headers = Text → Option Text

abbrev pub set_header : Text → Text → Headers → Headers
set_header name value headers n = if text_eq name n then some value else headers n

-- `buildHeaders`; `custom` are the headers of the options.
unfoldable pub build_headers : ApiRequestOptions → Bool → Headers → World → Headers
unfolding get_access_token
build_headers options has_body custom w =
    let accept : Headers = λ n.
      or_option (custom n)
        (if text_eq (codes "Accept") n then some (codes "application/json") else none) in
    let content =
      if has_body
      then set_header (codes "Content-Type") (codes "application/json") accept
      else accept in
    if or_else options.auth true
    then elim (get_access_token w) [
      | none ↦ content
      | some token ↦
          if is_empty token
          then content
          else set_header (codes "Authorization") (codes "Bearer " ++ token) content
    ]
    else content

-- `createResponseError`.
unfoldable pub create_response_error : Response → ApiError
unfolding api_error default_error_message get_error_code get_legacy_message_id
create_response_error r = api_error (record {
  status = r.status;
  message = some (default_error_message r.status);
  code = get_error_code r.payload;
  legacy_message_id = get_legacy_message_id r.payload;
  is_auth_expired = none;
  is_abort = none;
})

-- `request` after `fetchRaw`.
unfoldable pub data_of : Response → Outcome
unfolding api_error field to_api_error
data_of r = elim r.payload [
  | none ↦ broken (api (to_api_error other))
  | some payload ↦ elim (field (codes "data") payload) [
    | some d ↦ refreshed d
    | none ↦ broken (
        api (
          api_error (record {
            status = r.status;
            message = some (codes "服务响应格式异常");
            code = none;
            legacy_message_id = none;
            is_auth_expired = none;
            is_abort = none;
          })))
  ]
]

-- What `request` makes of the response to a refresh, which is neither retried nor authorized.
unfoldable pub outcome_of : Response → Outcome
unfolding data_of create_response_error
outcome_of r = if is_ok r.status then data_of r else broken (api (create_response_error r))

-- The test after a fetch.
unfoldable pub needs_refresh : ApiRequestOptions → Bool → ℕ → Bool
needs_refresh options has_retried status =
    status == 401
    && or_else options.auth true
    && or_else options.retry_on_unauthorized true
    && not has_retried

-- `expireAuth`.
unfoldable pub expire_auth : World → World
expire_auth w = record w { stored = none; expirations = suc w.expirations }

unfoldable pub no_token_error : ApiError
unfolding api_error
no_token_error = api_error (record {
  status = 401;
  message = some (codes "登录状态已失效，请重新登录");
  code = none;
  legacy_message_id = none;
  is_auth_expired = some true;
  is_abort = none;
})

-- The error of a refresh that failed.
unfoldable pub refresh_error : Thrown → ApiError
unfolding api_error to_api_error
refresh_error e =
    let error = to_api_error e in
    api_error (record {
      status = if error.status == 0 then 401 else error.status;
      message = some (codes "登录状态已失效，请重新登录");
      code = error.code;
      legacy_message_id = error.legacy_message_id;
      is_auth_expired = some true;
      is_abort = none;
    })

-- `refreshSession` up to its `await`, for request `i`.
unfoldable pub refresh_session : ℕ → World → World
unfolding get_refresh_token expire_auth no_token_error
refresh_session i w =
    if not (is_token (get_refresh_token w))
    then set_phase i (failed (api no_token_error)) (expire_auth w)
    else elim w.refresh_promise [
      | some n ↦ set_phase i (waiting n) w
      | none ↦
          set_phase i (waiting w.started)
            (record w { refresh_promise = some w.started; started = suc w.started })
    ]

-- The response to request `i`.
unfoldable pub on_response : ApiRequestOptions → ℕ → Bool → Response → World → World
unfolding needs_refresh refresh_session create_response_error
on_response options i has_retried r w =
    if needs_refresh options has_retried r.status
    then refresh_session i w
    else if is_ok r.status
    then set_phase i (responded r) w
    else set_phase i (failed (api (create_response_error r))) w

-- The fetch of request `i` throws.
unfoldable pub on_fetch_error : ℕ → Thrown → World → World
on_fetch_error i e w = set_phase i (failed e) w

-- The `finally` of refresh `n`.
unfoldable pub on_refreshed : ℕ → Outcome → World → World
on_refreshed n o w = record w { refresh_promise = none; outcome = set_at n (some o) w.outcome }

-- The `catch` of `refreshSession`.
unfoldable pub on_refresh_error : ℕ → Thrown → World → World
unfolding expire_auth refresh_error
on_refresh_error i e w = set_phase i (failed (api (refresh_error e))) (expire_auth w)

module _ (token_of : Json → Option AuthTokenResponse) where
  -- Request `i` goes on once its refresh is over.
  unfoldable pub resume : ℕ → ℕ → Outcome → World → World
  unfolding on_refresh_error create_auth_session
  resume now i (refreshed payload) w = elim (token_of payload) [
    | none ↦ on_refresh_error i other w
    | some tokens ↦
        set_phase i (fetching true) (record w { stored = some (create_auth_session tokens now) })
  ]
  resume now i (broken e) w = on_refresh_error i e w
