-- ===== src/Api/Client/SingleFlight.antt =====
-- Requests that are refused at once, and the refresh that they share
-- (frontend/src/api/client.ts, `refreshPromise`).
use ichat.Base.{
  ℕ, suc, ◌<◌, ◌≤◌, ◌≡◌, ◌⊎◌, inl, inr, refl, sym, ◌∙◌, Bool, true, Option, none, some, ◌==◌,
  is_some, arith, Bool-cases, Option-cases,
}
use ichat.App.Action.{AuthSession}
use ichat.Api.Errors.{Thrown, other}
use ichat.Api.Json.{Json}
use ichat.Api.Session.{AuthTokenResponse}
use ichat.Api.Client.{
  ApiRequestOptions, Response, Phase, waiting, Outcome, refreshed, broken, World, set_at, set_phase,
  is_token, get_refresh_token, is_ok, expire_auth, refresh_session, needs_refresh, on_response,
  on_fetch_error, on_refreshed, on_refresh_error, resume,
}
use ichat.Api.Client.Steps.{
  Step, answered, thrown, refresh_ended, resumed, session_changed, Reach, launched, next,
}

-- The shared refresh is the one that is not over, the numbers from `started` on are free, and a
-- request waits for a refresh that was started.
pub record IsShared (w : World) : Type 0 where
  pub only : (n : ℕ) → n < w.started → w.outcome n ≡ none → w.refresh_promise ≡ some n
  pub under_way : (n : ℕ) → w.refresh_promise ≡ some n → (n < w.started) × (w.outcome n ≡ none)
  pub free : (n : ℕ) → w.started ≤ n → w.outcome n ≡ none
  pub awaited : (i n : ℕ) → w.phase i ≡ waiting n → n < w.started

set_at-waiting :
    (i j n k : ℕ) (p : Phase) (f : ℕ → Phase)
    → (p ≡ waiting n → n < k)
    → (f j ≡ waiting n → n < k)
    → set_at i p f j ≡ waiting n
    → n < k
set_at-waiting i j n k p f h g e = elim (Bool-cases (j == i)) [
  | inl b ↦ h (sym (rw b refl) ∙ e)
  | inr b ↦ g (sym (rw b refl) ∙ e)
]

set_phase-IsShared :
    (i : ℕ) (p : Phase) (w : World)
    → IsShared w
    → ((n : ℕ) → p ≡ waiting n → n < w.started)
    → IsShared (set_phase i p w)
set_phase-IsShared i p w s h = record {
  only = s.only;
  under_way = s.under_way;
  free = s.free;
  awaited = λ j n. set_at-waiting i j n w.started p w.phase (h n) (s.awaited j n);
}

session-IsShared :
    (w : World) (session : Option AuthSession) (k : ℕ)
    → IsShared w
    → IsShared (record w { stored = session; expirations = k })
session-IsShared w session k s = record {
  only = s.only;
  under_way = s.under_way;
  free = s.free;
  awaited = s.awaited;
}

begun-IsShared :
    (w : World)
    → w.refresh_promise ≡ none
    → IsShared w
    → IsShared (record w { refresh_promise = some w.started; started = suc w.started })
begun-IsShared w h s = record {
  only = λ n below open_n. grind (arith, s.only n);
  under_way = λ n e. grind (arith, s.free n);
  free = λ n above. s.free n (omega arith);
  awaited = λ i n e. omega (arith, s.awaited i n e);
}

ended-IsShared :
    (w : World) (n : ℕ) (o : Outcome)
    → n < w.started
    → w.outcome n ≡ none
    → IsShared w
    → IsShared (on_refreshed n o w)
unfolding on_refreshed
ended-IsShared w n o below e s = record {
  only = λ m below_m open_m. grind (arith, s.only m, s.only n);
  under_way = λ m q. cc;
  free = λ m above. grind (arith, s.free m);
  awaited = s.awaited;
}

refresh_session-IsShared : (i : ℕ) (w : World) → IsShared w → IsShared (refresh_session i w)
unfolding refresh_session expire_auth
refresh_session-IsShared i w s = elim (Bool-cases (is_token (get_refresh_token w))) [
  | inl t ↦ elim (Option-cases w.refresh_promise) [
    | inl e ↦
        rw (t, e, refresh_session)
          (set_phase-IsShared i (waiting w.started) _ (begun-IsShared w e s) (λ n e. grind arith))
    | inr (n, e) ↦
        rw (t, e, refresh_session)
          (set_phase-IsShared i (waiting n) w s (λ m q. grind (arith, s.under_way n e)))
  ]
  | inr t ↦
      rw (t, refresh_session)
        (set_phase-IsShared i _ _ (session-IsShared w none (suc w.expirations) s) (λ n e. cc))
]

on_response-IsShared :
    (options : ApiRequestOptions) (i : ℕ) (has_retried : Bool) (r : Response) (w : World)
    → IsShared w
    → IsShared (on_response options i has_retried r w)
unfolding on_response
on_response-IsShared options i has_retried r w s =
    elim (Bool-cases (needs_refresh options has_retried r.status)) [
      | inl e ↦ rw (e, on_response) (refresh_session-IsShared i w s)
      | inr e ↦ elim (Bool-cases (is_ok r.status)) [
        | inl k ↦ rw (e, k, on_response) (set_phase-IsShared i _ w s (λ n q. cc))
        | inr k ↦ rw (e, k, on_response) (set_phase-IsShared i _ w s (λ n q. cc))
      ]
    ]

on_refresh_error-IsShared :
    (i : ℕ) (e : Thrown) (w : World) → IsShared w → IsShared (on_refresh_error i e w)
unfolding on_refresh_error expire_auth
on_refresh_error-IsShared i e w s =
    set_phase-IsShared i _ _ (session-IsShared w none (suc w.expirations) s) (λ n q. cc)

module _ (token_of : Json → Option AuthTokenResponse) (options : ℕ → ApiRequestOptions) where
  resume-IsShared :
      (now i : ℕ) (o : Outcome) (w : World) → IsShared w → IsShared (resume token_of now i o w)
  unfolding resume
  resume-IsShared now i (refreshed payload) w s = elim (Option-cases (token_of payload)) [
    | inl e ↦ rw (e, resume) (on_refresh_error-IsShared i other w s)
    | inr (tokens, e) ↦
        rw (e, resume) (set_phase-IsShared i _ _ (session-IsShared w _ w.expirations s) (λ n q. cc))
  ]
  resume-IsShared now i (broken e) w s = on_refresh_error-IsShared i e w s

  Step-IsShared : {w v : World} → Step token_of options w v → IsShared w → IsShared v
  unfolding on_fetch_error
  Step-IsShared {w} (answered i b r e) s = on_response-IsShared (options i) i b r w s
  Step-IsShared {w} (thrown i b x e) s = set_phase-IsShared i _ w s (λ n q. cc)
  Step-IsShared {w} (refresh_ended n o below e) s = ended-IsShared w n o below e s
  Step-IsShared {w} (resumed now i n o e k) s = resume-IsShared now i o w s
  Step-IsShared {w} (session_changed session) s = session-IsShared w session w.expirations s

  pub Reach-IsShared : {w : World} → Reach token_of options w → IsShared w
  Reach-IsShared (launched session) = record {
    only = λ n below e. grind arith;
    under_way = λ n e. cc;
    free = λ n above. refl;
    awaited = λ i n e. cc;
  }
  Reach-IsShared (next r step) = Step-IsShared step (Reach-IsShared r)

  -- Whatever the requests, the service and the user do, two refreshes are never under way at once.
  pub single_flight :
      {w : World} (m n : ℕ)
      → Reach token_of options w
      → m < w.started
      → n < w.started
      → w.outcome m ≡ none
      → w.outcome n ≡ none
      → m ≡ n
  single_flight m n r below_m below_n e k =
      let s = Reach-IsShared r in grind (arith, s.only m below_m e, s.only n below_n k)

  -- A request that waits for a refresh can go on, or its refresh is under way and is the one that
  -- further requests share.
  pub no_stranded_request :
      {w : World} (i n : ℕ)
      → Reach token_of options w
      → w.phase i ≡ waiting n
      → (is_some (w.outcome n) ≡ true)
        ⊎ ((w.outcome n ≡ none) × (n < w.started) × (w.refresh_promise ≡ some n))
  no_stranded_request {w} i n r e =
      let s = Reach-IsShared r in
      elim (Option-cases (w.outcome n)) [
        | inl k ↦ inr (k, s.awaited i n e, s.only n (s.awaited i n e) k)
        | inr (o, k) ↦ inl (rw k refl)
      ]
