-- ===== src/Api/Client/Progress.antt =====
-- The steps of a request (frontend/src/api/client.ts, `hasRetried`).
use ichat.Base.{ℕ, suc, ◌+◌, ◌≤◌, ◌≡◌, refl, Bool, true, false, Option, ◌==◌, ==_iff, arith}
use ichat.Api.Errors.{Thrown}
use ichat.Api.Json.{Json}
use ichat.Api.Session.{AuthTokenResponse}
use ichat.Api.Client.{
  ApiRequestOptions, Response, Phase, fetching, waiting, responded, failed, Outcome, refreshed,
  broken, World, expire_auth, refresh_session, needs_refresh, on_response, on_fetch_error,
  on_refreshed, on_refresh_error, resume,
}
use ichat.Api.Client.Steps.{Step, answered, thrown, refresh_ended, resumed, session_changed}

-- The steps that a request in this phase has before it at most.
abbrev pub steps_left : Phase → ℕ
steps_left (fetching false) = 3
steps_left (waiting n) = 2
steps_left (fetching true) = 1
steps_left (responded r) = 0
steps_left (failed e) = 0

refresh_session-steps_left : (i : ℕ) (w : World) → steps_left ((refresh_session i w).phase i) ≤ 2
unfolding refresh_session expire_auth
refresh_session-steps_left i w = ground (arith, ==_iff i i)

refresh_session-others :
    (i j : ℕ) (w : World) → (j == i) ≡ false → (refresh_session i w).phase j ≡ w.phase j
unfolding refresh_session expire_auth
refresh_session-others i j w h = ground arith

on_response-steps_left :
    (options : ApiRequestOptions) (i : ℕ) (b : Bool) (r : Response) (w : World)
    → suc (steps_left ((on_response options i b r w).phase i)) ≤ steps_left (fetching b)
unfolding on_response needs_refresh
on_response-steps_left options i true r w = ground (arith, ==_iff i i)
on_response-steps_left options i false r w =
    ground (arith, ==_iff i i, refresh_session-steps_left i w)

on_response-others :
    (options : ApiRequestOptions) (i j : ℕ) (b : Bool) (r : Response) (w : World)
    → (j == i) ≡ false
    → (on_response options i b r w).phase j ≡ w.phase j
unfolding on_response
on_response-others options i j b r w h = ground (arith, refresh_session-others i j w h)

thrown-steps_left :
    (i : ℕ) (b : Bool) (e : Thrown) (w : World)
    → suc (steps_left ((on_fetch_error i e w).phase i)) ≤ steps_left (fetching b)
unfolding on_fetch_error
thrown-steps_left i true e w = ground (arith, ==_iff i i)
thrown-steps_left i false e w = ground (arith, ==_iff i i)

module _ (token_of : Json → Option AuthTokenResponse) where
  resume-steps_left :
      (now i : ℕ) (o : Outcome) (w : World) → steps_left ((resume token_of now i o w).phase i) ≤ 1
  unfolding resume on_refresh_error expire_auth
  resume-steps_left now i (refreshed payload) w = ground (arith, ==_iff i i)
  resume-steps_left now i (broken e) w = ground (arith, ==_iff i i)

  resume-others :
      (now i j : ℕ) (o : Outcome) (w : World)
      → (j == i) ≡ false
      → (resume token_of now i o w).phase j ≡ w.phase j
  unfolding resume on_refresh_error expire_auth
  resume-others now i j (refreshed payload) w h = ground arith
  resume-others now i j (broken e) w h = ground arith

  module _ (options : ℕ → ApiRequestOptions) where
    -- Whether a step is one of request `j`.
    abbrev pub is_own : (j : ℕ) {w v : World} → Step token_of options w v → Bool
    is_own j (answered i b r e) = j == i
    is_own j (thrown i b x e) = j == i
    is_own j (refresh_ended n o below e) = false
    is_own j (resumed now i n o e k) = j == i
    is_own j (session_changed session) = false

    own-steps_left :
        (j : ℕ) {w v : World} (step : Step token_of options w v)
        → is_own j step ≡ true
        → suc (steps_left (v.phase j)) ≤ steps_left (w.phase j)
    own-steps_left j {w} (answered i b r e) h =
        rw ((==_iff j i).0 h) (rw e (on_response-steps_left (options i) i b r w))
    own-steps_left j {w} (thrown i b x e) h =
        rw ((==_iff j i).0 h) (rw e (thrown-steps_left i b x w))
    own-steps_left j (refresh_ended n o below e) h = cc
    own-steps_left j {w} (resumed now i n o e k) h =
        rw ((==_iff j i).0 h) (rw e (omega (arith, resume-steps_left now i o w)))
    own-steps_left j (session_changed session) h = cc

    foreign-phase :
        (j : ℕ) {w v : World} (step : Step token_of options w v)
        → is_own j step ≡ false
        → v.phase j ≡ w.phase j
    unfolding on_fetch_error on_refreshed
    foreign-phase j {w} (answered i b r e) h = on_response-others (options i) i j b r w h
    foreign-phase j {w} (thrown i b x e) h = ground arith
    foreign-phase j (refresh_ended n o below e) h = refl
    foreign-phase j {w} (resumed now i n o e k) h = resume-others now i j o w h
    foreign-phase j (session_changed session) h = refl

    -- Steps from one world to another, of which `k` are those of request `j`.
    pub data Moves (j : ℕ) (w : World) : ℕ → World → Type 0 where
      still : Moves j w 0 w
      own :
          {k : ℕ} {v u : World}
          → Moves j w k v
          → (step : Step token_of options v u) → is_own j step ≡ true
          → Moves j w (suc k) u
      foreign :
          {k : ℕ} {v u : World}
          → Moves j w k v
          → (step : Step token_of options v u) → is_own j step ≡ false
          → Moves j w k u

    -- Of whatever happens, at most as many steps are those of a request as its phase has left: three
    -- of a new request, one of a request that is fetched again, none once it is over.
    pub Moves-steps_left :
        (j : ℕ) {w : World} {k : ℕ} {v : World}
        → Moves j w k v
        → k + steps_left (v.phase j) ≤ steps_left (w.phase j)
    Moves-steps_left j still = omega arith
    Moves-steps_left j (own moves step h) =
        omega (arith, own-steps_left j step h, Moves-steps_left j moves)
    Moves-steps_left j (foreign moves step h) =
        rw (foreign-phase j step h) (Moves-steps_left j moves)
