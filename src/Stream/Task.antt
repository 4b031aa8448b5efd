-- ===== src/Stream/Task.antt =====
-- The stream of one run and the rest of the application as interleaved steps
-- (frontend/src/runs/useRunStream.ts): between two steps of the task any action may be dispatched.
use ichat.Base.{ℕ, ◌≡◌, true, false, Bool, Option, List, Text}
use ichat.Api.Types.{ConversationResponse}
use ichat.App.Store.{AppState}
use ichat.Stream.Handler.{
  RunEventType, RunStreamEvent, ConversationDetailResponse, run_succeeded, run_failed,
  run_cancelled, on_event, on_fetched, on_stream_error,
}

-- Where the task stands: in its loop, in the `await` after a succeeded run, or at its end.
pub data Phase : Type 0 where
  reading fetching done : Phase

abbrev pub is_live : Phase → Bool
is_live done = false
is_live _ = true

-- The generator of `streamEvents` returns after a terminal event.
abbrev pub next_phase : RunEventType → Phase
next_phase run_succeeded = fetching
next_phase run_failed = done
next_phase run_cancelled = done
next_phase _ = reading

pub record World : Type 0 where
  pub state : AppState
  pub phase : Phase

module _ (date_parse : Text → Option ℕ) (run_id conversation_id : Text) where
  -- A step of the task of this run.
  pub data TaskStep : World → World → Type 0 where
    receive :
        (s : AppState) (e : RunStreamEvent)
        → TaskStep
            (record { state = s; phase = reading })
            (record {
              state = on_event date_parse run_id conversation_id e.type e s;
              phase = next_phase e.type;
            })
    fetched :
        (s : AppState) (detail : ConversationDetailResponse) (list : List ConversationResponse)
        → TaskStep
            (record { state = s; phase = fetching })
            (record {
              state = on_fetched date_parse run_id conversation_id detail list s;
              phase = done;
            })
    -- While the task runs, the stream or the fetch fails, or the stream is aborted.
    fail :
        (s : AppState) (p : Phase) (is_abort : Bool)
        → is_live p ≡ true
        → TaskStep
            (record { state = s; phase = p })
            (record { state = on_stream_error date_parse run_id is_abort s; phase = done })
