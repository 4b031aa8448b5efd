-- ===== src/Conversation/Sync.antt =====
-- `useConversationListSync` (frontend/src/conversations/useConversationListSync.ts): how often the
-- list is read again, and since when a title is awaited. The intervals and the time are arguments;
-- `pendingSince` is its entries in the order of insertion.
use ichat.Base.{
  ℕ, ◌+◌, Bool, false, not, Option, none, some, List, [], ◌∷◌, ◌++◌, Text, any, filter, includes,
  option_is, text_eq, is_empty, is_some, leb, if◌then◌else◌,
}
use ichat.Api.Types.{ConversationActiveRun, ConversationResponse}
use ichat.App.Action
use ichat.App.Store.{AppState, root_reducer}
use ichat.Run.State.{ActiveRun}

-- `activeRun?.runId ?? null`.
abbrev pub local_run_id : Option ActiveRun → Option Text
local_run_id none = none
local_run_id (some run) = some run.run_id

-- `run != null && run.id !== localRunId`.
abbrev pub is_background : Option Text → Option ConversationActiveRun → Bool
is_background local none = false
is_background local (some run) = not (option_is local run.id)

-- `hasBackgroundRun`.
unfoldable pub has_background_run : AppState → Bool
has_background_run s =
    any (λ c. is_background (local_run_id s.active_run) c.active_run)
      (s.conversation_index.items ++ s.conversation_index.pinned_items)

-- `delay`, `none` where nothing is polled.
unfoldable pub poll_delay : ℕ → ℕ → AppState → Option ℕ
unfolding has_background_run
poll_delay title_interval run_interval s =
    if not (is_empty s.conversation_index.pending_title_ids)
    then some title_interval
    else if has_background_run s
    then some run_interval
    else none

-- `pendingSince.get(id)`.
abbrev pub since : List (Text × ℕ) → Text → Option ℕ
since [] id = none
since ((key, time) ∷ entries) id = if text_eq key id then some time else since entries id

-- The first loop of the first effect.
unfoldable pub add_pending : ℕ → List Text → List (Text × ℕ) → List (Text × ℕ)
add_pending now [] entries = entries
add_pending now (id ∷ ids) entries =
    add_pending now ids (if is_some (since entries id) then entries else entries ++ (id, now) ∷ [])

-- The first effect.
unfoldable pub note_pending : ℕ → List Text → List (Text × ℕ) → List (Text × ℕ)
unfolding add_pending
note_pending now ids entries = filter (λ e. includes ids e.0) (add_pending now ids entries)

module _ (date_parse : Text → Option ℕ) where
  -- The loop of a tick: a title that is awaited for too long is given up.
  unfoldable pub expire_titles : ℕ → ℕ → List (Text × ℕ) → AppState → AppState
  expire_titles timeout now [] s = s
  expire_titles timeout now ((id, time) ∷ entries) s =
      expire_titles timeout now entries (
        if leb (time + timeout) now
        then root_reducer date_parse s (Action.title_resolved id)
        else s)

  -- A tick: the state, and whether the lists are requested.
  unfoldable pub tick : ℕ → ℕ → List (Text × ℕ) → Bool → AppState → AppState × Bool
  unfolding expire_titles
  tick timeout now entries in_flight s = (expire_titles timeout now entries s, not in_flight)

  -- The answer to the requests: dropped once nobody is logged in.
  unfoldable pub on_lists :
      List ConversationResponse → List ConversationResponse → AppState → AppState
  on_lists list pinned s =
      if not (is_some s.auth.session)
      then s
      else root_reducer date_parse s (Action.list_synced list (some pinned))
