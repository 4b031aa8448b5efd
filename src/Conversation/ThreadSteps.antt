-- ===== src/Conversation/ThreadSteps.antt =====
-- The hooks that choose what is on display, interleaved in any order: the loader
-- (frontend/src/conversations/useConversationLoader.ts), sending (useSendMessage.ts), regenerating
-- (useRegenerate.ts), the stream and the recovery of runs (frontend/src/runs/useRunStream.ts,
-- useRunRecovery.ts), and every action that neither selects a conversation nor loads a thread. The answer
-- to a regeneration is a step only while its conversation is selected: the code does not check this, and
-- Conversation/LateAnswers shows what an answer does that comes later.
use ichat.Base.{ℕ, ◌≡◌, refl, true, false, Option, none, some, List, Text, option_is}
use ichat.Api.Types.{ConversationResponse}
use ichat.Api.Errors.{Thrown}
use ichat.App.Action
use ichat.App.Store.{initial_state}
use ichat.Conversation.Index.{ConversationIndexState}
use ichat.Conversation.Loader.{
  Client, dispatch, on_detail, on_detail_error, new_conversation, select_conversation, on_deleted,
}
use ichat.Conversation.Regenerate.{on_regenerated}
use ichat.Conversation.Send.{RunResponse, SendMessageResponse, on_created, on_sent}
use ichat.Conversation.Thread.{is_view_action, Agrees, Agrees-other}
use ichat.Stream.Handler.{ConversationDetailResponse, on_fetched}
use ichat.Stream.Recovery.{on_refetched}
use ichat.Conversation.ThreadKept.{
  Answers, on_detail-Agrees, on_detail_error-Agrees, select_conversation-Agrees,
  new_conversation-Agrees, on_deleted-Agrees, on_created-Agrees, on_sent-Agrees,
  on_regenerated-Agrees, on_fetched-Agrees, on_refetched-Agrees,
}

module _ (date_parse : Text → Option ℕ) where
  -- A step that a hook takes between two awaits, or the dispatch of an action that neither selects nor
  -- loads.
  pub data ThreadStep (c : Client) : Client → Type 0 where
    select :
        (rendered : ConversationIndexState) (id : Text)
        → ThreadStep c (select_conversation date_parse rendered id none c).0
    select_prepared :
        (rendered : ConversationIndexState) (id : Text) (detail : ConversationDetailResponse)
        → Answers id detail
        → ThreadStep c (select_conversation date_parse rendered id (some detail) c).0
    answered :
        (id : Text) (detail : ConversationDetailResponse)
        → Answers id detail
        → ThreadStep c (on_detail date_parse id detail c)
    refused : (id : Text) (error : Thrown) → ThreadStep c (on_detail_error date_parse id error c)
    blank : ThreadStep c (new_conversation date_parse c)
    deleted :
        (rendered : ConversationIndexState) (id : Text)
        → ThreadStep c (on_deleted date_parse rendered id c).0
    created :
        (convo : ConversationResponse) (answer : SendMessageResponse)
        → ThreadStep c (on_created date_parse convo answer c).0
    sent :
        (target_id : Text) (answer : SendMessageResponse)
        → ThreadStep c (on_sent date_parse target_id answer c).0
    regenerated :
        (id : Text) (started : RunResponse) (detail : ConversationDetailResponse)
        → Answers id detail
        → option_is c.state.conversation_index.selected_id id ≡ true
        → ThreadStep c (on_regenerated date_parse id started detail c).0
    run_fetched :
        (run_id id : Text) (detail : ConversationDetailResponse) (list : List ConversationResponse)
        → Answers id detail
        → ThreadStep c (record c { state = on_fetched date_parse run_id id detail list c.state })
    refetched :
        (id : Text) (detail : ConversationDetailResponse) (list : List ConversationResponse)
        → Answers id detail
        → ThreadStep c (record c { state = on_refetched date_parse id detail list c.state })
    other :
        (a : Action.AppAction) → is_view_action a ≡ false → ThreadStep c (dispatch date_parse a c)

  pub data ThreadReach : Client → Type 0 where
    opened :
        (saved : Option Text)
        → ThreadReach
            (record { state = initial_state; saved_selection = saved; loading_more = false })
    later : {c d : Client} → ThreadReach c → ThreadStep c d → ThreadReach d

  ThreadStep-Agrees : {c d : Client} → ThreadStep c d → Agrees c.state → Agrees d.state
  ThreadStep-Agrees {c} (select rendered id) h =
      select_conversation-Agrees date_parse rendered id none c tt h
  ThreadStep-Agrees {c} (select_prepared rendered id detail e) h =
      select_conversation-Agrees date_parse rendered id (some detail) c e h
  ThreadStep-Agrees {c} (answered id detail e) h = on_detail-Agrees date_parse id detail c e h
  ThreadStep-Agrees {c} (refused id error) h = on_detail_error-Agrees date_parse id error c h
  ThreadStep-Agrees {c} blank h = new_conversation-Agrees date_parse c
  ThreadStep-Agrees {c} (deleted rendered id) h = on_deleted-Agrees date_parse rendered id c h
  ThreadStep-Agrees {c} (created convo answer) h = on_created-Agrees date_parse convo answer c
  ThreadStep-Agrees {c} (sent target_id answer) h = on_sent-Agrees date_parse target_id answer c h
  ThreadStep-Agrees {c} (regenerated id started detail e k) h =
      on_regenerated-Agrees date_parse id started detail c e k
  ThreadStep-Agrees {c} (run_fetched run_id id detail list e) h =
      on_fetched-Agrees date_parse run_id id detail list c.state e h
  ThreadStep-Agrees {c} (refetched id detail list e) h =
      on_refetched-Agrees date_parse id detail list c.state e h
  ThreadStep-Agrees {c} (other a e) h = Agrees-other date_parse c.state a e h

  -- However selections, their answers, deletions, sends, regenerations, the ends of runs, recoveries and
  -- dispatches that neither select a conversation nor load a thread interleave from the start on, a
  -- thread on display that is ready is that of the selected conversation, as long as the service answers
  -- with the conversation asked for, and no answer to a regeneration comes after its conversation was
  -- left.
  pub ThreadReach-Agrees : {c : Client} → ThreadReach c → Agrees c.state
  ThreadReach-Agrees (opened saved) = record { aligned = refl }
  ThreadReach-Agrees (later r step) = ThreadStep-Agrees step (ThreadReach-Agrees r)
