-- ===== src/Conversation/OneSend.antt =====
-- Sends one after another, and how each ends (frontend/src/conversations/useSendMessage.ts,
-- submission.ts).
use ichat.Base.{
  ℕ, ◌≡◌, refl, Bool, true, false, not, Option, none, some, List, [], ◌∷◌, Text, all, is_some,
  or_else, codes, trim, arith, Bool-cases, inl, inr,
}
use ichat.Api.Types.{ConversationResponse, ReplyQuoteDraft}
use ichat.Api.Errors.{Thrown}
use ichat.App.Action
use ichat.App.Slices.{pending_submission_reducer}
use ichat.App.Store.{AppState, root_reducer, dispatch_all}
use ichat.Conversation.Detail.{conversation_detail_reducer}
use ichat.Conversation.Loader.{Client}
use ichat.Conversation.Send.{
  SendMessageResponse, SendInput, is_refused, send_message, on_created, on_sent, on_send_error,
  recovery_message,
}
use ichat.Run.Options.{Preferences}
use ichat.Run.State.{ActiveRun, start, active_run_reducer}
use ichat.Stream.Recovery.{stream}

-- The actions that end a submission.
abbrev pub ends_submission : Action.AppAction → Bool
ends_submission Action.submission_cleared = true
ends_submission Action.app_reset = true
ends_submission _ = false

still_pending :
    (o : Option Action.Submission) (a : Action.AppAction)
    → ends_submission a ≡ false
    → is_some o ≡ true
    → is_some (pending_submission_reducer o a) ≡ true
unfolding pending_submission_reducer
still_pending o a h k = ground arith

is_refused-pending :
    (trimmed : Text) (ids : Option (List Text)) (quote : Option ReplyQuoteDraft) (s : AppState)
    → is_some s.pending_submission ≡ true
    → is_refused trimmed ids quote s ≡ true
unfolding is_refused
is_refused-pending trimmed ids quote s h = ground arith

module _ (date_parse : Text → Option ℕ) where
  still_pending_all :
      (s : AppState) (actions : List Action.AppAction)
      → all (λ a. not (ends_submission a)) actions ≡ true
      → is_some s.pending_submission ≡ true
      → is_some (dispatch_all date_parse s actions).pending_submission ≡ true
  unfolding dispatch_all root_reducer
  still_pending_all s [] h k = k
  still_pending_all s (a ∷ actions) h k =
      still_pending_all (root_reducer date_parse s a) actions (ground arith)
        (still_pending s.pending_submission a (ground arith) k)

  send_message-pending :
      (preferences : Preferences) (input : SendInput) (c : Client)
      → is_some c.state.pending_submission ≡ true
      → send_message date_parse preferences input c ≡ (c, none)
  unfolding send_message
  send_message-pending preferences input c h =
      rw (is_refused-pending (trim input.content) input.attachment_ids input.reply_quote c.state h)
        refl

  send_message-starts :
      (preferences : Preferences) (input : SendInput) (c : Client)
      → is_some (send_message date_parse preferences input c).1 ≡ true
      → is_some (send_message date_parse preferences input c).0.state.pending_submission ≡ true
  unfolding send_message root_reducer pending_submission_reducer
  send_message-starts preferences input c h =
      elim (Bool-cases
        (is_refused (trim input.content) input.attachment_ids input.reply_quote c.state)) [
          | inl e ↦
              let none_sent : is_some (send_message date_parse preferences input c).1 ≡ false =
                rw e refl in
              cc
          | inr e ↦ rw e refl
        ]

  -- Once a message is on its way, no further one is sent, whatever is dispatched, until the submission
  -- is cleared or the store reset: a second call does nothing.
  pub one_send_at_a_time :
      (preferences later_preferences : Preferences) (input later_input : SendInput) (c : Client)
      (actions : List Action.AppAction)
      → is_some (send_message date_parse preferences input c).1 ≡ true
      → all (λ a. not (ends_submission a)) actions ≡ true
      → let sending = (send_message date_parse preferences input c).0 in
        let meanwhile = record sending { state = dispatch_all date_parse sending.state actions } in
        send_message date_parse later_preferences later_input meanwhile ≡ (meanwhile, none)
  one_send_at_a_time preferences later_preferences input later_input c actions h k =
      send_message-pending later_preferences later_input _ (
        still_pending_all (send_message date_parse preferences input c).0.state actions k
          (send_message-starts preferences input c h))

  -- A send that succeeds ends the submission and shows the new run, which is streamed from its start;
  -- a send that fails ends the submission and leaves the shown run and the thread as they are.
  pub send_settles :
      (convo : ConversationResponse) (target_id : Text) (answer : SendMessageResponse)
      (error : Thrown) (c : Client)
      → let created = on_created date_parse convo answer c in
        let sent = on_sent date_parse target_id answer c in
        let failed = on_send_error date_parse error c in
        let run_of = λ (id : Text). start answer.run.id id answer.run.provider_name in
        (created.0.state.pending_submission ≡ none)
        × (created.0.state.active_run ≡ some (run_of convo.id))
        × (created.1 ≡ stream answer.run.id convo.id 0)
        × (sent.0.state.pending_submission ≡ none)
        × (sent.0.state.active_run ≡ some (run_of target_id))
        × (sent.1 ≡ stream answer.run.id target_id 0)
        × (failed.state.pending_submission ≡ none)
        × (failed.state.active_run ≡ c.state.active_run)
        × (failed.state.conversation_detail ≡ c.state.conversation_detail)
  unfolding on_created on_sent on_send_error root_reducer pending_submission_reducer
      active_run_reducer conversation_detail_reducer
  send_settles convo target_id answer error c =
      (refl, refl, refl, refl, refl, refl, refl, untouched c.state.active_run, refl)
    where
      untouched :
          (r : Option ActiveRun)
          → active_run_reducer
              (active_run_reducer r Action.submission_cleared)
              (Action.show_toast (or_else (recovery_message error) (codes "发送失败，请重试")) Action.error)
            ≡ r
      untouched none = refl
      untouched (some r) = refl
