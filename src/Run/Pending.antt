-- ===== src/Run/Pending.antt =====
-- `findPendingRunId` of frontend/src/runs/pendingRun.ts: the run that a loaded thread still waits for.
use mathlib.Core.List.{reverse, reverse-append, reverse-cons, append_assoc, append-nil}
use ichat.Base.{
  ◌≡◌, ◌≢◌, refl, sym, ap, ◌∙◌, ◌⊎◌, inl, inr, Bool, true, false, not, ◌&&◌, Option, none, some,
  List, [], ◌∷◌, ◌++◌, Text, any, All, option_is, is_some, text_eq_sound, text_eq_refl,
  if◌then◌else◌, arith, Bool-cases,
}
use ichat.Api.Types.{MessageResponse, MessageRole}

abbrev pub is_user : MessageRole → Bool
is_user MessageRole.user = true
is_user MessageRole.assistant = false

-- `m.role === "assistant" && m.run_id === runId` for some message.
unfoldable pub is_materialized : List MessageResponse → Text → Bool
is_materialized messages run_id =
    any (λ m. not (is_user m.role) && option_is m.run_id run_id) messages

-- Neither of the tests that the loop continues on.
abbrev pub is_candidate : MessageResponse → Bool
is_candidate m = is_user m.role && is_some m.run_id

-- What the loop returns at its first candidate.
abbrev pub pending_at : List MessageResponse → Option Text → Option Text
pending_at messages none = none
pending_at messages (some run_id) = if is_materialized messages run_id then none else some run_id

-- The loop, over the messages from the last one on.
unfoldable pub scan : List MessageResponse → List MessageResponse → Option Text
unfolding is_materialized
scan messages [] = none
scan messages (candidate ∷ earlier) =
    if is_candidate candidate then pending_at messages candidate.run_id else scan messages earlier

unfoldable pub find_pending_run_id : List MessageResponse → Option Text
unfolding scan
find_pending_run_id messages = scan messages (reverse messages)

scan-skip :
    (messages after earlier : List MessageResponse)
    → All (λ m. is_candidate m ≡ false) after
    → scan messages (reverse after ++ earlier) ≡ scan messages earlier
scan-skip messages [] earlier h = refl
scan-skip messages (m ∷ after) earlier (h, hs) =
    ap (λ ms. scan messages (ms ++ earlier)) (reverse-cons m after)
    ∙ ap (scan messages) (append_assoc (reverse after) (m ∷ []) earlier)
    ∙ scan-skip messages after (m ∷ earlier) hs
    ∙ unfold scan in (ap (λ b. if b then pending_at messages m.run_id else scan messages earlier) h)

find_pending_run_id-last :
    (before after : List MessageResponse) (m : MessageResponse)
    → is_candidate m ≡ true
    → All (λ n. is_candidate n ≡ false) after
    → find_pending_run_id (before ++ m ∷ after) ≡ pending_at (before ++ m ∷ after) m.run_id
unfolding find_pending_run_id
find_pending_run_id-last before after m h hs =
    let messages = before ++ m ∷ after in
    ap (scan messages) (reverse-append before (m ∷ after))
    ∙ ap (λ ms. scan messages (ms ++ reverse before)) (reverse-cons m after)
    ∙ ap (scan messages) (append_assoc (reverse after) (m ∷ []) (reverse before))
    ∙ scan-skip messages after (m ∷ reverse before) hs
    ∙ ap (λ b. if b then pending_at messages m.run_id else scan messages (reverse before)) h

find_pending_run_id-none :
    (messages : List MessageResponse)
    → All (λ n. is_candidate n ≡ false) messages
    → find_pending_run_id messages ≡ none
unfolding find_pending_run_id
find_pending_run_id-none messages hs =
    ap (scan messages) (sym (append-nil (reverse messages))) ∙ scan-skip messages messages [] hs

-- No message is one of the user that carries a run.
abbrev pub NoneAsks : List MessageResponse → Type 0
NoneAsks = All (λ m. (is_user m.role && is_some m.run_id) ≡ false)

-- What a thread waits for, read off the thread as a whole.
pub data Awaits (messages : List MessageResponse) : Option Text → Type 0 where
  nothing_asked : NoneAsks messages → Awaits messages none
  answered :
      (before after : List MessageResponse) (m : MessageResponse) (run_id : Text)
      → messages ≡ before ++ m ∷ after
      → is_user m.role ≡ true
      → m.run_id ≡ some run_id
      → NoneAsks after
      → (front back : List MessageResponse) (reply : MessageResponse)
      → messages ≡ front ++ reply ∷ back
      → is_user reply.role ≡ false
      → reply.run_id ≡ some run_id
      → Awaits messages none
  waiting :
      (before after : List MessageResponse) (m : MessageResponse) (run_id : Text)
      → messages ≡ before ++ m ∷ after
      → is_user m.role ≡ true
      → m.run_id ≡ some run_id
      → NoneAsks after
      → All (λ n. (is_user n.role ≡ true) ⊎ (n.run_id ≢ some run_id)) messages
      → Awaits messages (some run_id)

-- The last message that asks, if there is one.
data LastAsk (messages : List MessageResponse) : Type 0 where
  no_ask : NoneAsks messages → LastAsk messages
  last_ask :
      (before after : List MessageResponse) (m : MessageResponse) (run_id : Text)
      → messages ≡ before ++ m ∷ after
      → is_user m.role ≡ true
      → m.run_id ≡ some run_id
      → NoneAsks after
      → LastAsk messages

LastAsk-cons :
    (m : MessageResponse) (ms : List MessageResponse) (o : Option Text)
    → m.run_id ≡ o
    → NoneAsks ms
    → LastAsk (m ∷ ms)
LastAsk-cons m ms none e h = no_ask (ground arith, h)
LastAsk-cons m ms (some run_id) e h = elim (Bool-cases (is_user m.role)) [
  | inl u ↦ last_ask [] ms m run_id refl u e h
  | inr u ↦ no_ask (ground arith, h)
]

find-LastAsk : (messages : List MessageResponse) → LastAsk messages
find-LastAsk [] = no_ask tt
find-LastAsk (m ∷ ms) = elim (find-LastAsk ms) [
  | no_ask h ↦ LastAsk-cons m ms m.run_id refl h
  | last_ask before after n run_id e u k h ↦
      last_ask (m ∷ before) after n run_id (ap (λ l. m ∷ l) e) u k h
]

-- A message that a search finds.
data Found (p : MessageResponse → Bool) (messages : List MessageResponse) : Type 0 where
  found :
      (front back : List MessageResponse) (m : MessageResponse)
      → messages ≡ front ++ m ∷ back
      → p m ≡ true
      → Found p messages

any-found :
    (p : MessageResponse → Bool) (messages : List MessageResponse)
    → any p messages ≡ true
    → Found p messages
any-found p [] h = cc
any-found p (m ∷ ms) h = elim (Bool-cases (p m)) [
  | inl e ↦ found [] ms m refl e
  | inr e ↦ elim (any-found p ms (ground arith)) [
    | found front back n q k ↦ found (m ∷ front) back n (ap (λ l. m ∷ l) q) k
  ]
]

option_is-some : (o : Option Text) (s : Text) → option_is o s ≡ true → o ≡ some s
option_is-some none s h = cc
option_is-some (some t) s h = ap some (text_eq_sound t s h)

not_answered :
    (run_id : Text) (messages : List MessageResponse)
    → is_materialized messages run_id ≡ false
    → All (λ n. (is_user n.role ≡ true) ⊎ (n.run_id ≢ some run_id)) messages
unfolding is_materialized
not_answered run_id [] h = tt
not_answered run_id (m ∷ ms) h = (
  elim (Bool-cases (is_user m.role)) [
    | inl u ↦ inl u
    | inr u ↦ inr (λ e. ground (arith, text_eq_refl run_id))
  ],
  not_answered run_id ms (ground arith),
)

-- The pending run of a thread is the one that its last user message with a run asks for, as long as no
-- assistant message of the whole thread belongs to that run; where one does, or no user message
-- carries a run, there is none.
pub find_pending_run_id-Awaits :
    (messages : List MessageResponse) → Awaits messages (find_pending_run_id messages)
find_pending_run_id-Awaits messages = elim (find-LastAsk messages) [
  | no_ask h ↦ rw (find_pending_run_id-none messages h) (nothing_asked h)
  | last_ask before after m run_id e u k h ↦
      let decided : find_pending_run_id messages ≡ pending_at messages (some run_id) =
        ap find_pending_run_id e
        ∙ find_pending_run_id-last before after m (ground arith) h
        ∙ ap (λ l. pending_at l m.run_id) (sym e)
        ∙ ap (pending_at messages) k in
      rw decided (elim (Bool-cases (is_materialized messages run_id)) [
        | inl b ↦
            elim (any-found (λ n. not (is_user n.role) && option_is n.run_id run_id) messages
              (unfold is_materialized in b)) [
                | found front back reply q j ↦ rw b (
                    answered before after m run_id e u k h front back reply q (ground arith)
                      (option_is-some reply.run_id run_id (ground arith)))
              ]
        | inr b ↦ rw b (waiting before after m run_id e u k h (not_answered run_id messages b))
      ])
]
