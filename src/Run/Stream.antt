-- ===== src/Run/Stream.antt =====
-- A run's events folded into the store: the drafts of a stream of deltas, from its start and from a
-- server snapshot (frontend/src/runs/state.ts).
use mathlib.Core.List.{append-nil, append_assoc}
use ichat.Base.{
  ℕ, Bool, true, false, ◌≡◌, refl, sym, ap, ◌∙◌, Option, none, some, List, [], ◌∷◌, ◌++◌, map, Text,
  if◌then◌else◌, or_else,
}
use ichat.Api.Types.{RunToolSource, RunToolState}
use ichat.App.Action
use ichat.Run.State.{
  ActiveRun, is_succeeded, merge_sources, new_sources, on_reasoning_delta, on_text_delta,
  on_tool_state, restore, start, active_run_reducer,
}
use ichat.Run.Sources.{merge_sources_assoc}

-- The events of a stream that extend the drafts.
pub data Delta : Type 0 where
  reasoning_of : ℕ → Text → Option Action.DeltaKind → Delta
  text_of : ℕ → Text → Delta
  tool_of : ℕ → RunToolState → Delta

abbrev pub action_of : Delta → Action.AppAction
action_of (reasoning_of seq t kind) = Action.reasoning_delta seq t kind
action_of (text_of seq t) = Action.text_delta seq t
action_of (tool_of seq t) = Action.run_tool_state seq t

unfoldable pub reduce_all : Option ActiveRun → List Action.AppAction → Option ActiveRun
reduce_all s [] = s
reduce_all s (a ∷ actions) = reduce_all (active_run_reducer s a) actions

-- What a stream adds to each draft.
abbrev pub texts : List Delta → Text
texts [] = []
texts (text_of seq t ∷ ds) = t ++ texts ds
texts (_ ∷ ds) = texts ds

abbrev pub reasonings : Bool → List Delta → Text
reasonings b [] = []
reasonings true (reasoning_of seq t (some Action.DeltaKind.summary) ∷ ds) = t ++ reasonings true ds
reasonings false (reasoning_of seq t (some Action.DeltaKind.raw) ∷ ds) = t ++ reasonings false ds
reasonings false (reasoning_of seq t none ∷ ds) = t ++ reasonings false ds
reasonings b (_ ∷ ds) = reasonings b ds

abbrev pub sources_of : List Delta → List RunToolSource
sources_of [] = []
sources_of (tool_of seq t ∷ ds) = (if is_succeeded t.status then t.sources else []) ++ sources_of ds
sources_of (_ ∷ ds) = sources_of ds

abbrev pub seq_of : Delta → ℕ
seq_of (reasoning_of seq t kind) = seq
seq_of (text_of seq t) = seq
seq_of (tool_of seq t) = seq

abbrev pub last_seq : ℕ → List Delta → ℕ
last_seq n [] = n
last_seq n (d ∷ ds) = last_seq (seq_of d) ds

-- The fields that the drafts of two runs can be compared by.
pub record Drafts : Type 0 where
  pub run_id : Text
  pub conversation_id : Text
  pub latest_seq : ℕ
  pub draft_text : Text
  pub draft_reasoning : Text
  pub draft_reasoning_summary : Text
  pub draft_sources : List RunToolSource

abbrev pub drafts_of : ActiveRun → Drafts
drafts_of s = record {
  run_id = s.run_id;
  conversation_id = s.conversation_id;
  latest_seq = s.latest_seq;
  draft_text = s.draft_text;
  draft_reasoning = s.draft_reasoning;
  draft_reasoning_summary = s.draft_reasoning_summary;
  draft_sources = s.draft_sources;
}

-- The drafts extended by a stream, by the reference definitions above.
abbrev pub extend : Drafts → List Delta → Drafts
extend d ds = record d {
  latest_seq = last_seq d.latest_seq ds;
  draft_text = d.draft_text ++ texts ds;
  draft_reasoning = d.draft_reasoning ++ reasonings false ds;
  draft_reasoning_summary = d.draft_reasoning_summary ++ reasonings true ds;
  draft_sources = merge_sources d.draft_sources (sources_of ds);
}

abbrev pub drafts : Option ActiveRun → Option Drafts
drafts none = none
drafts (some s) = some (drafts_of s)

step_of : ActiveRun → Delta → ActiveRun
unfolding on_reasoning_delta on_text_delta on_tool_state
step_of s (reasoning_of seq t kind) = on_reasoning_delta seq t kind s
step_of s (text_of seq t) = on_text_delta seq t s
step_of s (tool_of seq t) = on_tool_state seq t s

active_run_reducer-delta :
    (s : ActiveRun) (d : Delta) → active_run_reducer (some s) (action_of d) ≡ some (step_of s d)
unfolding active_run_reducer step_of
active_run_reducer-delta s (reasoning_of seq t kind) = refl
active_run_reducer-delta s (text_of seq t) = refl
active_run_reducer-delta s (tool_of seq t) = refl

merge_sources-nil : (a : List RunToolSource) → merge_sources a [] ≡ a
unfolding merge_sources new_sources
merge_sources-nil a = refl

merge_sources-if :
    (b : Bool) (a t c : List RunToolSource)
    → merge_sources (if b then merge_sources a t else a) c
      ≡ merge_sources a ((if b then t else []) ++ c)
merge_sources-if true a t c = merge_sources_assoc a t c
merge_sources-if false a t c = refl

extend-step :
    (s : ActiveRun) (d : Delta) (ds : List Delta)
    → extend (drafts_of (step_of s d)) ds ≡ extend (drafts_of s) (d ∷ ds)
unfolding step_of
extend-step s (reasoning_of seq t (some Action.DeltaKind.summary)) ds = simp append_assoc
extend-step s (reasoning_of seq t (some Action.DeltaKind.raw)) ds = simp append_assoc
extend-step s (reasoning_of seq t none) ds = simp append_assoc
extend-step s (text_of seq t) ds = simp append_assoc
extend-step s (tool_of seq t) ds =
    rw (merge_sources-if (is_succeeded t.status) s.draft_sources t.sources (sources_of ds)) refl

-- Whatever deltas arrive, in any order and number, the run keeps its identity, each draft is what
-- it was with the text of its own deltas appended, the sequence number is that of the last delta,
-- and the sources are those given so far with the new ones merged in.
pub reduce_all-drafts :
    (s : ActiveRun) (ds : List Delta)
    → drafts (reduce_all (some s) (map action_of ds)) ≡ some (extend (drafts_of s) ds)
unfolding reduce_all
reduce_all-drafts s [] = simp (append-nil, merge_sources-nil)
reduce_all-drafts s (d ∷ ds) =
    ap (λ x. drafts (reduce_all x (map action_of ds))) (active_run_reducer-delta s d)
    ∙ reduce_all-drafts (step_of s d) ds
    ∙ ap some (extend-step s d ds)

-- What the server's snapshot of a run must hold after it has emitted `ds`: the accumulated drafts,
-- the last sequence number, and sources that merge to those of the succeeded tool calls.
pub record Accumulates (ds : List Delta) (a : Action.RunSnapshot) : Type 0 where
  pub seq_reached : a.latest_seq ≡ last_seq 0 ds
  pub text_reached : a.draft_text ≡ texts ds
  pub reasoning_reached : a.draft_reasoning ≡ reasonings false ds
  pub summary_reached : or_else a.draft_reasoning_summary [] ≡ reasonings true ds
  pub sources_reached : merge_sources [] (or_else a.sources []) ≡ merge_sources [] (sources_of ds)

last_seq-append : (n : ℕ) (ds es : List Delta) → last_seq n (ds ++ es) ≡ last_seq (last_seq n ds) es
last_seq-append n [] es = refl
last_seq-append n (d ∷ ds) es = last_seq-append (seq_of d) ds es

texts-append : (ds es : List Delta) → texts (ds ++ es) ≡ texts ds ++ texts es
texts-append [] es = refl
texts-append (text_of seq t ∷ ds) es = simp (texts-append ds es, append_assoc)
texts-append (reasoning_of seq t kind ∷ ds) es = texts-append ds es
texts-append (tool_of seq t ∷ ds) es = texts-append ds es

reasonings-append :
    (b : Bool) (ds es : List Delta) → reasonings b (ds ++ es) ≡ reasonings b ds ++ reasonings b es
reasonings-append b [] es = refl
reasonings-append true (reasoning_of seq t (some Action.DeltaKind.summary) ∷ ds) es =
    simp (reasonings-append true ds es, append_assoc)
reasonings-append false (reasoning_of seq t (some Action.DeltaKind.raw) ∷ ds) es =
    simp (reasonings-append false ds es, append_assoc)
reasonings-append false (reasoning_of seq t none ∷ ds) es =
    simp (reasonings-append false ds es, append_assoc)
reasonings-append b (_ ∷ ds) es = reasonings-append b ds es

sources_of-append : (ds es : List Delta) → sources_of (ds ++ es) ≡ sources_of ds ++ sources_of es
sources_of-append [] es = refl
sources_of-append (tool_of seq t ∷ ds) es = simp (sources_of-append ds es, append_assoc)
sources_of-append (reasoning_of seq t kind ∷ ds) es = sources_of-append ds es
sources_of-append (text_of seq t ∷ ds) es = sources_of-append ds es

extend-append : (d : Drafts) (ds es : List Delta) → extend (extend d ds) es ≡ extend d (ds ++ es)
extend-append d ds es = simp (
  last_seq-append, texts-append, reasonings-append, sources_of-append, append_assoc,
  merge_sources_assoc,
)

drafts-restore :
    (provider : Option Text) (ds : List Delta) (a : Action.RunSnapshot)
    → Accumulates ds a
    → drafts_of (restore a) ≡ extend (drafts_of (start a.run_id a.conversation_id provider)) ds
unfolding restore start
drafts-restore provider ds a h = λ i. record {
  run_id = a.run_id;
  conversation_id = a.conversation_id;
  latest_seq = h.seq_reached i;
  draft_text = h.text_reached i;
  draft_reasoning = h.reasoning_reached i;
  draft_reasoning_summary = h.summary_reached i;
  draft_sources = h.sources_reached i;
}

-- Restoring a run from a snapshot that the server took after the events `ds`, and then streaming
-- the later events `es`, leaves the drafts, the sources, the identity and the sequence number that
-- an uninterrupted stream of `ds` and `es` leaves.
pub resume_equals_stream :
    (provider : Option Text) (ds es : List Delta) (a : Action.RunSnapshot)
    → Accumulates ds a
    → drafts (reduce_all none (Action.run_restored a ∷ map action_of es))
      ≡ drafts (
          reduce_all none
            (Action.run_started a.run_id a.conversation_id provider ∷ map action_of (ds ++ es)))
resume_equals_stream provider ds es a h =
    unfold reduce_all active_run_reducer in
    (reduce_all-drafts (restore a) es
      ∙ ap (λ d. some (extend d es)) (drafts-restore provider ds a h)
      ∙ ap some (extend-append (drafts_of (start a.run_id a.conversation_id provider)) ds es)
      ∙ sym (reduce_all-drafts (start a.run_id a.conversation_id provider) (ds ++ es)))
