-- ===== src/Api/Sse/Chunks.antt =====
-- The parser's `push` (frontend/src/api/sse.ts): the end of its loop, and texts that come in chunks.
use mathlib.Core.List.{append_assoc, append-nil}
use ichat.Base.{
  ℕ, zero, suc, ◌<◌, ◌≡◌, refl, sym, ap, ◌∙◌, Option, none, some, List, [], ◌∷◌, ◌++◌, Text, length,
  arith, Option-cases, inl, inr,
}
use ichat.Api.Sse.{
  ParsedSseEvent, parse_event, find_boundary, push_event, drain, push, push_all, decode_sse_stream,
}
use ichat.Api.Sse.Boundary.{cut, cut_at, find_boundary-cut}
use ichat.Api.Sse.Cut.{cut-append, length-cut}

-- A round of the loop: what it adds in front of the events of the later rounds.
abbrev pub add_event : Text → Text × List ParsedSseEvent → Text × List ParsedSseEvent
add_event raw (rest, events) = (rest, push_event (parse_event raw) events)

drain_step : (fuel : ℕ) (s : Text) → Option (Text × Text) → Text × List ParsedSseEvent
drain_step fuel s none = (s, [])
drain_step fuel s (some (raw, rest)) = add_event raw (drain fuel rest)

-- A round goes by the cut of the buffer.
drain-suc : (fuel : ℕ) (s : Text) → drain (suc fuel) s ≡ drain_step fuel s (cut s)
unfolding drain drain_step
drain-suc fuel s = elim (Option-cases (find_boundary s)) [
  | inl e ↦ rw (e, drain) (ap (drain_step fuel s) (sym (ap (cut_at s) e) ∙ find_boundary-cut s))
  | inr ((index, size), e) ↦
      rw (e, drain) (ap (drain_step fuel s) (sym (ap (cut_at s) e) ∙ find_boundary-cut s))
]

drain_step-congr :
    (f g : ℕ) (s : Text) (o : Option (Text × Text))
    → ((raw rest : Text) → o ≡ some (raw, rest) → drain f rest ≡ drain g rest)
    → drain_step f s o ≡ drain_step g s o
unfolding drain_step
drain_step-congr f g s none h = refl
drain_step-congr f g s (some (raw, rest)) h = ap (add_event raw) (h raw rest refl)

-- Any fuel above the buffer's length gives the same result.
drain-enough : (f g : ℕ) (s : Text) → length s < f → length s < g → drain f s ≡ drain g s
drain-enough zero g s h k = absurd (omega arith)
drain-enough (suc f) zero s h k = absurd (omega arith)
drain-enough (suc f) (suc g) s h k =
    drain-suc f s
    ∙ drain_step-congr f g s (cut s) (λ raw rest e.
      drain-enough f g rest (omega (arith, length-cut s raw rest e))
        (omega (arith, length-cut s raw rest e)))
    ∙ sym (drain-suc g s)

-- The loop with the fuel that `push` gives it.
abbrev pub drained : Text → Text × List ParsedSseEvent
drained s = drain (suc (length s)) s

pub drained-none : (s : Text) → cut s ≡ none → drained s ≡ (s, [])
unfolding drain_step
drained-none s e = drain-suc (length s) s ∙ ap (drain_step (length s) s) e

pub drained-some :
    (s raw rest : Text) → cut s ≡ some (raw, rest) → drained s ≡ add_event raw (drained rest)
unfolding drain_step
drained-some s raw rest e =
    drain-suc (length s) s
    ∙ ap (drain_step (length s) s) e
    ∙ ap (add_event raw)
        (drain-enough (length s) (suc (length rest)) rest (length-cut s raw rest e) (omega arith))

-- More text handed to what a first call left.
abbrev pub then_more : Text → Text × List ParsedSseEvent → Text × List ParsedSseEvent
then_more u (buffer, events) = let (rest, later) = drained (buffer ++ u) in (rest, events ++ later)

add_event-then_more :
    (raw u : Text) (x : Text × List ParsedSseEvent)
    → then_more u (add_event raw x) ≡ add_event raw (then_more u x)
add_event-then_more raw u (buffer, events) = elim (Option-cases (parse_event raw)) [
  | inl e ↦ rw e refl
  | inr (event, e) ↦ rw e refl
]

-- Induction on the length: `n` bounds it.
drained-append_below :
    (n : ℕ) (s u : Text) → length s < n → drained (s ++ u) ≡ then_more u (drained s)
drained-append_below zero s u h = absurd (omega arith)
drained-append_below (suc n) s u h = elim (Option-cases (cut s)) [
  | inl e ↦ sym (ap (then_more u) (drained-none s e))
  | inr ((raw, rest), e) ↦
      drained-some (s ++ u) raw (rest ++ u) (cut-append s u raw rest e)
      ∙ ap (add_event raw) (drained-append_below n rest u (omega (arith, length-cut s raw rest e)))
      ∙ sym (add_event-then_more raw u (drained rest))
      ∙ sym (ap (then_more u) (drained-some s raw rest e))
]

pub push-drained : (buffer chunk : Text) → push buffer chunk ≡ drained (buffer ++ chunk)
unfolding push
push-drained buffer chunk = refl

-- Feeding two chunks one after the other gives the events, in order, and the buffer that feeding
-- their concatenation at once gives.
pub push-append :
    (buffer a b : Text)
    → push buffer (a ++ b) ≡ (
        let (rest, events) = push buffer a in
        let (rest', later) = push rest b in (rest', events ++ later))
unfolding push
push-append buffer a b =
    ap drained (sym (append_assoc buffer a b))
    ∙ drained-append_below (suc (length (buffer ++ a))) (buffer ++ a) b (omega arith)

cut-drained_below : (n : ℕ) (s : Text) → length s < n → cut (drained s).0 ≡ none
cut-drained_below zero s h = absurd (omega arith)
cut-drained_below (suc n) s h = elim (Option-cases (cut s)) [
  | inl e ↦ rw (ap (λ x. x.0) (drained-none s e)) e
  | inr ((raw, rest), e) ↦
      ap (λ x. cut x.0) (drained-some s raw rest e)
      ∙ cut-drained_below n rest (omega (arith, length-cut s raw rest e))
]

cut-push : (buffer chunk : Text) → cut (push buffer chunk).0 ≡ none
unfolding push
cut-push buffer chunk =
    cut-drained_below (suc (length (buffer ++ chunk))) (buffer ++ chunk) (omega arith)

cut_at-none : (s : Text) (o : Option (ℕ × ℕ)) → cut_at s o ≡ none → o ≡ none
cut_at-none s none h = refl
cut_at-none s (some (index, size)) h = cc

-- After a push no complete event is left in the buffer: the loop ends by its own test.
pub push_exhausts : (buffer chunk : Text) → find_boundary (push buffer chunk).0 ≡ none
push_exhausts buffer chunk =
    cut_at-none _ _ (find_boundary-cut (push buffer chunk).0 ∙ cut-push buffer chunk)

abbrev pub concat : List Text → Text
concat [] = []
concat (chunk ∷ chunks) = chunk ++ concat chunks

push_all-cons :
    (buffer chunk : Text) (chunks : List Text)
    → push_all buffer (chunk ∷ chunks)
      ≡ (let x = push_all (push buffer chunk).0 chunks in (x.0, (push buffer chunk).1 ++ x.1))
unfolding push_all
push_all-cons buffer chunk chunks = refl

push-nil : (buffer : Text) → cut buffer ≡ none → push buffer [] ≡ (buffer, [])
push-nil buffer h = push-drained buffer [] ∙ ap drained (append-nil buffer) ∙ drained-none buffer h

push_all-concat_from :
    (buffer : Text) (chunks : List Text)
    → cut buffer ≡ none
    → push_all buffer chunks ≡ push buffer (concat chunks)
unfolding push_all
push_all-concat_from buffer [] h = sym (push-nil buffer h)
push_all-concat_from buffer (chunk ∷ chunks) h =
    push_all-cons buffer chunk chunks
    ∙ ap (λ (x : Text × List ParsedSseEvent). (x.0, (push buffer chunk).1 ++ x.1))
        (push_all-concat_from (push buffer chunk).0 chunks (cut-push buffer chunk))
    ∙ sym (push-append buffer chunk (concat chunks))

push_all-concat : (chunks : List Text) → push_all [] chunks ≡ push [] (concat chunks)
push_all-concat chunks = push_all-concat_from [] chunks (unfold cut in refl)

-- However the network cuts a stream into chunks, and whatever the decoder gives out at its end, the
-- stream yields the events that one `push` of the whole text to a new parser gives.
pub decode_sse_stream-concat :
    (chunks : List Text) (remaining : Text)
    → decode_sse_stream chunks remaining ≡ (push [] (concat chunks ++ remaining)).1
unfolding decode_sse_stream
decode_sse_stream-concat chunks [] =
    ap (λ (x : Text × List ParsedSseEvent). x.1) (push_all-concat chunks)
    ∙ ap (λ t. (push [] t).1) (sym (append-nil (concat chunks)))
decode_sse_stream-concat chunks (c ∷ remaining) =
    ap (λ (x : Text × List ParsedSseEvent). x.1 ++ (push x.0 (c ∷ remaining)).1)
      (push_all-concat chunks)
    ∙ ap (λ (x : Text × List ParsedSseEvent). x.1)
        (sym (push-append [] (concat chunks) (c ∷ remaining)))
