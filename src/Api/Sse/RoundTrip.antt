-- ===== src/Api/Sse/RoundTrip.antt =====
-- The parser of frontend/src/api/sse.ts on events that are written out in the format of server-sent
-- events.
use mathlib.Core.List.{append_assoc, append-nil}
use ichat.Base.{
  ◌≡◌, refl, sym, ap, ◌∙◌, false, Option, none, some, List, [], ◌∷◌, ◌++◌, Text, codes, is_empty,
  All, join, arith,
}
use ichat.Api.Sse.{
  lf, ParsedSseEvent, Fields, split_lines, read_line, read_lines, event_of, parse_event, push_event,
  push,
}
use ichat.Api.Sse.Boundary.{cut}
use ichat.Api.Sse.Chunks.{drained, drained-none, drained-some, push-drained}
use ichat.Api.Sse.Format.{
  unlines, field_line, data_lines_of, lines_of, print_event, print_all, NoBreak, NoBreakOption,
  IsPrintable, IsLine, cut-unlines,
}
use ichat.Api.Sse.Lines.{
  split_lines-join, join-split_lines, split_lines-NoBreak, is_empty-split_lines,
}

-- Reading the lines of an event.
read_id : (f : Fields) (v : Text) → read_line f (codes "id: " ++ v) ≡ record f { id = some v }
unfolding read_line
read_id f v = refl

read_event :
    (f : Fields) (v : Text) → read_line f (codes "event: " ++ v) ≡ record f { event = some v }
unfolding read_line
read_event f v = refl

read_data :
    (f : Fields) (v : Text)
    → read_line f (codes "data: " ++ v) ≡ record f { data_lines = f.data_lines ++ v ∷ [] }
unfolding read_line
read_data f v = refl

read_data_lines :
    (f : Fields) (values : List Text)
    → read_lines f (data_lines_of values) ≡ record f { data_lines = f.data_lines ++ values }
unfolding read_lines
read_data_lines f [] = ap (λ t. record f { data_lines = t }) (sym (append-nil f.data_lines))
read_data_lines f (v ∷ values) =
    ap (λ g. read_lines g (data_lines_of values)) (read_data f v)
    ∙ read_data_lines (record f { data_lines = f.data_lines ++ v ∷ [] }) values
    ∙ ap (λ t. record f { data_lines = t }) (append_assoc f.data_lines (v ∷ []) values)

read_lines-cons :
    (f : Fields) (line : Text) (lines : List Text)
    → read_lines f (line ∷ lines) ≡ read_lines (read_line f line) lines
unfolding read_lines
read_lines-cons f line lines = refl

read_event_field :
    (f : Fields) (event : Option Text) (values : List Text)
    → f.event ≡ none
    → read_lines f (field_line (codes "event: ") event (data_lines_of values))
      ≡ record f { event = event; data_lines = f.data_lines ++ values }
read_event_field f none values h =
    read_data_lines f values
    ∙ ap (λ t. record f { event = t; data_lines = f.data_lines ++ values }) h
read_event_field f (some v) values h =
    read_lines-cons f (codes "event: " ++ v) (data_lines_of values)
    ∙ ap (λ g. read_lines g (data_lines_of values)) (read_event f v)
    ∙ read_data_lines (record f { event = some v }) values

abbrev no_fields : Fields
no_fields = record { id = none; event = none; data_lines = [] }

read_event_lines :
    (e : ParsedSseEvent)
    → read_lines no_fields (lines_of e)
      ≡ record { id = e.id; event = e.event; data_lines = split_lines e.event_data }
read_event_lines e = go e.id
  where
    rest : List Text
    rest = field_line (codes "event: ") e.event (data_lines_of (split_lines e.event_data))

    go :
        (id : Option Text)
        → read_lines no_fields (field_line (codes "id: ") id rest)
          ≡ record { id = id; event = e.event; data_lines = split_lines e.event_data }
    go none = read_event_field no_fields e.event (split_lines e.event_data) refl
    go (some v) =
        read_lines-cons no_fields (codes "id: " ++ v) rest
        ∙ ap (λ g. read_lines g rest) (read_id no_fields v)
        ∙ read_event_field (record no_fields { id = some v }) e.event (split_lines e.event_data)
            refl

-- The lines of a printable event are lines, and there is one at least.
NoBreak-append : (a b : Text) → NoBreak a → NoBreak b → NoBreak (a ++ b)
NoBreak-append [] b h k = k
NoBreak-append (c ∷ a) b (h, hs) k = (h, NoBreak-append a b hs k)

data_lines_of-IsLine : (values : List Text) → All NoBreak values → All IsLine (data_lines_of values)
data_lines_of-IsLine [] h = tt
data_lines_of-IsLine (v ∷ values) (h, hs) =
    ((NoBreak-append (codes "data: ") v (omega arith) h, refl), data_lines_of-IsLine values hs)

is_empty-append : (a b : Text) → is_empty a ≡ false → is_empty (a ++ b) ≡ false
is_empty-append [] b h = cc
is_empty-append (c ∷ a) b h = refl

field_line-IsLine :
    (name : Text) (value : Option Text) (lines : List Text)
    → IsLine name
    → NoBreakOption value
    → All IsLine lines
    → All IsLine (field_line name value lines)
field_line-IsLine name none lines h k ls = ls
field_line-IsLine name (some v) lines (h, e) k ls =
    ((NoBreak-append name v h k, is_empty-append name v e), ls)

lines_of-IsLine : (e : ParsedSseEvent) → IsPrintable e → All IsLine (lines_of e)
lines_of-IsLine e h =
    field_line-IsLine (codes "id: ") e.id _ (omega arith, refl) h.0
      (field_line-IsLine (codes "event: ") e.event _ (omega arith, refl) h.1
        (data_lines_of-IsLine (split_lines e.event_data) (split_lines-NoBreak e.event_data h.2)))

is_empty-data_lines_of :
    (values : List Text) → is_empty values ≡ false → is_empty (data_lines_of values) ≡ false
is_empty-data_lines_of [] h = cc
is_empty-data_lines_of (v ∷ values) h = refl

is_empty-field_line :
    (name : Text) (value : Option Text) (lines : List Text)
    → is_empty lines ≡ false
    → is_empty (field_line name value lines) ≡ false
is_empty-field_line name none lines h = h
is_empty-field_line name (some v) lines h = refl

is_empty-lines_of : (e : ParsedSseEvent) → is_empty (lines_of e) ≡ false
is_empty-lines_of e = is_empty-field_line (codes "id: ") e.id _ (
    is_empty-field_line (codes "event: ") e.event _
      (is_empty-data_lines_of _ (is_empty-split_lines e.event_data)))

cut-event :
    (lines : List Text) (rest : Text)
    → is_empty lines ≡ false
    → All IsLine lines
    → cut (unlines lines ++ lf ∷ rest) ≡ some (join (lf ∷ []) lines, rest)
cut-event [] rest h k = cc
cut-event (line ∷ lines) rest h k = cut-unlines line lines rest k

IsLine-NoBreak : (lines : List Text) → All IsLine lines → All NoBreak lines
IsLine-NoBreak [] h = tt
IsLine-NoBreak (line ∷ lines) ((h, _), hs) = (h, IsLine-NoBreak lines hs)

split-event :
    (lines : List Text)
    → is_empty lines ≡ false
    → All IsLine lines
    → split_lines (join (lf ∷ []) lines) ≡ lines
split-event [] h k = cc
split-event (line ∷ lines) h k = split_lines-join line lines (IsLine-NoBreak (line ∷ lines) k)

event_of-fields :
    (id event : Option Text) (values : List Text)
    → is_empty values ≡ false
    → event_of (record { id = id; event = event; data_lines = values })
      ≡ some (record { id = id; event = event; event_data = join (lf ∷ []) values })
unfolding event_of
event_of-fields id event values h = rw h refl

parse_event-fields :
    (raw : Text) → parse_event raw ≡ event_of (read_lines no_fields (split_lines raw))
unfolding parse_event
parse_event-fields raw = refl

-- The text of an event, without its empty line, is read back as the event.
parse_event-lines :
    (e : ParsedSseEvent) → IsPrintable e → parse_event (join (lf ∷ []) (lines_of e)) ≡ some e
parse_event-lines e h =
    parse_event-fields (join (lf ∷ []) (lines_of e))
    ∙ ap (λ ls. event_of (read_lines no_fields ls))
        (split-event (lines_of e) (is_empty-lines_of e) (lines_of-IsLine e h))
    ∙ ap event_of (read_event_lines e)
    ∙ event_of-fields e.id e.event (split_lines e.event_data) (is_empty-split_lines e.event_data)
    ∙ ap (λ t. some (record e { event_data = t })) (join-split_lines e.event_data h.2)

drained-event :
    (e : ParsedSseEvent) (rest : Text)
    → IsPrintable e
    → drained (print_event e ++ rest) ≡ ((drained rest).0, e ∷ (drained rest).1)
drained-event e rest h =
    ap drained (append_assoc (unlines (lines_of e)) (lf ∷ []) rest)
    ∙ drained-some _ _ rest
        (cut-event (lines_of e) rest (is_empty-lines_of e) (lines_of-IsLine e h))
    ∙ ap (λ o. ((drained rest).0, push_event o (drained rest).1)) (parse_event-lines e h)

drained-events : (es : List ParsedSseEvent) → All IsPrintable es → drained (print_all es) ≡ ([], es)
drained-events [] h = drained-none [] (unfold cut in refl)
drained-events (e ∷ es) (h, hs) =
    drained-event e (print_all es) h
    ∙ ap (λ (x : Text × List ParsedSseEvent). (x.0, e ∷ x.1)) (drained-events es hs)

-- Any sequence of printable events, written out in the format and pushed into an empty parser,
-- comes back event for event, and the buffer is empty again.
pub push-print_all :
    (es : List ParsedSseEvent) → All IsPrintable es → push [] (print_all es) ≡ ([], es)
push-print_all es h = push-drained [] (print_all es) ∙ drained-events es h
