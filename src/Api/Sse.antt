-- ===== src/Api/Sse.antt =====
-- `SseParser` and `parseEvent` of frontend/src/api/sse.ts, and `decodeSseStream`
-- without its reader, whose chunks are an argument. The parser's state is its buffer. The
-- `while` loop of `push` takes fuel: `push` gives it one round more than the buffer has units.
pub mod Boundary
pub mod Cut
pub mod Chunks
pub mod Format
pub mod Lines
pub mod RoundTrip
use ichat.Base.{
  ℕ, zero, suc, ◌+◌, Bool, true, false, ◌||◌, Option, none, some, List, [], ◌∷◌, ◌++◌, Text, codes,
  take, drop, length, is_empty, text_eq, starts_with, index_of, join, ltb, ◌==◌, ◌&&◌,
  if◌then◌else◌, or_else,
}

pub record ParsedSseEvent : Type 0 where
  pub id : Option Text
  pub event : Option Text
  pub event_data : Text

abbrev pub lf : ℕ
lf = 0xa

abbrev pub cr : ℕ
cr = 0xd

abbrev pub lf_boundary : Text
lf_boundary = lf ∷ lf ∷ []

abbrev pub crlf_boundary : Text
crlf_boundary = cr ∷ lf ∷ cr ∷ lf ∷ []

-- The choice that `findBoundary` makes between the two indices.
abbrev pub choose_boundary : Option ℕ → Option ℕ → Option (ℕ × ℕ)
choose_boundary none none = none
choose_boundary none (some crlf) = some (crlf, 4)
choose_boundary (some i) none = some (i, 2)
choose_boundary (some i) (some crlf) = if ltb i crlf then some (i, 2) else some (crlf, 4)

-- `findBoundary`: index and length, `none` for -1.
unfoldable pub find_boundary : Text → Option (ℕ × ℕ)
unfolding index_of
find_boundary buffer = choose_boundary (index_of lf_boundary buffer) (index_of crlf_boundary buffer)

abbrev pub cons_char : ℕ → List Text → List Text
cons_char c [] = (c ∷ []) ∷ []
cons_char c (line ∷ lines) = (c ∷ line) ∷ lines

-- `rawEvent.split(/\r?\n/)`. Before a line feed, a carriage return belongs to the separator, and
-- the line that the line feed closes is empty there.
unfoldable pub split_lines : Text → List Text
unfolding starts_with
split_lines [] = [] ∷ []
split_lines (c ∷ s) =
    let rest = split_lines s in
    if c == lf
    then [] ∷ rest
    else if c == cr && starts_with (lf ∷ []) s
    then rest
    else cons_char c rest

-- The variables of the loop of `parseEvent`.
pub record Fields : Type 0 where
  pub id : Option Text
  pub event : Option Text
  pub data_lines : List Text

-- `rawValue.startsWith(" ") ? rawValue.slice(1) : rawValue`.
unfoldable pub strip_space : Text → Text
strip_space [] = []
strip_space (c ∷ s) = if c == 0x20 then s else c ∷ s

-- `line.slice(0, separator)` and `line.slice(separator + 1)`, or the whole line and "".
unfoldable pub split_field : Text → Text × Text
unfolding index_of
split_field line = elim (index_of (codes ":") line) [
  | none ↦ (line, [])
  | some separator ↦ (take separator line, drop (suc separator) line)
]

-- One round of the loop of `parseEvent`.
unfoldable pub read_line : Fields → Text → Fields
unfolding strip_space split_field text_eq
read_line f line =
    let (field, raw_value) = split_field line in
    let value = strip_space raw_value in
    if is_empty line || starts_with (codes ":") line then f else record f {
      id = if text_eq field (codes "id") then some value else f.id;
      event = if text_eq field (codes "event") then some value else f.event;
      data_lines =
          if text_eq field (codes "data") then f.data_lines ++ value ∷ [] else f.data_lines;
    }

unfoldable pub read_lines : Fields → List Text → Fields
unfolding read_line
read_lines f [] = f
read_lines f (line ∷ lines) = read_lines (read_line f line) lines

-- What `parseEvent` returns once the lines are read.
unfoldable pub event_of : Fields → Option ParsedSseEvent
unfolding join
event_of f =
    if is_empty f.data_lines
    then none
    else some (record { id = f.id; event = f.event; event_data = join (lf ∷ []) f.data_lines })

-- `parseEvent`.
unfoldable pub parse_event : Text → Option ParsedSseEvent
unfolding split_lines read_lines event_of
parse_event raw =
    event_of (read_lines (record { id = none; event = none; data_lines = [] }) (split_lines raw))

-- `if (event) events.push(event)`, in front of the events of the later rounds.
abbrev pub push_event : Option ParsedSseEvent → List ParsedSseEvent → List ParsedSseEvent
push_event none events = events
push_event (some event) events = event ∷ events

-- The loop of `push`: the buffer that remains, and the events.
unfoldable pub drain : ℕ → Text → Text × List ParsedSseEvent
unfolding find_boundary parse_event
drain zero buffer = (buffer, [])
drain (suc fuel) buffer = elim (find_boundary buffer) [
  | none ↦ (buffer, [])
  | some (index, size) ↦
      let (rest, events) = drain fuel (drop (index + size) buffer) in
      (rest, push_event (parse_event (take index buffer)) events)
]

-- `push`, on the buffer and a chunk.
unfoldable pub push : Text → Text → Text × List ParsedSseEvent
unfolding drain
push buffer chunk = drain (suc (length (buffer ++ chunk))) (buffer ++ chunk)

-- The loop of `decodeSseStream` over the texts that `decoder.decode` gives for the chunks.
unfoldable pub push_all : Text → List Text → Text × List ParsedSseEvent
push_all buffer [] = (buffer, [])
push_all buffer (chunk ∷ chunks) =
    let (rest, events) = push buffer chunk in
    let (rest', later) = push_all rest chunks in (rest', events ++ later)

-- `decodeSseStream`: all events that it yields; `remaining` is what the last `decode` gives.
unfoldable pub decode_sse_stream : List Text → Text → List ParsedSseEvent
unfolding push_all
decode_sse_stream chunks remaining =
    let (rest, events) = push_all [] chunks in
    if is_empty remaining then events else events ++ (push rest remaining).1
