-- ===== src/Api/Sse/Format.antt =====
-- The format of server-sent events, as a reference for the parser of frontend/src/api/sse.ts: how an
-- event is written out, which events it can carry, and where a written event is cut.
use mathlib.Core.List.{append_assoc, append-nil}
use ichat.Base.{
  ℕ, ◌≡◌, ◌≢◌, refl, ap, ◌∙◌, false, Option, none, some, List, [], ◌∷◌, ◌++◌, Text, codes, is_empty,
  starts_with, All, join, arith,
}
use ichat.Api.Sse.{lf, cr, ParsedSseEvent, split_lines}
use ichat.Api.Sse.Boundary.{shift, cut, cut-lf, cut-next}

-- A line as the format has it: the text and a line feed.
abbrev pub unlines : List Text → Text
unlines [] = []
unlines (line ∷ lines) = line ++ lf ∷ unlines lines

abbrev pub field_line : Text → Option Text → List Text → List Text
field_line name none lines = lines
field_line name (some value) lines = (name ++ value) ∷ lines

abbrev pub data_lines_of : List Text → List Text
data_lines_of [] = []
data_lines_of (value ∷ values) = (codes "data: " ++ value) ∷ data_lines_of values

-- The lines of an event: its id, its name, and a line for each line of its data.
abbrev pub lines_of : ParsedSseEvent → List Text
lines_of e =
    field_line (codes "id: ") e.id
      (field_line (codes "event: ") e.event (data_lines_of (split_lines e.event_data)))

-- An event is closed by an empty line.
abbrev pub print_event : ParsedSseEvent → Text
print_event e = unlines (lines_of e) ++ lf ∷ []

abbrev pub print_all : List ParsedSseEvent → Text
print_all [] = []
print_all (e ∷ es) = print_event e ++ print_all es

abbrev pub NoBreak : Text → Type 0
NoBreak = All (λ c. (c ≢ lf) × (c ≢ cr))

abbrev pub NoReturn : Text → Type 0
NoReturn = All (λ c. c ≢ cr)

abbrev pub NoBreakOption : Option Text → Type 0
NoBreakOption none = Unit {0}
NoBreakOption (some s) = NoBreak s

-- An event that the format can carry: no line break in its id and its name, no carriage return in
-- its data.
abbrev pub IsPrintable : ParsedSseEvent → Type 0
IsPrintable e = NoBreakOption e.id × NoBreakOption e.event × NoReturn e.event_data

abbrev pub IsLine : Text → Type 0
IsLine line = NoBreak line × (is_empty line ≡ false)

cut-char : (c : ℕ) (s : Text) → c ≢ lf → c ≢ cr → cut (c ∷ s) ≡ shift c (cut s)
cut-char c s h k =
    cut-next c s (unfold starts_with in ground arith) (unfold starts_with in ground arith)

abbrev shift_all : Text → Option (Text × Text) → Option (Text × Text)
shift_all line none = none
shift_all line (some (raw, rest)) = some (line ++ raw, rest)

shift_all-cons :
    (c : ℕ) (line : Text) (o : Option (Text × Text))
    → shift c (shift_all line o) ≡ shift_all (c ∷ line) o
shift_all-cons c line none = refl
shift_all-cons c line (some (raw, rest)) = refl

shift_all-nil : (o : Option (Text × Text)) → o ≡ shift_all [] o
shift_all-nil none = refl
shift_all-nil (some (raw, rest)) = refl

cut-line : (line s : Text) → NoBreak line → cut (line ++ s) ≡ shift_all line (cut s)
cut-line [] s h = shift_all-nil (cut s)
cut-line (c ∷ line) s ((h, k), hs) =
    cut-char c (line ++ s) h k ∙ ap (shift c) (cut-line line s hs) ∙ shift_all-cons c line (cut s)

-- A line feed that no line feed follows is no boundary.
cut-feed : (c : ℕ) (s : Text) → c ≢ lf → cut (lf ∷ c ∷ s) ≡ shift lf (cut (c ∷ s))
cut-feed c s h =
    cut-next lf (c ∷ s) (unfold starts_with in ground arith) (unfold starts_with in ground arith)

pub join-cons :
    (line next : Text) (lines : List Text)
    → join (lf ∷ []) (line ∷ next ∷ lines) ≡ line ++ lf ∷ join (lf ∷ []) (next ∷ lines)
unfolding join
join-cons line next lines = refl

-- The lines of an event up to its empty line are the first cut.
pub cut-unlines :
    (line : Text) (lines : List Text) (rest : Text)
    → All IsLine (line ∷ lines)
    → cut (unlines (line ∷ lines) ++ lf ∷ rest) ≡ some (join (lf ∷ []) (line ∷ lines), rest)
cut-unlines line [] rest ((h, _), _) =
    ap cut (append_assoc line (lf ∷ []) (lf ∷ rest))
    ∙ cut-line line (lf ∷ lf ∷ rest) h
    ∙ ap (shift_all line) (cut-lf lf (lf ∷ rest) (unfold starts_with in refl))
    ∙ ap (λ (t : Text). some (t, rest)) (append-nil line)
    ∙ unfold join in refl
cut-unlines line ([] ∷ lines) rest (_, ((_, h), _)) = absurd (cc)
cut-unlines line ((c ∷ next) ∷ lines) rest ((h, _), t) =
    let after = unlines ((c ∷ next) ∷ lines) ++ lf ∷ rest in
    ap cut (append_assoc line (lf ∷ unlines ((c ∷ next) ∷ lines)) (lf ∷ rest))
    ∙ cut-line line (lf ∷ after) h
    ∙ ap (shift_all line) (cut-feed c _ t.0.0.0.0)
    ∙ ap (λ o. shift_all line (shift lf o)) (cut-unlines (c ∷ next) lines rest t)
    ∙ unfold join in refl
