-- ===== src/Tests/Sse.antt =====
-- The parser of server-sent events on concrete streams.
use ichat.Base.{◌≡◌, none, some, List, [], ◌∷◌, ◌++◌, Text, codes, arith}
use ichat.Api.Sse.{ParsedSseEvent, find_boundary, push, decode_sse_stream, lf}
use ichat.Api.Sse.Boundary.{cut, cut_at, find_boundary-cut}
use ichat.Api.Sse.Chunks.{concat, decode_sse_stream-concat, push_exhausts}
use ichat.Api.Sse.Format.{print_all, IsPrintable}
use ichat.Api.Sse.RoundTrip.{push-print_all}

abbrev delta : ParsedSseEvent
delta = record { id = some (codes "7"); event = none; event_data = codes "{" ++ lf ∷ codes "}" }

-- A boundary that two chunks share.
abbrev chunks : List Text
chunks = (codes "data: {" ++ lf ∷ []) ∷ (lf ∷ codes "data: }") ∷ (lf ∷ lf ∷ []) ∷ []

decode_sse_stream-concat_example :
    decode_sse_stream chunks (codes "data") ≡ (push [] (concat chunks ++ codes "data")).1
decode_sse_stream-concat_example = decode_sse_stream-concat chunks (codes "data")

delta-IsPrintable : IsPrintable delta
delta-IsPrintable = ground arith

push-print_all_example : push [] (print_all (delta ∷ delta ∷ [])) ≡ ([], delta ∷ delta ∷ [])
push-print_all_example =
    push-print_all (delta ∷ delta ∷ []) (delta-IsPrintable, (delta-IsPrintable, tt))

find_boundary-cut_example :
    cut_at (concat chunks) (find_boundary (concat chunks)) ≡ cut (concat chunks)
find_boundary-cut_example = find_boundary-cut (concat chunks)

push_exhausts_example : find_boundary (push (codes "data: {") (lf ∷ lf ∷ codes "data")).0 ≡ none
push_exhausts_example = push_exhausts (codes "data: {") (lf ∷ lf ∷ codes "data")
