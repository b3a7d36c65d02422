-- ===== src/Web/Sse/Wire/Delivered.antt =====
-- What a client reads is what the handler sent.
use corrupt_cv.Common.{
  ℕ, ◌<◌, ◌≡◌, ◌≢◌, refl, ap, ◌∙◌, false, List, [], ◌∷◌, ◌++◌, map, some, arith, Text, codes,
  All-append, sym, append-nil, append_assoc, text_eq,
}
use corrupt_cv.Strings.{Lacks, split, join, cut}
use corrupt_cv.Strings.Laws.{split-append_sep, split-ne-nil}
use corrupt_cv.Web.Status.{StatusUpdate}
use corrupt_cv.Web.Sse.{Frame, status, keep_alive}
use corrupt_cv.Web.Sse.Json.{marshal_update}
use corrupt_cv.Web.Sse.Json.Printable.{IsPrintable, marshal_update-IsPrintable}
use corrupt_cv.Web.Sse.Json.RoundTrip.{marshal_update-read}
use corrupt_cv.Web.Sse.Wire.{newline, write_sse, write_heartbeat, write_frame, write_frames}
use corrupt_cv.Web.Sse.Wire.EventSource.{
  unify_ends, Buffer, empty, Event, set_field, read_line, read_lines, read_stream, parse_updates,
  received,
}

-- The updates among the frames.
abbrev pub updates : List Frame → List StatusUpdate
updates [] = []
updates (status u ∷ fs) = u ∷ updates fs
updates (keep_alive ∷ fs) = updates fs

IsPrintable-Lacks : (s : Text) (c : ℕ) → c < 0x20 → IsPrintable s → Lacks c s
IsPrintable-Lacks [] c control _ = tt
IsPrintable-Lacks (d ∷ s) c control (here, later) =
    (omega arith, IsPrintable-Lacks s c control later)

unify_ends-append : (p s : Text) → Lacks 13 p → unify_ends false (p ++ s) ≡ p ++ unify_ends false s
unfolding unify_ends
unify_ends-append [] s _ = refl
unify_ends-append (c ∷ p) s (other, h) = ground (arith, unify_ends-append p s h)

-- A complete line is read before the others.
read_lines-split :
    (b : Buffer) (line s : Text)
    → Lacks 10 line
    → read_lines b (split 10 (line ++ 10 ∷ s))
      ≡ (read_line b line).1 ++ read_lines (read_line b line).0 (split 10 s)
unfolding read_lines
read_lines-split b line s h =
    ap (read_lines b) (split-append_sep 10 line s h) ∙ go (split 10 s) (split-ne-nil 10 s)
  where
    go :
        (ls : List Text)
        → ls ≢ []
        → read_lines b (line ∷ ls) ≡ (read_line b line).1 ++ read_lines (read_line b line).0 ls
    go [] some_line = absurd (some_line refl)
    go (l ∷ ls) some_line = refl

abbrev read_rest : Text → List Event
read_rest s = read_lines empty (split 10 s)

abbrev status_event : StatusUpdate → Event
status_event u = record { kind = codes "status"; payload = marshal_update u }

read-write_sse :
    (u : StatusUpdate) (s : Text) → read_rest (write_sse u ++ s) ≡ status_event u ∷ read_rest s
unfolding write_sse read_line cut set_field text_eq join
read-write_sse u s =
    let kind : Buffer = record { kind = codes "status"; lines = [] } in
    let full : Buffer = record { kind = codes "status"; lines = marshal_update u ∷ [] } in
    let json =
      IsPrintable-Lacks (marshal_update u) 10 (omega arith) (marshal_update-IsPrintable u) in
    ap (λ t. read_rest (codes "event: status" ++ (newline ++ (codes "data: " ++ t))))
      (append_assoc (marshal_update u) (newline ++ newline) s)
    ∙ read_lines-split empty (codes "event: status")
        (codes "data: " ++ (marshal_update u ++ 10 ∷ 10 ∷ s)) (ground arith)
    ∙ read_lines-split kind (codes "data: " ++ marshal_update u) (10 ∷ s)
        (All-append _ (codes "data: ") (marshal_update u) (ground arith) json)
    ∙ read_lines-split full [] s tt

read-write_heartbeat : (s : Text) → read_rest (write_heartbeat ++ s) ≡ read_rest s
unfolding write_heartbeat read_line cut set_field text_eq
read-write_heartbeat s =
    read_lines-split empty (codes ": keep-alive") (10 ∷ s) (ground arith)
    ∙ read_lines-split empty [] s tt

abbrev status_events : List Frame → List Event
status_events fs = map status_event (updates fs)

read_rest-write_frames : (fs : List Frame) → read_rest (write_frames fs) ≡ status_events fs
unfolding write_frames write_frame
read_rest-write_frames [] = unfold split read_lines in refl
read_rest-write_frames (status u ∷ fs) =
    read-write_sse u (write_frames fs) ∙ ap (λ es. status_event u ∷ es) (read_rest-write_frames fs)
read_rest-write_frames (keep_alive ∷ fs) =
    read-write_heartbeat (write_frames fs) ∙ read_rest-write_frames fs

-- No frame holds a carriage return.
write_sse-Lacks : (u : StatusUpdate) → Lacks 13 (write_sse u)
unfolding write_sse
write_sse-Lacks u =
    let json =
      IsPrintable-Lacks (marshal_update u) 13 (omega arith) (marshal_update-IsPrintable u) in
    let last =
      All-append (λ c. c ≢ 13) (marshal_update u) (newline ++ newline) json (ground arith) in
    ground (arith, last)

write_frames-Lacks : (fs : List Frame) → Lacks 13 (write_frames fs)
unfolding write_frames write_frame
write_frames-Lacks [] = tt
write_frames-Lacks (status u ∷ fs) =
    All-append (λ c. c ≢ 13) (write_sse u) _ (write_sse-Lacks u) (write_frames-Lacks fs)
write_frames-Lacks (keep_alive ∷ fs) =
    All-append (λ c. c ≢ 13) write_heartbeat _ (unfold write_heartbeat in ground arith)
      (write_frames-Lacks fs)

unify_ends-write_frames : (fs : List Frame) → unify_ends false (write_frames fs) ≡ write_frames fs
unfolding unify_ends
unify_ends-write_frames fs =
    ap (unify_ends false) (sym (append-nil (write_frames fs)))
    ∙ unify_ends-append (write_frames fs) [] (write_frames-Lacks fs)
    ∙ append-nil (write_frames fs)

parsed : (us : List StatusUpdate) → parse_updates (map status_event us) ≡ map some us
unfolding parse_updates text_eq
parsed [] = refl
parsed (u ∷ us) = (λ i. marshal_update-read u i ∷ parsed us i)

-- A client is handed exactly the updates that the handler wrote, in their order, whatever texts
-- they hold: the frames of any sequence of updates and heartbeats, read by the rules of an
-- `EventSource` and parsed as JSON, are those updates again.
pub received-write_frames : (fs : List Frame) → received (write_frames fs) ≡ map some (updates fs)
unfolding received read_stream
received-write_frames fs =
    ap (λ s. parse_updates (read_rest s)) (unify_ends-write_frames fs)
    ∙ ap parse_updates (read_rest-write_frames fs)
    ∙ parsed (updates fs)
