-- ===== src/Examples/Wires.antt =====
-- A stream as text.
use corrupt_cv.Common.{◌≡◌, refl, List, [], ◌∷◌, ◌++◌, map, none, some, codes}
use corrupt_cv.Store.Rows.{pending, failed}
use corrupt_cv.Web.Status.{StatusUpdate, plain}
use corrupt_cv.Web.Sse.{Frame, status, keep_alive}
use corrupt_cv.Web.Sse.Json.{marshal_update}
use corrupt_cv.Web.Sse.Wire.{write_sse, write_frames}
use corrupt_cv.Web.Sse.Wire.Delivered.{updates, received-write_frames}
use corrupt_cv.Web.Sse.Wire.EventSource.{received}

-- An error that would end a line and a tag.
abbrev broken : StatusUpdate
broken = record { status = failed; error = some (b'<' ∷ 10 ∷ b'a' ∷ []); download_url = none }

abbrev frames : List Frame
frames = status (plain pending) ∷ keep_alive ∷ status broken ∷ []

broken_text :
    write_sse broken
    ≡ codes "event: status"
      ++ 10 ∷ codes "data: "
      ++ codes "{\"status\":\"failed\",\"error\":\"\\u003c\\na\",\"download_url\":null}"
      ++ 10 ∷ 10 ∷ []
unfolding write_sse marshal_update
broken_text = refl

received-write_frames_example : received (write_frames frames) ≡ map some (updates frames)
received-write_frames_example = received-write_frames frames
