-- ===== src/Web/Sse/Wire.antt =====
-- `writeSSE` and the heartbeat: the text that frames are on the wire.
pub mod EventSource
pub mod Delivered
use corrupt_cv.Common.{[], ◌∷◌, ◌++◌, List, Text, codes}
use corrupt_cv.Web.Status.{StatusUpdate}
use corrupt_cv.Web.Sse.{Frame, status, keep_alive}
use corrupt_cv.Web.Sse.Json.{marshal_update}

abbrev pub newline : Text
newline = 10 ∷ []

-- `writeSSE`: "event: status\ndata: %s\n\n"
unfoldable pub write_sse : StatusUpdate → Text
write_sse u =
    codes "event: status"
    ++ (newline ++ (codes "data: " ++ (marshal_update u ++ (newline ++ newline))))

-- ": keep-alive\n\n"
unfoldable pub write_heartbeat : Text
write_heartbeat = codes ": keep-alive" ++ (newline ++ newline)

unfoldable pub write_frame : Frame → Text
unfolding write_sse write_heartbeat
write_frame (status u) = write_sse u
write_frame keep_alive = write_heartbeat

-- The body of the response.
unfoldable pub write_frames : List Frame → Text
unfolding write_frame
write_frames [] = []
write_frames (f ∷ fs) = write_frame f ++ write_frames fs
