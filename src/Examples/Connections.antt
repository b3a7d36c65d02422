-- ===== src/Examples/Connections.antt =====
-- A stream that a client leaves, and two that are open at once.
use corrupt_cv.Common.{◌≡◌, refl, Bool, true, false, List, [], ◌∷◌, codes}
use corrupt_cv.Web.Sse.{Signal, heartbeat, message, done}
use corrupt_cv.Jetstream.Provision.{Request, delete_consumer}
use corrupt_cv.Web.Sse.Connection.{World, Effect, count_stream, connect, serve_events}
use corrupt_cv.Web.Sse.Connection.Active.{
  Streams, observe, Reach, here, next, come, go_on, adjust, open_streams, observe-open_streams,
}
use corrupt_cv.Examples.Data.{codec, new_job, structured_msg}

-- The server answers all but the deletion; its consumer is named "c".
abbrev is_answered : Request → Bool
is_answered (delete_consumer stream n) = false
is_answered _ = true

abbrev world : World
world = record { answers = is_answered; name = codes "c"; starts = true }

abbrev arriving : List Signal
arriving = message structured_msg true ∷ heartbeat true ∷ done ∷ []

-- The first write fails: all that is left is to leave the gauge.
abbrev trace : List Effect
trace = serve_events codec world new_job false []

abbrev rest : List Effect
rest = Effect.disconnect ∷ []

abbrev both : Streams
both = record {
  sse_connections = 1;
  connections = record { behind = 0; ahead = trace } ∷ record { behind = 2; ahead = rest } ∷ [];
}

both_reached : Reach (record { sse_connections = 0; connections = [] }) both
unfolding serve_events adjust
both_reached =
    next
      (next
        (next (next here (come codec world new_job false [] _))
          (go_on [] 0 count_stream (connect ∷ rest) [] _ refl))
        (go_on [] 1 connect rest [] _ refl))
      (come codec world new_job false [] _)

observe-open_streams_example : observe both ≡ open_streams both.connections
observe-open_streams_example = observe-open_streams both both_reached
