-- ===== src/Examples/Interleaved.antt =====
-- Two submissions and a message, interleaved.
use corrupt_cv.Common.{refl, [], ◌∷◌, arith, codes, text_eq}
use corrupt_cv.Strings.{byte_length}
use corrupt_cv.Store.Query.{up}
use corrupt_cv.Jobs.Counting.{delivery}
use corrupt_cv.Web.Limits.{limit_request_body}
use corrupt_cv.Web.JobCreate.{handle_job_create}
use corrupt_cv.Web.JobCreate.Phases.{checking, advance}
use corrupt_cv.Web.Router.{Outside}
use corrupt_cv.System.{
  Flight, State, arrived, after_request, after_input, after_move, request, input, arrive, move,
  Reach, here, next,
}
use corrupt_cv.System.Reached.{IsSoundState, Reach-IsSoundState}
use corrupt_cv.Examples.Data.{rendered_msg, runner_with, new_job}
use corrupt_cv.Examples.Requests.{server, outside, post}
use corrupt_cv.Examples.Submissions.{env, form, world}

-- The visitor is "v", whose profile is stored, and no job is there yet.
abbrev out : Outside
out = record outside { fresh_visitor = codes "v"; create = record env { fresh = codes "j" } }

abbrev start : State
start = record {
  site = record {
    world = world;
    profiles_saved = 0;
    downloads = record { count = 0; sizes = [] };
    sse_streams = 0;
  };
  runner = record (runner_with new_job) { db = world.db };
  in_flight = [];
}

start-IsSoundState : IsSoundState server start
start-IsSoundState = record {
  sound = record {
    distinct = λ id. omega arith;
    admitted = tt;
    consistent = tt;
    once = λ id. omega arith;
    requested = tt;
  };
  prepared = tt;
}

-- One submission is checked; then another of the same visitor runs as a whole.
abbrev one : State
one = record start { in_flight = arrived server out post form ∷ [] }

abbrev two : State
two = after_move server [] (arrived server out post form) [] one

abbrev three : State
three = after_request server (record out { create = record env { fresh = codes "k" } }) post two

abbrev checked : Flight
unfolding after_move
checked = record (arrived server out post form) {
  phase =
      (advance server.catalog (arrived server out post form).submission checking one.site.world).0;
}

abbrev four : State
four = after_move server [] checked [] three

abbrev five : State
five = after_input server (delivery up 10 rendered_msg) four

run : Reach server start five
unfolding after_move after_request after_input text_eq byte_length handle_job_create
    limit_request_body
run =
    next
      (next
        (next
          (next (next here (arrive out post form start refl))
            (move [] (arrived server out post form) [] one refl tt))
          (request (record out { create = record env { fresh = codes "k" } }) post two tt))
        (move [] checked [] three refl (ground arith, tt)))
      (input (delivery up 10 rendered_msg) four)

Reach-IsSoundState_example : IsSoundState server five
Reach-IsSoundState_example = Reach-IsSoundState server start five run start-IsSoundState
