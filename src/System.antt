-- ===== src/System.antt =====
-- The gateway as a whole: visitors' requests and the runner's inputs, interleaved, on the same
-- tables. A message, an advisory, a tick and most requests are one step. A submission may also be cut
-- at its calls: it is in flight then, and any other steps may stand between two of its own.
pub mod Tickets
pub mod Created
pub mod Sound
pub mod Steps
pub mod Flights
pub mod Reached
use corrupt_cv.Common.{◌≡◌, ◌≢◌, Bool, List, [], ◌∷◌, ◌++◌, Option, none, All}
use corrupt_cv.Store.Rows.{Job, Db}
use corrupt_cv.Jobs.Runner.{Runner}
use corrupt_cv.Jobs.Counting.{Input, react}
use corrupt_cv.Web.JobCreate.{Form}
use corrupt_cv.Web.JobCreate.Phases.{Phase, checking, creating, Submission, submit, advance}
use corrupt_cv.Web.Router.{submit_job, Request, Outside, Server, Site, visitor_of, serve}

-- A submission between two of its calls.
pub record Flight : Type 0 where
  pub submission : Submission
  pub phase : Phase

-- What the handlers and the runner keep; the tables are those of the site.
pub record State : Type 0 where
  pub site : Site
  pub runner : Runner
  pub in_flight : List Flight

abbrev pub tables : State → Db
tables s = s.site.world.db

abbrev pub with_db : Site → Db → Site
with_db site db = record site { world = record site.world { db = db } }

unfoldable pub after_request : Server → Outside → Request → State → State
unfolding serve
after_request server out req s = record s { site = (serve server out req s.site).1 }

-- The runner works on the tables of the site.
unfoldable pub after_input : Server → Input → State → State
unfolding react
after_input server i s =
    let runner = react server.codec i (record s.runner { db = tables s }) in
    record s { site = with_db s.site runner.db; runner = runner }

abbrev pub arrived : Server → Outside → Request → Form → Flight
arrived server out req form = record {
  submission = submit out.create (visitor_of server out req) form;
  phase = checking;
}

unfoldable pub after_move :
    Server → (before : List Flight) → Flight → (after : List Flight) → State → State
unfolding advance
after_move server before f after s =
    let (phase, world) = advance server.catalog f.submission f.phase s.site.world in
    record s {
      site = record s.site { world = world };
      in_flight = before ++ record f { phase = phase } ∷ after;
    }

-- The id that the database generates for a job is that of no other.
abbrev pub IsNew : Submission → Phase → Db → Type 0
IsNew s (creating profile info) db = All (λ (j : Job). j.id ≢ s.env.fresh) db.jobs
IsNew s _ db = Unit

-- One step of the gateway.
pub data Step (server : Server) : State → State → Type 0 where
  request :
      (out : Outside) (req : Request) (s : State)
      → All (λ (j : Job). j.id ≢ out.create.fresh) (tables s).jobs
      → Step server s (after_request server out req s)
  input : (i : Input) (s : State) → Step server s (after_input server i s)
  arrive :
      (out : Outside) (req : Request) (form : Form) (s : State)
      → req.call ≡ submit_job none form
      → Step server s (record s { in_flight = arrived server out req form ∷ s.in_flight })
  move :
      (before : List Flight) (f : Flight) (after : List Flight) (s : State)
      → s.in_flight ≡ before ++ f ∷ after
      → IsNew f.submission f.phase (tables s)
      → Step server s (after_move server before f after s)

pub data Reach (server : Server) (s : State) : State → Type 0 where
  here : Reach server s s
  next : {t u : State} → Reach server s t → Step server t u → Reach server s u
