-- ===== src/System/Reached.antt =====
-- Every state that the gateway reaches.
use corrupt_cv.Common.{
  ℕ, ◌+◌, ◌++◌, arith, ◌≡◌, ◌≢◌, ◌⊎◌, inl, inr, refl, sym, ap, ◌||◌, List, [], ◌∷◌, Text, is_empty,
  Option, none, some, Bool-cases, All, All-middle,
}
use mathlib.Core.Path.{subst}
use corrupt_cv.Strings.{trim_space}
use corrupt_cv.Store.Rows.{Job, Db}
use corrupt_cv.Store.Query.{refused, Link, Result, ok, err, upsert_profile}
use corrupt_cv.Store.Consistency.{AllConsistent}
use corrupt_cv.Store.Write.{Write, save_profile, apply}
use corrupt_cv.Catalog.Load.{Catalog}
use corrupt_cv.Jobs.Counting.{react}
use corrupt_cv.Jobs.Writes.{Wrote, Wrote-react, link_of, time_of}
use corrupt_cv.Web.JobCreate.{World, Form, handle_job_create}
use corrupt_cv.Web.JobCreate.Handoff.{handle_job_create-KeyFirst}
use corrupt_cv.Web.JobCreate.Phases.{advance}
use corrupt_cv.Web.JobAccess.{Answer, visitor_job}
use corrupt_cv.Web.Limits.{limit_request_body}
use corrupt_cv.Web.Response.{Response}
use corrupt_cv.Web.ProfileForm.{
  save_document, Info, ProfileFields, info_of, answer_saved, save_encoded, handle_profile_save,
}
use corrupt_cv.Web.Router.{
  ids_of, Call, index, save_profile, submit_job, job_page, job_events, job_download, job_api,
  model_search, Outside, Server, Site, Body, limited, saving, creating, stream_of, open_stream,
  handle, visitor_of, serve,
}
use corrupt_cv.System.{
  Flight, State, tables, IsNew, after_request, after_input, after_move, Step, request, input,
  arrive, move, Reach, here, next,
}
use corrupt_cv.System.Tickets.{Keeps, Keeps-apply}
use corrupt_cv.System.Created.{Has, Has-append, Grown, consistent_step}
use corrupt_cv.System.Sound.{IsSound}
use corrupt_cv.System.Steps.{IsSound-quiet, handle_job_create-IsSound}
use corrupt_cv.System.Flights.{waits, waiting, IsPrepared, IsPrepared-Grown, GoesOn-advance}

-- One write that creates no job, or none.
abbrev Kept : Db → Db → Type 0
Kept before after = Keeps before after × (AllConsistent before → AllConsistent after)

Kept-refl : (db : Db) → Kept db db
Kept-refl db = ((refl, λ i v h. h), λ h. h)

-- The tables after the saving of a profile.
module _ (encode : Info → Option Text) (jsonb : Text → Option Text) (link : Link) (now : ℕ)
    (fresh visitor : Text) (db : Db) (saved : ℕ) where
  abbrev stored : (career json : Text) → Result (Unit {0}) × Db
  stored career json = upsert_profile link now fresh visitor career json db

  Kept-answer_saved :
      (r : Result (Unit {0}) × Db)
      → Kept db r.1
      → Kept db (answer_saved encode jsonb link now fresh visitor r saved).1
  Kept-answer_saved (ok u, after) h = h
  Kept-answer_saved (err e, after) h = h

  Kept-save_encoded :
      (career : Text) (json : Option Text)
      → Kept db (save_encoded encode jsonb link now fresh visitor career json db saved).1
  unfolding apply
  Kept-save_encoded career none = Kept-refl db
  Kept-save_encoded career (some json) = document (jsonb json)
    where
      upserted :
          (l : Link) (t : Text)
          → Kept db
              (answer_saved encode jsonb link now fresh visitor
                (upsert_profile l now fresh visitor career t db)
                saved).1
      upserted l t =
          let w = Write.save_profile fresh visitor career t in
          Kept-answer_saved (upsert_profile l now fresh visitor career t db)
            (Keeps-apply l now w db (λ i. tt), consistent_step l now w db)

      document :
          (o : Option Text)
          → Kept db (save_document encode jsonb link now fresh visitor career json o db saved).1
      document none = upserted refused json
      document (some t) = upserted link t

  Kept-handle_profile_save :
      (f : ProfileFields)
      → Kept db (handle_profile_save encode jsonb link now fresh visitor f db saved).1
  unfolding handle_profile_save
  Kept-handle_profile_save f = elim (Bool-cases (is_empty (trim_space f.career_text))) [
    | inl e ↦ rw e (Kept-refl db)
    | inr e ↦
        rw e (elim (Bool-cases (is_empty (trim_space f.name) || is_empty (trim_space f.email))) [
          | inl e ↦ rw e (Kept-refl db)
          | inr e ↦ rw e (Kept-save_encoded (trim_space f.career_text) (encode (info_of f)))
        ])
  ]

module _ (server : Server) (out : Outside) (visitor : Text) (waiting : Text → ℕ) (site : Site)
    (s : IsSound server.catalog waiting site.world)
    (new : All (λ (j : Job). j.id ≢ out.create.fresh) site.world.db.jobs) where
  -- Sound tables, with the profiles that there were.
  abbrev Stays : Body × Site → Type 0
  Stays (body, after) = IsSound server.catalog waiting after.world × Grown site.world after.world

  same : IsSound server.catalog waiting site.world × Grown site.world site.world
  same = (s, ((λ i v h. h), λ e h. h))

  Stays-limited :
      (refusal : Option Response) (handled : Body × Site)
      → Stays handled
      → Stays (limited server out refusal handled site)
  Stays-limited none handled h = h
  Stays-limited (some refusal) handled h = same

  Stays-open_stream : (id : Text) → Stays (open_stream server out visitor id site)
  Stays-open_stream id = go (visitor_job (ids_of server) out.get_link visitor id site.world.db)
    where
      go : (found : Answer ⊎ Job) → Stays (stream_of server out site found)
      go (inl refusal) = same
      go (inr j) = same

  created :
      (form : Form)
      → let after = (handle_job_create out.create server.catalog visitor form site.world).1 in
        IsSound server.catalog waiting after × Grown site.world after
  created form =
      let (sound, grows) =
        handle_job_create-IsSound out.create server.catalog visitor form waiting site.world s new in
      let (more, spelt, _) =
        handle_job_create-KeyFirst out.create server.catalog visitor form site.world in
      (sound, (grows, λ e h. subst (Has e) (sym spelt) (Has-append e site.world.effects more h)))

  Stays-handle : (call : Call) → Stays (handle server out visitor call site)
  Stays-handle (index error notice) = same
  Stays-handle (save_profile error fields) =
      let (keeps, consistent) =
        Kept-handle_profile_save server.encode_info server.codec.jsonb out.save_link out.create.now
          out.create.fresh visitor site.world.db site.profiles_saved fields in
      Stays-limited (limit_request_body error) (saving server out visitor fields site) (
        IsSound-quiet server.catalog waiting waiting site.world _ keeps consistent refl
            (λ id. omega arith) s,
        (keeps.1, λ e h. h),
      )
  Stays-handle (submit_job error form) =
      Stays-limited (limit_request_body error) (creating server out visitor form site)
        (created form)
  Stays-handle (job_page id) = same
  Stays-handle (job_events id) = Stays-open_stream id
  Stays-handle (job_download id) = same
  Stays-handle (job_api id) = same
  Stays-handle (model_search q) = same

-- The runner's inputs.
Kept-Wrote :
    (link : Link) (now : ℕ) (before after : Db) → Wrote link now before after → Kept before after
Kept-Wrote link now before after (inl same) = subst (Kept before) (sym same) (Kept-refl before)
Kept-Wrote link now before after (inr (w, wrote, plain)) =
    subst (Kept before) (sym wrote)
      (Keeps-apply link now w before plain, consistent_step link now w before)

-- The flights, each with what it was checked for.
abbrev pub ArePrepared : Catalog → World → List Flight → Type 0
ArePrepared cat w = All (λ (f : Flight). IsPrepared cat w f.submission f.phase)

pub record IsSoundState (server : Server) (s : State) : Type 0 where
  pub sound : IsSound server.catalog (waiting s.in_flight) s.site.world
  pub prepared : ArePrepared server.catalog s.site.world s.in_flight

ArePrepared-Grown :
    (cat : Catalog) (before after : World) (fs : List Flight)
    → Grown before after
    → ArePrepared cat before fs
    → ArePrepared cat after fs
ArePrepared-Grown cat before after [] grows _ = tt
ArePrepared-Grown cat before after (f ∷ fs) grows (first, later) = (
  IsPrepared-Grown cat before after f.submission f.phase grows first,
  ArePrepared-Grown cat before after fs grows later,
)

waiting-middle :
    (before : List Flight) (f : Flight) (after : List Flight) (id : Text)
    → waiting (before ++ f ∷ after) id ≡ waits id f.phase + waiting (before ++ after) id
waiting-middle [] f after id = refl
waiting-middle (g ∷ before) f after id = omega (arith, waiting-middle before f after id)

module _ (server : Server) where
  -- A flight goes on.
  move-IsSound :
      (before : List Flight) (f : Flight) (after : List Flight) (s : State)
      → s.in_flight ≡ before ++ f ∷ after
      → IsNew f.submission f.phase (tables s)
      → IsSoundState server s
      → IsSoundState server (after_move server before f after s)
  unfolding after_move
  move-IsSound before f after s split new h =
      let cat = server.catalog in
      let others = waiting (before ++ after) in
      let ready_all = subst (ArePrepared cat s.site.world) split h.prepared in
      let Ready = λ (w : World) (g : Flight). IsPrepared cat w g.submission g.phase in
      let found = (All-middle (Ready s.site.world) before f after ready_all).0 in
      let alone =
        IsSound-quiet cat (waiting s.in_flight) (λ id. waits id f.phase + others id) s.site.world
          s.site.world (refl, λ i v h. h) (λ h. h) refl
          (λ id. omega (arith, waiting-middle before f after id, ap (λ fs. waiting fs id) split))
          h.sound in
      let (sound, ready, grows) =
        GoesOn-advance cat f.submission others s.site.world f.phase alone found new in
      let (phase, world) = advance cat f.submission f.phase s.site.world in
      let f' : Flight = record f { phase = phase } in
      record {
        sound =
            IsSound-quiet cat (λ id. waits id phase + others id) (waiting (before ++ f' ∷ after))
              world world (refl, λ i v h. h) (λ h. h) refl
              (λ id. omega (arith, waiting-middle before f' after id)) sound;
        prepared =
            (All-middle (Ready world) before f after
                (ArePrepared-Grown cat s.site.world world (before ++ f ∷ after) grows ready_all)).1
              f' ready;
      }

  Step-IsSoundState :
      {s t : State} → Step server s t → IsSoundState server s → IsSoundState server t
  unfolding after_request after_input serve
  Step-IsSoundState (request out req s new) h =
      let (sound, grows) =
        Stays-handle server out (visitor_of server out req) (waiting s.in_flight) s.site h.sound new
          req.call in
      record {
        sound = sound;
        prepared =
            ArePrepared-Grown server.catalog s.site.world
              (after_request server out req s).site.world s.in_flight grows h.prepared;
      }
  Step-IsSoundState (input i s) h =
      let r = record s.runner { db = tables s } in
      let (keeps, consistent) =
        Kept-Wrote (link_of i) (time_of i) (tables s) (react server.codec i r).db
          (Wrote-react server.codec i r) in
      record {
        sound =
            IsSound-quiet server.catalog (waiting s.in_flight) (waiting s.in_flight) s.site.world _
              keeps consistent refl (λ id. omega arith) h.sound;
        prepared =
            ArePrepared-Grown server.catalog s.site.world (after_input server i s).site.world
              s.in_flight (keeps.1, λ e h. h) h.prepared;
      }
  Step-IsSoundState (arrive out req form s call) h = record {
    sound =
        IsSound-quiet server.catalog (waiting s.in_flight) _ s.site.world s.site.world
          (refl, λ i v h. h) (λ h. h) refl (λ id. omega arith) h.sound;
    prepared = (tt, h.prepared);
  }
  Step-IsSoundState (move before f after s split new) h = move-IsSound before f after s split new h

-- However requests, submissions that are interrupted at their calls, and the runner's inputs are
-- interleaved, and whatever fails in them, from a sound state (such as empty tables and an empty
-- stream) only sound states are reached, if the database gives a new job an id that no job has. In
-- a sound state no two jobs have one id; every job has a description within its limit and a model
-- of the catalog, and belongs to a stored profile of its visitor; its columns fit its status; what
-- the handlers published is `requested` events, at most one for each job of the table and none for
-- others; a job whose handler is still to publish its event has none yet; and a submission with a
-- key that is about to publish has its key stored.
pub Reach-IsSoundState :
    (server : Server) (s t : State)
    → Reach server s t
    → IsSoundState server s
    → IsSoundState server t
Reach-IsSoundState server s t here h = h
Reach-IsSoundState server s t (next r step) h =
    Step-IsSoundState server step (Reach-IsSoundState server s _ r h)
