-- ===== src/System/Flights.antt =====
-- What a submission in flight does to tables and stream.
use corrupt_cv.Common.{
  ◌⊎◌, ℕ, ◌+◌, ◌≤◌, ◌≡◌, ◌≢◌, inl, inr, refl, Bool, true, false, List, [], ◌∷◌, ◌++◌, map, Text,
  Bytes, is_empty, Bool-cases, All, arith,
}
use corrupt_cv.Events.{JobRequested}
use corrupt_cv.Store.Rows.{Profile, Job, Db}
use corrupt_cv.Store.Query.{Link, up, refused, lost, create_job}
use corrupt_cv.Store.Write.{Write, fail, apply}
use corrupt_cv.Catalog.Load.{Catalog}
use corrupt_cv.Jetstream.Publish.{OutMsg, publish_job_requested}
use corrupt_cv.Web.ApiKeys.{put_command, SetCommand, put}
use corrupt_cv.Web.JobCreate.{set_key, publish, World, requested_event}
use corrupt_cv.Web.Response.{internal_error}
use corrupt_cv.Web.JobCreate.Phases.{
  Phase, checking, creating, handing, publishing, failing, finished, Submission, created, handed,
  after_sending, advance,
}
use corrupt_cv.Web.JobCreate.Phases.Rule.{check_rule}
use corrupt_cv.System.{Flight, IsNew}
use corrupt_cv.System.Tickets.{Keeps-apply}
use corrupt_cv.System.Created.{
  Has, Has-append, Has-append_right, Grown, put_stores, Adds, One, One-publish, Adds-publish,
  published-sets, consistent_step,
}
use corrupt_cv.System.Sound.{IsSound, hit, sent-Adds, IsRequested-Adds}
use corrupt_cv.System.Steps.{
  IsSound-Keeps, IsSound-quiet, IsReady, IsReady-IsAccepted, created_db, created-IsSound,
}

-- Whether a handler may still publish the event of a job.
abbrev pub waits : Text → Phase → ℕ
waits id (handing ev) = hit ev.job_id id
waits id (publishing ev) = hit ev.job_id id
waits id _ = 0

abbrev pub waiting : List Flight → Text → ℕ
waiting [] id = 0
waiting (f ∷ fs) id = waits id f.phase + waiting fs id

-- What was checked still holds when the job is created, and a key that was given is stored before
-- the event is published.
abbrev pub IsPrepared : Catalog → World → Submission → Phase → Type 0
IsPrepared cat w s (creating profile info) =
    IsReady cat w.db profile.id s.visitor s.job_description s.model_key
IsPrepared cat w s (publishing ev) =
    (s.api_key ≡ []) ⊎ Has (set_key (put_command ev.job_id s.api_key)) w.effects
IsPrepared cat w s _ = Unit

pub IsPrepared-Grown :
    (cat : Catalog) (before after : World) (s : Submission) (phase : Phase)
    → Grown before after
    → IsPrepared cat before s phase
    → IsPrepared cat after s phase
IsPrepared-Grown cat before after s (creating profile info) grown h = record {
  profile_stored = grown.0 profile.id s.visitor h.profile_stored;
  described = h.described;
  bounded = h.bounded;
  listed = h.listed;
}
IsPrepared-Grown cat before after s (publishing ev) grown (inl e) = inl e
IsPrepared-Grown cat before after s (publishing ev) grown (inr stored) = inr (grown.1 _ stored)
IsPrepared-Grown cat before after s _ grown h = tt

no_key : (k : Text) → is_empty k ≡ true → k ≡ []
no_key [] e = refl
no_key (c ∷ k) e = cc

module _ (cat : Catalog) (s : Submission) (others : Text → ℕ) (w : World) where
  open s use {env, visitor, job_description, model_key, api_key}

  abbrev total : Phase → Text → ℕ
  total phase id = waits id phase + others id

  -- The state after a step of the submission.
  abbrev pub GoesOn : Phase × World → Type 0
  GoesOn (phase, w') = IsSound cat (total phase) w' × IsPrepared cat w' s phase × Grown w w'

  same : Grown w w
  same = ((λ i v h. h), λ e h. h)

  more : (msgs : List OutMsg) → Grown w (record w { effects = w.effects ++ map publish msgs })
  more msgs = ((λ i v h. h), λ e h. Has-append e w.effects (map publish msgs) h)

  module _ (profile : Profile) (info : Bytes)
      (sound : IsSound cat (total (creating profile info)) w)
      (ready : IsReady cat w.db profile.id visitor job_description model_key)
      (new : All (λ (j : Job). j.id ≢ env.fresh) w.db.jobs) where
    abbrev db : Db
    db = created_db cat env.now env.fresh visitor profile.id job_description model_key w

    -- The phase behind the insert.
    made :
        (phase : Phase) (w' : World)
        → w'.db ≡ db
        → w'.effects ≡ w.effects
        → ((id : Text) → waits id phase ≤ hit env.fresh id)
        → IsSound cat (total phase) w'
    made phase w' same quiet bound =
        created-IsSound cat env.now env.fresh visitor profile.id job_description model_key w
          (total (creating profile info)) (total phase) w' new ready same quiet
          (λ id. omega (arith, bound id)) sound

    GoesOn-created :
        (l : Link)
        → GoesOn (
            created cat s profile info
              (create_job l env.now env.fresh visitor profile.id job_description model_key w.db)
              w)
    unfolding create_job apply
    GoesOn-created up =
        let ev =
          requested_event env cat visitor job_description model_key api_key env.fresh profile
            info in
        elim (Bool-cases (is_empty api_key)) [
          | inl e ↦
              rw e
                (made (publishing ev) _ refl refl (λ id. omega arith), inl (no_key api_key e), same)
          | inr e ↦ rw e (made (handing ev) _ refl refl (λ id. omega arith), tt, same)
        ]
    GoesOn-created refused = (sound, tt, same)
    GoesOn-created lost = (made (finished internal_error) _ refl refl (λ id. omega arith), tt, same)

  GoesOn-handed :
      (ev : JobRequested) (r : Bool × List SetCommand)
      → (r.0 ≡ true → Has (set_key (put_command ev.job_id api_key)) (map set_key r.1))
      → IsSound cat (total (handing ev)) w
      → GoesOn (handed cat s ev r w)
  GoesOn-handed ev (true, sets) stores sound = (
    IsSound-quiet cat (total (handing ev)) (total (publishing ev)) w _ (refl, λ i v h. h) (λ h. h)
        (published-sets env ev w.effects sets) (λ id. omega arith) sound,
    inr (Has-append_right _ w.effects (map set_key sets) (stores refl)),
    ((λ i v h. h), λ e h. Has-append e w.effects (map set_key sets) h),
  )
  GoesOn-handed ev (false, sets) stores sound = (
    IsSound-quiet cat (total (handing ev)) (total checking) w _ (refl, λ i v h. h) (λ h. h)
        (published-sets env ev w.effects sets) (λ id. omega arith) sound,
    tt,
    ((λ i v h. h), λ e h. Has-append e w.effects (map set_key sets) h),
  )

  -- The event that was waited for is on the stream, or not; nobody waits for it any more.
  published-IsSound :
      (ev : JobRequested) (msgs : List OutMsg) (w' : World)
      → One env ev msgs
      → w'.db ≡ w.db
      → w'.effects ≡ w.effects ++ map publish msgs
      → IsSound cat (total (publishing ev)) w
      → IsSound cat (total checking) w'
  published-IsSound ev msgs w' one same sends sound =
      let adds : Adds ev.job_id w.effects w'.effects =
        rw sends (Adds-publish env ev w.effects msgs one) in
      IsSound-Keeps cat (total (publishing ev)) (total checking) w w' (rw same (refl, λ i v h. h))
        (λ h. rw same h) (λ id. omega (arith, sent-Adds ev.job_id id w.effects w'.effects adds))
        (λ h. IsRequested-Adds ev.job_id w.effects w'.effects adds h) sound

  GoesOn-sent :
      (ev : JobRequested) (r : Bool × List OutMsg)
      → One env ev r.1
      → IsSound cat (total (publishing ev)) w
      → GoesOn (after_sending cat s ev.job_id r w)
  GoesOn-sent ev (true, msgs) one sound =
      (published-IsSound ev msgs _ one refl refl sound, tt, more msgs)
  GoesOn-sent ev (false, msgs) one sound =
      (published-IsSound ev msgs _ one refl refl sound, tt, more msgs)

  pub GoesOn-advance :
      (phase : Phase)
      → IsSound cat (total phase) w
      → IsPrepared cat w s phase
      → IsNew s phase w.db
      → GoesOn (advance cat s phase w)
  unfolding advance apply
  GoesOn-advance checking sound _ _ =
      check_rule cat s w GoesOn
        (λ answer counts. (
          IsSound-quiet cat (total checking) (total checking) w _ (refl, λ i v h. h) (λ h. h) refl
              (λ id. omega arith) sound,
          tt,
          same,
        ))
        (λ profile info accepted.
          (sound, IsReady-IsAccepted env cat visitor _ _ _ w.db profile info accepted, same))
  GoesOn-advance (creating profile info) sound ready new =
      GoesOn-created profile info sound ready new env.create_link
  GoesOn-advance (handing ev) sound _ _ =
      GoesOn-handed ev (put env.key_link ev.job_id api_key)
        (put_stores env.key_link ev.job_id api_key) sound
  GoesOn-advance (publishing ev) sound _ _ =
      GoesOn-sent ev (publish_job_requested env.marshal env.pairs env.publish_link ev)
        (One-publish env ev) sound
  GoesOn-advance (failing job reason) sound _ _ =
      let w' : Write = fail job reason in
      let keeps = Keeps-apply env.fail_link env.now w' w.db (λ i. tt) in
      (
        IsSound-quiet cat (total checking) (total checking) w _ keeps
            (consistent_step env.fail_link env.now w' w.db) refl (λ id. omega arith) sound,
        tt,
        (keeps.1, λ e h. h),
      )
  GoesOn-advance (finished answer) sound _ _ = (sound, tt, same)
