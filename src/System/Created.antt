-- ===== src/System/Created.antt =====
-- What the hand-off of a new job leaves of tables and stream.
use corrupt_cv.Common.{
  ℕ, ◌≡◌, ◌⊎◌, inl, inr, refl, ap, ◌∙◌, Bool, true, false, List, [], ◌∷◌, ◌++◌, map, append-nil,
  Text, Bytes, is_empty, Option-cases, Bool-cases,
}
use corrupt_cv.Events.{JobRequested}
use corrupt_cv.Store.Rows.{Db}
use corrupt_cv.Store.Query.{Link, up, refused, lost}
use corrupt_cv.Store.Consistency.{AllConsistent, run-IsConsistent}
use corrupt_cv.Store.Write.{Write, fail, apply, run}
use corrupt_cv.Jetstream.Subject.{subject, event_requested}
use corrupt_cv.Jetstream.Publish.{OutMsg, deliver, requested_msg, publish_job_requested}
use corrupt_cv.Web.ApiKeys.{put_command, SetCommand, put}
use corrupt_cv.Web.JobCreate.{
  Env, Effect, set_key, publish, World, after_publish, after_put, hand_off,
}
use corrupt_cv.System.Tickets.{Any, Grows, Keeps, Keeps-apply}

-- The subjects of the messages among the effects.
abbrev pub published : List Effect → List Text
published [] = []
published (publish m ∷ es) = m.subject ∷ published es
published (set_key c ∷ es) = published es

published-append : (xs ys : List Effect) → published (xs ++ ys) ≡ published xs ++ published ys
published-append [] ys = refl
published-append (publish m ∷ xs) ys = ap (λ ss. m.subject ∷ ss) (published-append xs ys)
published-append (set_key c ∷ xs) ys = published-append xs ys

published-set_key : (sets : List SetCommand) → published (map set_key sets) ≡ []
published-set_key [] = refl
published-set_key (c ∷ sets) = published-set_key sets

-- An effect that has been made.
abbrev pub Has : Effect → List Effect → Type 0
Has e = Any (λ (x : Effect). x ≡ e)

pub Has-append : (e : Effect) (xs ys : List Effect) → Has e xs → Has e (xs ++ ys)
Has-append e [] ys h = elim h [ ]
Has-append e (x ∷ xs) ys (inl found) = inl found
Has-append e (x ∷ xs) ys (inr later) = inr (Has-append e xs ys later)

pub Has-append_right : (e : Effect) (xs ys : List Effect) → Has e ys → Has e (xs ++ ys)
Has-append_right e [] ys h = h
Has-append_right e (x ∷ xs) ys h = inr (Has-append_right e xs ys h)

-- Profiles stay, and what was made is made.
abbrev pub Grown : World → World → Type 0
Grown before after =
    Grows before.db after.db × ((e : Effect) → Has e before.effects → Has e after.effects)

-- A SET that is answered is run.
pub put_stores :
    (link : Link) (job api_key : Text)
    → (put link job api_key).0 ≡ true
    → Has (set_key (put_command job api_key)) (map set_key (put link job api_key).1)
unfolding put
put_stores up job api_key e = inl refl
put_stores refused job api_key e = cc
put_stores lost job api_key e = cc

-- At most the `requested` event of a job is new.
abbrev pub Adds : (id : Text) → (before after : List Effect) → Type 0
Adds id before after =
    (published after ≡ published before)
    ⊎ (published after ≡ published before ++ subject id event_requested ∷ [])

-- A step that touches tables and effects no further.
abbrev pub Handed : (id : Text) → World → World → Type 0
Handed id before after =
    Keeps before.db after.db
    × (AllConsistent before.db → AllConsistent after.db)
    × Adds id before.effects after.effects

Keeps-refl : (db : Db) → Keeps db db
Keeps-refl db = (refl, λ i v h. h)

pub consistent_step :
    (link : Link) (now : ℕ) (w : Write) (db : Db)
    → AllConsistent db
    → AllConsistent (apply link now w db)
unfolding run
consistent_step link now w db h = run-IsConsistent ((link, now, w) ∷ []) db h

module _ (env : Env) (ev : JobRequested) where
  -- Of one message at most.
  abbrev pub One : List OutMsg → Type 0
  One msgs =
      (published (map publish msgs) ≡ [])
      ⊎ (published (map publish msgs) ≡ subject ev.job_id event_requested ∷ [])

  One-deliver :
      (link : Link) (payload : Bytes) → One (deliver link (requested_msg env.pairs ev payload)).1
  unfolding requested_msg
  One-deliver up payload = inr refl
  One-deliver refused payload = inl refl
  One-deliver lost payload = inr refl

  pub One-publish : One (publish_job_requested env.marshal env.pairs env.publish_link ev).1
  unfolding publish_job_requested
  One-publish = elim (Option-cases (env.marshal ev)) [
    | inl e ↦ rw (e, publish_job_requested) (inl refl)
    | inr (payload, e) ↦ rw (e, publish_job_requested) (One-deliver env.publish_link payload)
  ]

  pub Adds-publish :
      (effects : List Effect) (msgs : List OutMsg)
      → One msgs
      → Adds ev.job_id effects (effects ++ map publish msgs)
  Adds-publish effects msgs (inl e) =
      inl (published-append effects _ ∙ ap (λ ss. published effects ++ ss) e ∙ append-nil _)
  Adds-publish effects msgs (inr e) =
      inr (published-append effects _ ∙ ap (λ ss. published effects ++ ss) e)

  pub fails :
      (reason : Text) (db : Db) → Keeps db (apply env.fail_link env.now (fail ev.job_id reason) db)
  fails reason db = Keeps-apply env.fail_link env.now (fail ev.job_id reason) db (λ i. tt)

  Handed-after_publish :
      (r : Bool × List OutMsg) (w : World)
      → One r.1
      → Handed ev.job_id w (after_publish env ev.job_id r w).1
  unfolding apply
  Handed-after_publish (true, msgs) w one =
      (Keeps-refl w.db, λ h. h, Adds-publish w.effects msgs one)
  Handed-after_publish (false, msgs) w one = (
    fails _ w.db,
    (λ h. consistent_step env.fail_link env.now (fail ev.job_id _) w.db h),
    Adds-publish w.effects msgs one,
  )

  pub published-sets :
      (effects : List Effect) (sets : List SetCommand)
      → published (effects ++ map set_key sets) ≡ published effects
  published-sets effects sets =
      published-append effects _
      ∙ ap (λ ss. published effects ++ ss) (published-set_key sets)
      ∙ append-nil _

  Handed-after_put :
      (r : Bool × List SetCommand) (w : World) → Handed ev.job_id w (after_put env ev r w).1
  unfolding apply
  Handed-after_put (true, sets) w =
      let sent = publish_job_requested env.marshal env.pairs env.publish_link ev in
      let (keeps, consistent, adds) =
        Handed-after_publish sent (record w { effects = w.effects ++ map set_key sets })
          One-publish in
      (
        keeps,
        consistent,
        elim adds [
          | inl e ↦ inl (e ∙ published-sets w.effects sets)
          | inr e ↦ inr (
              e
              ∙ ap (λ ss. ss ++ subject ev.job_id event_requested ∷ [])
                  (published-sets w.effects sets))
        ],
      )
  Handed-after_put (false, sets) w = (
    fails _ w.db,
    (λ h. consistent_step env.fail_link env.now (fail ev.job_id _) w.db h),
    inl (published-sets w.effects sets),
  )

  pub Handed-hand_off :
      (api_key : Text) (w : World) → Handed ev.job_id w (hand_off env api_key ev w).1
  Handed-hand_off api_key w = elim (Bool-cases (is_empty api_key)) [
    | inl e ↦ rw e (
        Handed-after_publish (publish_job_requested env.marshal env.pairs env.publish_link ev) w
          One-publish)
    | inr e ↦ rw e (Handed-after_put (put env.key_link ev.job_id api_key) w)
  ]
