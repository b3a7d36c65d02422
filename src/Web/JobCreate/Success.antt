-- ===== src/Web/JobCreate/Success.antt =====
-- What becomes of a submission that passes every check, if nothing fails.
use corrupt_cv.Common.{
  ◌≡◌, ◌≢◌, ◌⊎◌, inl, inr, refl, ap, ◌∙◌, false, not, ◌&&◌, List, [], ◌∷◌, ◌++◌, some, arith, Text,
  Bytes, is_empty, append_assoc, Bool-cases, if◌then◌else◌, text_eq_refl,
}
use corrupt_cv.Strings.{trim_space}
use corrupt_cv.Events.{JobRequested}
use corrupt_cv.Store.Rows.{pending, Profile}
use corrupt_cv.Store.Query.{up, create_job}
use corrupt_cv.Jobs.Fact.{status_in}
use corrupt_cv.Catalog.Load.{Provider, fake, Catalog}
use corrupt_cv.Jetstream.Publish.{publish_job_requested, requested_msg}
use corrupt_cv.Web.ApiKeys.{put, put_command}
use corrupt_cv.Web.Limits.{validate_job_sizes_iff}
use corrupt_cv.Web.JobCreate.Checks.{IsAccepted}
use corrupt_cv.Web.JobCreate.{
  Env, Form, Effect, set_key, publish, World, is_fake, job_page, publish_event, hand_off,
  requested_event, after_create, create_trimmed, handle_job_create,
}

-- The calls of the submission are answered, and its event is encoded.
pub record IsUp (env : Env) : Type 0 where
  pub create : env.create_link ≡ up
  pub key : env.key_link ≡ up
  pub publishing : env.publish_link ≡ up

is_paid : (p : Provider) (k : Text) → (p ≡ fake) ⊎ (k ≢ []) → not (is_fake p) && is_empty k ≡ false
is_paid p k (inl e) = rw e refl
is_paid p k (inr e) = ground arith

module _ (env : Env) (cat : Catalog) (visitor d m k : Text) (w : World) (profile : Profile)
    (info : Bytes) (accepted : IsAccepted env cat visitor d m k w.db profile info) where
  -- The ladder of checks is passed.
  pub create_trimmed-IsAccepted :
      create_trimmed env cat visitor d m k w
      ≡ after_create env cat visitor d m k profile info
          (create_job env.create_link env.now env.fresh visitor profile.id d m w.db)
          w
  create_trimmed-IsAccepted =
      let described : is_empty d ≡ false = is_empty-ne d accepted.described in
      let paid = is_paid accepted.entry.provider k accepted.paid in
      let sizes = (validate_job_sizes_iff d profile.career_text).0.1 accepted.sizes in
      let career = is_empty-ne (trim_space profile.career_text) accepted.career in
      let details = is_empty-ne accepted.details accepted.details_ne in
      rw described (
        rw accepted.listed (
          rw paid (
            rw accepted.stored
              (rw sizes (rw (career, accepted.given) (rw details (rw accepted.decoded refl)))))))
    where
      is_empty-ne : (t : Text) → t ≢ [] → is_empty t ≡ false
      is_empty-ne [] h = absurd (h refl)
      is_empty-ne (c ∷ t) h = refl

-- The command that stores a key, if there is one.
abbrev pub key_effects : (job api_key : Text) → List Effect
key_effects job api_key = if is_empty api_key then [] else set_key (put_command job api_key) ∷ []

module _ (env : Env) (links : IsUp env) (ev : JobRequested) (payload : Bytes)
    (encoded : env.marshal ev ≡ some payload) where
  abbrev sent : Effect
  sent = publish (requested_msg env.pairs ev payload)

  publish_event-up :
      (w : World)
      → publish_event env ev w ≡ (job_page ev.job_id, record w { effects = w.effects ++ sent ∷ [] })
  unfolding publish_job_requested
  publish_event-up w = rw (encoded, publish_job_requested) (rw links.publishing refl)

  pub hand_off-up :
      (k : Text) (w : World)
      → hand_off env k ev w ≡ (
        job_page ev.job_id,
        record w { effects = w.effects ++ (key_effects ev.job_id k ++ sent ∷ []) },
      )
  unfolding put
  hand_off-up k w = elim (Bool-cases (is_empty k)) [
    | inl e ↦ rw e (publish_event-up w)
    | inr e ↦ rw e (
        rw links.key (
          publish_event-up
            (record w { effects = w.effects ++ set_key (put_command ev.job_id k) ∷ [] })
          ∙ ap (λ es. (job_page ev.job_id, record w { effects = es }))
              (append_assoc w.effects _ _)))
  ]

-- A submission that passes every check, whose calls are answered and whose event is encoded, is
-- enqueued: the visitor is sent to the page of a new pending job, the key, if there is one, and
-- then one event for the job take effect, and the job is counted.
pub handle_job_create_enqueued :
    (env : Env) (cat : Catalog) (visitor : Text) (form : Form) (w : World) (profile : Profile)
    (info payload : Bytes)
    → let d = trim_space form.job_description in
      let m = trim_space form.model_key in
      let k = trim_space form.api_key in
      let ev = requested_event env cat visitor d m k env.fresh profile info in
      IsUp env
      → IsAccepted env cat visitor d m k w.db profile info
      → env.marshal ev ≡ some payload
      → let out = handle_job_create env cat visitor form w in
        (out.0 ≡ job_page env.fresh)
        × (status_in env.fresh out.1.db.jobs ≡ some pending)
        × (out.1.jobs_created ≡ m ∷ w.jobs_created)
        × (out.1.effects
            ≡ w.effects
              ++ (key_effects env.fresh k ++ publish (requested_msg env.pairs ev payload) ∷ []))
unfolding handle_job_create create_job
handle_job_create_enqueued env cat visitor form w profile info payload links accepted encoded =
    let d = trim_space form.job_description in
    let m = trim_space form.model_key in
    let k = trim_space form.api_key in
    let ev = requested_event env cat visitor d m k env.fresh profile info in
    rw (create_trimmed-IsAccepted env cat visitor d m k w profile info accepted) (
      rw links.create (
        rw (hand_off-up env links ev payload encoded k _)
          (refl, rw (text_eq_refl env.fresh) refl, refl, refl)))
