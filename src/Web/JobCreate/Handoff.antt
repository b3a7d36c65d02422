-- ===== src/Web/JobCreate/Handoff.antt =====
-- The order of the key and the event, and what becomes of a job whose event is not published.
use corrupt_cv.Common.{
  ◌≡◌, inl, inr, refl, sym, ◌∙◌, Bool, true, false, List, [], ◌∷◌, ◌++◌, map, Text, Bytes, is_empty,
  append-nil, append_assoc, Bool-cases,
}
use corrupt_cv.Strings.{trim_space}
use corrupt_cv.Events.{JobRequested}
use corrupt_cv.Store.Rows.{Profile}
use corrupt_cv.Store.Query.{Link, up, refused, lost, create_job}
use corrupt_cv.Catalog.Load.{Catalog}
use corrupt_cv.Jetstream.Publish.{OutMsg, publish_job_requested}
use corrupt_cv.Web.ApiKeys.{put, put_command}
use corrupt_cv.Web.Response.{Response}
use corrupt_cv.Web.JobCreate.Checks.{create_trimmed_rule}
use corrupt_cv.Web.JobCreate.{
  Env, Form, Effect, set_key, publish, World, after_publish, after_put, hand_off, after_create,
  handle_job_create,
}

-- Every event has the key of its job before it, if there is a key; and no other key is stored.
abbrev pub KeyFirst : (job api_key : Text) → Bool → List Effect → Type 0
KeyFirst job api_key stored [] = Unit
KeyFirst job api_key stored (set_key c ∷ es) =
    (c ≡ put_command job api_key) × KeyFirst job api_key true es
KeyFirst job api_key stored (publish m ∷ es) = (stored ≡ true) × KeyFirst job api_key stored es

-- The effects of `before`, and then effects in which the key comes first.
abbrev pub Extends : (job api_key : Text) → Bool → (before : List Effect) → World → Type 0
Extends job api_key stored before after =
    (new : List Effect) × (after.effects ≡ before ++ new) × KeyFirst job api_key stored new

module _ (job api_key : Text) where
  KeyFirst-publish : (msgs : List OutMsg) → KeyFirst job api_key true (map publish msgs)
  KeyFirst-publish [] = tt
  KeyFirst-publish (m ∷ ms) = (refl, KeyFirst-publish ms)

  Extends-refl : (stored : Bool) (w : World) → Extends job api_key stored w.effects w
  Extends-refl stored w = ([], sym (append-nil w.effects), tt)

module _ (env : Env) where
  after_publish-effects :
      (job : Text) (out : Bool × List OutMsg) (w : World)
      → (after_publish env job out w).1.effects ≡ w.effects ++ map publish out.1
  after_publish-effects job (true, msgs) w = refl
  after_publish-effects job (false, msgs) w = refl

  module _ (api_key : Text) (ev : JobRequested) (w : World) where
    abbrev sent : List OutMsg
    sent = (publish_job_requested env.marshal env.pairs env.publish_link ev).1

    Extends-after_put :
        (stored : Bool) (l : Link)
        → Extends ev.job_id api_key stored w.effects
            (after_put env ev (put l ev.job_id api_key) w).1
    unfolding put
    Extends-after_put stored up = (
      set_key (put_command ev.job_id api_key) ∷ map publish sent,
      after_publish-effects ev.job_id _ _ ∙ append_assoc w.effects _ _,
      (refl, KeyFirst-publish ev.job_id api_key sent),
    )
    Extends-after_put stored refused = ([], refl, tt)
    Extends-after_put stored lost = (set_key (put_command ev.job_id api_key) ∷ [], refl, (refl, tt))

    Extends-hand_off :
        Extends ev.job_id api_key (is_empty api_key) w.effects (hand_off env api_key ev w).1
    Extends-hand_off = elim (Bool-cases (is_empty api_key)) [
      | inl e ↦ rw e (
        map publish sent,
        after_publish-effects ev.job_id _ w,
        KeyFirst-publish ev.job_id api_key sent,
      )
      | inr e ↦ rw e (Extends-after_put false env.key_link)
    ]

module _ (env : Env) (cat : Catalog) (visitor d m k : Text) (w : World) where
  -- What the handler leaves, at any point of its checks.
  abbrev Fine : Response × World → Type 0
  Fine out = Extends env.fresh k (is_empty k) w.effects out.1

  unmoved : (w' : World) → w'.effects ≡ w.effects → Extends env.fresh k (is_empty k) w.effects w'
  unmoved w' e = ([], e ∙ sym (append-nil w.effects), tt)

  Fine-after_create :
      (profile : Profile) (info : Bytes) (l : Link)
      → Fine (
          after_create env cat visitor d m k profile info
            (create_job l env.now env.fresh visitor profile.id d m w.db)
            w)
  unfolding create_job
  Fine-after_create profile info up = Extends-hand_off env k _ _
  Fine-after_create profile info refused = unmoved w refl
  Fine-after_create profile info lost = unmoved w refl

-- Whatever fails on the way: if the visitor gave a key, the event is published only after the key
-- is stored for that very job, and no other key is stored.
pub handle_job_create-KeyFirst :
    (env : Env) (cat : Catalog) (visitor : Text) (form : Form) (w : World)
    → let api_key = trim_space form.api_key in
      Extends env.fresh api_key
        (is_empty api_key)
        w.effects
        (handle_job_create env cat visitor form w).1
unfolding handle_job_create
handle_job_create-KeyFirst env cat visitor form w =
    let d = trim_space form.job_description in
    let m = trim_space form.model_key in
    let k = trim_space form.api_key in
    create_trimmed_rule env cat visitor d m k w (Fine env cat visitor d m k w)
      (λ answer counts. ([], sym (append-nil w.effects), tt))
      (λ profile info accepted.
        Fine-after_create env cat visitor d m k w profile info env.create_link)
