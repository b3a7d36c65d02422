-- ===== src/System/Sound.antt =====
-- What holds of tables and stream in every state that the gateway reaches.
use corrupt_cv.Common.{
  ℕ, ◌≤◌, ◌≡◌, ◌≢◌, inl, inr, refl, sym, ap, ◌∙◌, Bool, true, List, [], ◌∷◌, ◌++◌, map, Text,
  Bool-cases, All, All-append, is_some, arith, ◌+◌, count_if, text_eq, text_eq_iff, text_eq_refl,
  drop, length, length-append, if◌then◌else◌,
}
use corrupt_cv.Strings.{byte_length}
use corrupt_cv.Store.Rows.{Profile, Job, Db}
use corrupt_cv.Store.Consistency.{AllConsistent}
use corrupt_cv.Catalog.Load.{Catalog, ModelCatalogEntry}
use corrupt_cv.Catalog.Load as Load
use corrupt_cv.Jetstream.Subject.{subject, event_requested}
use corrupt_cv.Web.JobCreate.{Effect, World}
use corrupt_cv.System.Tickets.{Ticket, ticket, tickets, HasProfile}
use corrupt_cv.System.Created.{published, Adds}

-- A job that was admitted: for a profile of its visitor, with a description and a model of the
-- catalog.
pub record IsAdmitted (cat : Catalog) (profiles : List Profile) (t : Ticket) : Type 0 where
  pub profile : HasProfile t.profile_id t.visitor_id profiles
  pub described : t.job_description ≢ []
  pub bounded : byte_length t.job_description ≤ 20000
  pub listed : is_some (Load.get cat t.model_key) ≡ true

-- How many rows have an id.
abbrev pub rows : Text → Db → ℕ
rows id db = count_if (λ (t : Ticket). text_eq t.id id) (tickets db)

-- How often the `requested` event of a job is on the stream.
abbrev pub sent : Text → List Effect → ℕ
sent id effects = count_if (text_eq (subject id event_requested)) (published effects)

abbrev pub IsRequested : Text → Type 0
IsRequested s = (id : Text) × (s ≡ subject id event_requested)

-- What holds of tables and stream; `waiting id` says how many handlers may still publish the event
-- of a job.
pub record IsSound (cat : Catalog) (waiting : Text → ℕ) (w : World) : Type 0 where
  pub distinct : (id : Text) → rows id w.db ≤ 1
  pub admitted : All (IsAdmitted cat w.db.profiles) (tickets w.db)
  pub consistent : AllConsistent w.db
  pub once : (id : Text) → sent id w.effects + waiting id ≤ rows id w.db
  pub requested : All IsRequested (published w.effects)

abbrev pub hit : Text → Text → ℕ
hit x id = if text_eq x id then 1 else 0

append_right_cancel : (a b s : Text) → a ++ s ≡ b ++ s → a ≡ b
append_right_cancel [] [] s e = refl
append_right_cancel [] (y ∷ b) s e = absurd (omega (arith, ap length e, length-append (y ∷ b) s))
append_right_cancel (x ∷ a) [] s e = absurd (omega (arith, ap length e, length-append (x ∷ a) s))
append_right_cancel (x ∷ a) (y ∷ b) s e =
    let tails : a ++ s ≡ b ++ s = cc in
    let heads : x ≡ y = cc in ground (arith, append_right_cancel a b s tails)

text_eq-subject :
    (id x : Text) → text_eq (subject id event_requested) (subject x event_requested) ≡ text_eq x id
unfolding subject
text_eq-subject id x = elim (Bool-cases (text_eq x id)) [
  | inl e ↦
      let same : x ≡ id = (text_eq_iff x id).0 e in rw same (text_eq_refl _ ∙ sym (text_eq_refl id))
  | inr e ↦ elim (Bool-cases (text_eq (subject id event_requested) (subject x event_requested))) [
    | inl f ↦
        let same = (text_eq_iff (subject id event_requested) (subject x event_requested)).0 f in
        let ids : id ≡ x = append_right_cancel id x (b'.' ∷ event_requested) (ap (drop 3) same) in
        absurd (ground (arith, ids, text_eq_refl id))
    | inr f ↦ f ∙ sym e
  ]
]

count_if-append {ℓ} :
    {A : Type ℓ} (p : A → Bool) (xs ys : List A)
    → count_if p (xs ++ ys) ≡ count_if p xs + count_if p ys
count_if-append p [] ys = omega arith
count_if-append p (x ∷ xs) ys = omega (arith, count_if-append p xs ys)

pub sent-Adds :
    (x id : Text) (before after : List Effect)
    → Adds x before after
    → sent id after ≤ sent id before + hit x id
sent-Adds x id before after (inl e) = rw e (omega arith)
sent-Adds x id before after (inr e) = rw e (
    rw
      (count_if-append (text_eq (subject id event_requested)) (published before)
        (subject x event_requested ∷ []))
      (rw (text_eq-subject id x) (omega arith)))

pub IsRequested-Adds :
    (x : Text) (before after : List Effect)
    → Adds x before after
    → All IsRequested (published before)
    → All IsRequested (published after)
IsRequested-Adds x before after (inl e) h = rw e h
IsRequested-Adds x before after (inr e) h =
    rw e
      (All-append IsRequested (published before) (subject x event_requested ∷ []) h ((x, refl), tt))

pub rows_fresh :
    (fresh id : Text) (js : List Job)
    → All (λ (j : Job). j.id ≢ fresh) js
    → text_eq fresh id ≡ true
    → count_if (λ (t : Ticket). text_eq t.id id) (map ticket js) ≡ 0
rows_fresh fresh id [] _ e = refl
rows_fresh fresh id (j ∷ js) (here, later) e =
    ground (arith, rows_fresh fresh id js later e, text_eq_iff fresh id, text_eq_iff j.id id)
