-- ===== src/System/Tickets.antt =====
-- What no update of the tables changes: of a job who asked for what, of a profile its id and its
-- visitor.
use corrupt_cv.Common.{
  ℕ, ◌≡◌, ◌⊎◌, inl, inr, refl, ap, ◌∙◌, Bool, List, [], ◌∷◌, map, some, arith, Text, find, text_eq,
  text_eq_iff, Bool-cases, Option-cases,
}
use corrupt_cv.Store.Rows.{Profile, Job, Db}
use corrupt_cv.Store.Query.{
  Link, up, refused, lost, ok, exec, or_not_found, update_where, put_profile, get_profile,
  is_pending_job, is_live_job, is_stuck, as_rendering, as_completed, as_failed,
}
use corrupt_cv.Store.Write.{
  Write, save_profile, create, render, complete, fail_processing, fail, sweep, apply,
}
use corrupt_cv.Store.Terminal.{IsFresh}
use corrupt_cv.Store.Updates.{exec_keeps}

pub record Ticket : Type 0 where
  pub id : Text
  pub visitor_id : Text
  pub profile_id : Text
  pub job_description : Text
  pub model_key : Text

abbrev pub ticket : Job → Ticket
ticket j = record {
  id = j.id;
  visitor_id = j.visitor_id;
  profile_id = j.profile_id;
  job_description = j.job_description;
  model_key = j.model_key;
}

abbrev pub tickets : Db → List Ticket
tickets db = map ticket db.jobs

-- The first or a later element.
abbrev pub Any {ℓ} : {A : Type ℓ} → (A → Type 0) → List A → Type 0
Any P [] = ⊥
Any P (x ∷ xs) = P x ⊎ Any P xs

-- A profile with an id, of a visitor.
abbrev pub HasProfile : (id visitor : Text) → List Profile → Type 0
HasProfile id visitor = Any (λ (p : Profile). (p.id ≡ id) × (p.visitor_id ≡ visitor))

-- Profiles stay.
abbrev pub Grows : Db → Db → Type 0
Grows before after =
    (id visitor : Text)
    → HasProfile id visitor before.profiles
    → HasProfile id visitor after.profiles

abbrev pub Keeps : Db → Db → Type 0
Keeps before after = (tickets after ≡ tickets before) × Grows before after

tickets-update_where :
    (guard : Job → Bool) (change : Job → Job) (js : List Job)
    → ((j : Job) → ticket (change j) ≡ ticket j)
    → map ticket (update_where guard change js) ≡ map ticket js
unfolding update_where
tickets-update_where guard change [] keeps = refl
tickets-update_where guard change (j ∷ js) keeps = elim (Bool-cases (guard j)) [
  | inl e ↦ rw e (λ i. keeps j i ∷ tickets-update_where guard change js keeps i)
  | inr e ↦ rw e (ap (λ ts. ticket j ∷ ts) (tickets-update_where guard change js keeps))
]

HasProfile-put_profile :
    (now : ℕ) (fresh own career info id visitor : Text) (ps : List Profile)
    → HasProfile id visitor ps
    → HasProfile id visitor (put_profile now fresh own career info ps)
unfolding put_profile
HasProfile-put_profile now fresh own career info id visitor [] h = elim h [ ]
HasProfile-put_profile now fresh own career info id visitor (p ∷ ps) h =
    elim (Bool-cases (text_eq p.visitor_id own)) [
      | inl e ↦ rw e h
      | inr e ↦ rw e (elim h [
        | inl found ↦ inl found
        | inr later ↦ inr (HasProfile-put_profile now fresh own career info id visitor ps later)
      ])
    ]

-- Every write but the creation of a job.
pub Keeps-apply :
    (link : Link) (now : ℕ) (w : Write) (db : Db)
    → ((id : Text) → IsFresh id w)
    → Keeps db (apply link now w db)
unfolding apply
Keeps-apply link now (save_profile fresh visitor career info) db _ =
    exec_keeps (Keeps db) link _ db (refl, λ i v h. h)
      (refl, λ i v h. HasProfile-put_profile now fresh visitor career info i v db.profiles h)
Keeps-apply link now (create fresh visitor profile description model) db new =
    absurd (new fresh refl)
Keeps-apply link now (render id cv) db _ =
    exec_keeps (Keeps db) link _ db (refl, λ i v h. h)
      (
        tickets-update_where (is_pending_job id) (as_rendering now cv) db.jobs (λ j. refl),
        λ i v h. h,
      )
Keeps-apply link now (complete id key) db _ =
    exec_keeps (Keeps db) link _ db (refl, λ i v h. h)
      (tickets-update_where (is_live_job id) (as_completed now key) db.jobs (λ j. refl), λ i v h. h)
Keeps-apply link now (fail_processing id error) db _ =
    exec_keeps (Keeps db) link _ db (refl, λ i v h. h)
      (
        tickets-update_where (is_pending_job id) (as_failed now error) db.jobs (λ j. refl),
        λ i v h. h,
      )
Keeps-apply link now (fail id error) db _ =
    exec_keeps (Keeps db) link _ db (refl, λ i v h. h)
      (tickets-update_where (is_live_job id) (as_failed now error) db.jobs (λ j. refl), λ i v h. h)
Keeps-apply link now (sweep older_than) db _ =
    exec_keeps (Keeps db) link _ db (refl, λ i v h. h)
      (
        tickets-update_where (is_stuck now older_than) (as_failed now _) db.jobs (λ j. refl),
        λ i v h. h,
      )

ok_injective : {a b : Profile} → ok a ≡ ok b → a ≡ b
ok_injective e = cc

find-HasProfile :
    (visitor : Text) (ps : List Profile) {p : Profile}
    → find (λ (p : Profile). text_eq p.visitor_id visitor) ps ≡ some p
    → HasProfile p.id visitor ps
find-HasProfile visitor [] e = cc
find-HasProfile visitor (q ∷ ps) {p} e = elim (Bool-cases (text_eq q.visitor_id visitor)) [
  | inl same ↦
      inl (
        ground (arith, text_eq_iff q.visitor_id visitor),
        (text_eq_iff q.visitor_id visitor).0 same,
      )
  | inr other ↦ inr (find-HasProfile visitor ps (rw other at e))
]

-- The profile that a request is given is the visitor's own.
pub get_profile-HasProfile :
    (link : Link) (visitor : Text) (db : Db) {p : Profile}
    → get_profile link visitor db ≡ ok p
    → HasProfile p.id visitor db.profiles
unfolding get_profile exec or_not_found
get_profile-HasProfile up visitor db e =
    elim (Option-cases (find (λ (p : Profile). text_eq p.visitor_id visitor) db.profiles)) [
      | inl missing ↦ cc (rw missing at e)
      | inr (q, found) ↦
          find-HasProfile visitor db.profiles (found ∙ ap some (ok_injective (rw found at e)))
    ]
get_profile-HasProfile refused visitor db e = cc
get_profile-HasProfile lost visitor db e = cc
