-- ===== src/Web/JobCreate/Checks.antt =====
-- What a submission is checked for, and one rule for all that is proved of the ladder of checks.
use corrupt_cv.Common.{
  ◌≤◌, ◌≡◌, ◌≢◌, ◌⊎◌, inl, inr, refl, false, List, [], Option, none, some, arith, Text, Bytes,
  is_empty, Bool-cases, not, ◌&&◌, ◌||◌,
}
use corrupt_cv.Strings.{trim_space, byte_length}
use corrupt_cv.Store.Rows.{Profile, Db}
use corrupt_cv.Store.Query.{Result, ok, err, not_found, broken, get_profile, create_job}
use corrupt_cv.Catalog.Load.{Provider, fake, ModelCatalogEntry, Catalog, get}
use corrupt_cv.Web.Response.{Response, Reason}
use corrupt_cv.Web.Limits.{
  SizeError, job_description_too_long, career_text_too_long, validate_job_sizes,
  validate_job_sizes_iff,
}
use corrupt_cv.Web.JobCreate.{
  Env, World, is_fake, has_no_info, after_create, with_info, with_sizes, with_profile, with_entry,
  create_trimmed,
}

-- What holds of a submission for which a job is created.
pub record IsAccepted (env : Env) (cat : Catalog) (visitor d m k : Text) (db : Db)
    (profile : Profile) (info : Bytes) : Type 0 where
  pub described : d ≢ []
  pub entry : ModelCatalogEntry
  pub listed : get cat m ≡ some entry
  pub paid : (entry.provider ≡ fake) ⊎ (k ≢ [])
  pub stored : get_profile env.profile_link visitor db ≡ ok profile
  pub sizes : (byte_length d ≤ 20000) × (byte_length profile.career_text ≤ 100000)
  pub career : trim_space profile.career_text ≢ []
  pub details : Text
  pub given : profile.personal_info ≡ some details
  pub details_ne : details ≢ []
  pub decoded : env.decode_info details ≡ some info

pub fake_or_key :
    (p : Provider) (k : Text) → not (is_fake p) && is_empty k ≡ false → (p ≡ fake) ⊎ (k ≢ [])
fake_or_key p k h = ground arith

pub info_given : (o : Option Text) → has_no_info o ≡ false → (t : Text) × (o ≡ some t) × (t ≢ [])
info_given none h = absurd (ground arith)
info_given (some t) h = (t, refl, ground arith)

module _ {κ} (env : Env) (cat : Catalog) (visitor d m k : Text) (w : World)
    (P : Response × World → Type κ)
    -- A refusal: an answer, and a count at most.
    (refusal : (answer : Response) (counts : List Reason)
      → P (answer, record w { jobs_rejected = counts }))
    -- The creation of a job for an accepted submission.
    (creation : (profile : Profile) (info : Bytes)
      → IsAccepted env cat visitor d m k w.db profile info
      → P (
          after_create env cat visitor d m k profile info
            (create_job env.create_link env.now env.fresh visitor profile.id d m w.db)
            w)) where
  with_info_rule :
      (profile : Profile) (info : Option Bytes)
      → ((i : Bytes) → info ≡ some i → IsAccepted env cat visitor d m k w.db profile i)
      → P (with_info env cat visitor d m k profile info w)
  with_info_rule profile none accepted = refusal _ w.jobs_rejected
  with_info_rule profile (some info) accepted = creation profile info (accepted info refl)

  module _ (described : d ≢ []) (entry : ModelCatalogEntry) (listed : get cat m ≡ some entry)
      (paid : (entry.provider ≡ fake) ⊎ (k ≢ [])) where
    with_sizes_rule :
        (profile : Profile) (o : Option SizeError)
        → get_profile env.profile_link visitor w.db ≡ ok profile
        → validate_job_sizes d profile.career_text ≡ o
        → P (with_sizes env cat visitor d m k profile o w)
    with_sizes_rule profile (some job_description_too_long) stored e = refusal _ _
    with_sizes_rule profile (some career_text_too_long) stored e = refusal _ _
    with_sizes_rule profile none stored e =
        elim (Bool-cases
          (is_empty (trim_space profile.career_text) || has_no_info profile.personal_info)) [
            | inl missing ↦ rw missing (refusal _ _)
            | inr complete ↦
                let (details, given, details_ne) =
                  info_given profile.personal_info (ground arith) in
                rw (complete, given)
                  (with_info_rule profile (env.decode_info details) (λ i decoded. record {
                    described = described;
                    entry = entry;
                    listed = listed;
                    paid = paid;
                    stored = stored;
                    sizes = (validate_job_sizes_iff d profile.career_text).0.0 e;
                    career = ground arith;
                    details = details;
                    given = given;
                    details_ne = details_ne;
                    decoded = decoded;
                  }))
          ]

    with_profile_rule :
        (r : Result Profile)
        → get_profile env.profile_link visitor w.db ≡ r
        → P (with_profile env cat visitor d m k r w)
    with_profile_rule (err not_found) e = refusal _ _
    with_profile_rule (err broken) e = refusal _ w.jobs_rejected
    with_profile_rule (ok profile) e = with_sizes_rule profile _ e refl

  with_entry_rule :
      (o : Option ModelCatalogEntry)
      → d ≢ []
      → get cat m ≡ o
      → P (with_entry env cat visitor d m k o w)
  with_entry_rule none described e = refusal _ _
  with_entry_rule (some entry) described e =
      elim (Bool-cases (not (is_fake entry.provider) && is_empty k)) [
        | inl missing ↦ rw missing (refusal _ _)
        | inr paid ↦
            rw paid (with_profile_rule described entry e (fake_or_key entry.provider k paid) _ refl)
      ]

  -- What holds of every refusal and of every creation holds of the handler.
  pub create_trimmed_rule : P (create_trimmed env cat visitor d m k w)
  create_trimmed_rule = elim (Bool-cases (is_empty d)) [
    | inl blank ↦ rw blank (refusal _ _)
    | inr described ↦ rw described (with_entry_rule (get cat m) (ground arith) refl)
  ]
