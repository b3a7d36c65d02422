-- ===== src/Web/JobCreate/Phases/Rule.antt =====
-- To prove something of the checks, prove it of a refusal and of an admission.
use corrupt_cv.Common.{
  ◌⊎◌, ◌≢◌, ◌≡◌, refl, sym, ap, ◌∙◌, not, ◌&&◌, ◌||◌, List, [], Option, none, some, Bytes, arith,
  is_empty, inl, inr, Bool-cases,
}
use corrupt_cv.Strings.{trim_space}
use corrupt_cv.Store.Rows.{Profile}
use corrupt_cv.Store.Query.{Result, ok, err, not_found, broken, get_profile}
use corrupt_cv.Catalog.Load.{ModelCatalogEntry, Catalog, get, fake}
use corrupt_cv.Web.Limits.{SizeError, validate_job_sizes}
use corrupt_cv.Web.Response.{Response, Reason}
use corrupt_cv.Web.JobCreate.{World, is_fake, has_no_info, info_text}
use corrupt_cv.Web.JobCreate.Phases.{
  Phase, creating, finished, Submission, check_info, check_sizes, check_profile, check_entry, check,
}
use corrupt_cv.Web.JobCreate.Checks.{IsAccepted, fake_or_key, info_given}
use corrupt_cv.Web.Limits.{job_description_too_long, career_text_too_long, validate_job_sizes_iff}

module _ {κ} (cat : Catalog) (s : Submission) (w : World) (P : Phase × World → Type κ)
    (refusal : (answer : Response) (counts : List Reason)
      → P (finished answer, record w { jobs_rejected = counts }))
    (admission : (profile : Profile) (info : Bytes)
      → IsAccepted s.env cat s.visitor s.job_description s.model_key s.api_key w.db profile info
      → P (creating profile info, w)) where
  open s use {env, visitor, job_description, model_key, api_key}

  check_info_rule :
      (profile : Profile) (info : Option Bytes)
      → ((i : Bytes)
          → info ≡ some i
          → IsAccepted env cat visitor job_description model_key api_key w.db profile i)
      → P (check_info cat s profile info w)
  check_info_rule profile none accepted = refusal _ w.jobs_rejected
  check_info_rule profile (some info) accepted = admission profile info (accepted info refl)

  module _ (described : job_description ≢ []) (entry : ModelCatalogEntry)
      (listed : get cat model_key ≡ some entry)
      (paid : (entry.provider ≡ fake) ⊎ (api_key ≢ [])) where
    check_sizes_rule :
        (profile : Profile) (o : Option SizeError)
        → get_profile env.profile_link visitor w.db ≡ ok profile
        → validate_job_sizes job_description profile.career_text ≡ o
        → P (check_sizes cat s profile o w)
    check_sizes_rule profile (some job_description_too_long) stored e = refusal _ _
    check_sizes_rule profile (some career_text_too_long) stored e = refusal _ _
    check_sizes_rule profile none stored e =
        elim (Bool-cases
          (is_empty (trim_space profile.career_text) || has_no_info profile.personal_info)) [
            | inl missing ↦ rw missing (refusal _ _)
            | inr complete ↦
                let (details, given, details_ne) =
                  info_given profile.personal_info (ground arith) in
                let read = info_text env cat visitor job_description model_key api_key in
                rw complete (
                  check_info_rule profile (env.decode_info (read profile.personal_info))
                    (λ i decoded. record {
                      described = described;
                      entry = entry;
                      listed = listed;
                      paid = paid;
                      stored = stored;
                      sizes = (validate_job_sizes_iff job_description profile.career_text).0.0 e;
                      career = ground arith;
                      details = details;
                      given = given;
                      details_ne = details_ne;
                      decoded = ap (λ o. env.decode_info (read o)) (sym given) ∙ decoded;
                    }))
          ]

    check_profile_rule :
        (r : Result Profile)
        → get_profile env.profile_link visitor w.db ≡ r
        → P (check_profile cat s r w)
    check_profile_rule (err not_found) e = refusal _ _
    check_profile_rule (err broken) e = refusal _ w.jobs_rejected
    check_profile_rule (ok profile) e = check_sizes_rule profile _ e refl

  check_entry_rule :
      (o : Option ModelCatalogEntry)
      → job_description ≢ []
      → get cat model_key ≡ o
      → P (check_entry cat s o w)
  check_entry_rule none described e = refusal _ _
  check_entry_rule (some entry) described e =
      elim (Bool-cases (not (is_fake entry.provider) && is_empty api_key)) [
        | inl missing ↦ rw missing (refusal _ _)
        | inr paid ↦
            rw paid (
              check_profile_rule described entry e (fake_or_key entry.provider api_key paid) _ refl)
      ]

  pub check_rule : P (check cat s w)
  check_rule = elim (Bool-cases (is_empty job_description)) [
    | inl blank ↦ rw blank (refusal _ _)
    | inr described ↦ rw described (check_entry_rule (get cat model_key) (ground arith) refl)
  ]
