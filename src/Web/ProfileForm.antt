-- ===== src/Web/ProfileForm.antt =====
-- The index page and `handleProfileSave` of handlers.go. `Info` is PersonalInfo of
-- gen/cvgen/cv/v1/cv.pb.go, whose optional phone is an Option.
pub mod Links
pub mod Saved
use corrupt_cv.Common.{
  ℕ, ◌+◌, Bool, true, false, ◌||◌, List, [], ◌∷◌, ◌++◌, map, Option, none, some, Text, codes,
  is_empty, ◌==◌, if◌then◌else◌,
}
use corrupt_cv.Common.Int.{ℤ, pos}
use corrupt_cv.Strings.{split, join, trim_space, cut_last}
use corrupt_cv.Store.Rows.{Profile, Job, Db}
use corrupt_cv.Store.Query.{
  Link, refused, Result, ok, err, not_found, broken, get_profile, upsert_profile, list_jobs,
}
use corrupt_cv.Catalog.Load.{ModelCatalogEntry, Catalog}
use corrupt_cv.Web.Response.{Response, internal_error, see_other, query_escape, redirect_with_error}

pub record WebLink : Type 0 where
  pub label : Text
  pub url : Text

pub record Info : Type 0 where
  pub name : Text
  pub email : Text
  pub phone : Option Text
  pub location_city : Text
  pub location_country : Text
  pub links : List WebLink

-- `profileForm`
pub record ProfileFields : Type 0 where
  pub career_text : Text
  pub name : Text
  pub email : Text
  pub phone : Text
  pub city : Text
  pub country : Text
  pub links : Text

abbrev pub blank_or_tab : ℕ → Bool
blank_or_tab c = c == 32 || c == 9

abbrev pub link_of_parts : Text → Option (Text × Text) → WebLink
link_of_parts line none = record { label = line; url = line }
link_of_parts line (some (label, url)) = record { label = trim_space label; url = trim_space url }

-- The loop of `parseLinks`.
unfoldable pub parse_lines : List Text → List WebLink
unfolding trim_space cut_last
parse_lines [] = []
parse_lines (raw ∷ lines) =
    let rest = parse_lines lines in
    let line = trim_space raw in
    if is_empty line then rest else link_of_parts line (cut_last blank_or_tab line) ∷ rest

-- `parseLinks`
unfoldable pub parse_links : Text → List WebLink
unfolding parse_lines split
parse_links raw = parse_lines (split 10 raw)

abbrev pub or_empty : Option Text → Text
or_empty none = []
or_empty (some t) = t

abbrev pub link_line : WebLink → Text
link_line l = l.label ++ 32 ∷ l.url

abbrev pub career_only : Text → ProfileFields
career_only career = record {
  career_text = career;
  name = [];
  email = [];
  phone = [];
  city = [];
  country = [];
  links = [];
}

abbrev pub fields_of : Text → Option Info → ProfileFields
unfolding join
fields_of career none = career_only career
fields_of career (some info) = record {
  career_text = career;
  name = info.name;
  email = info.email;
  phone = or_empty info.phone;
  city = info.location_city;
  country = info.location_country;
  links = join 10 (map link_line info.links);
}

-- `profileToForm`; `decode` is `protojson.Unmarshal`.
unfoldable pub profile_to_form : (Text → Option Info) → Profile → ProfileFields
profile_to_form decode p =
    if is_empty (or_empty p.personal_info)
    then career_only p.career_text
    else fields_of p.career_text (decode (or_empty p.personal_info))

-- What the index page is rendered from; `none` is "internal error".
pub record Index : Type 0 where
  pub profile : Option ProfileFields
  pub jobs : List Job
  pub models : List ModelCatalogEntry
  pub error : Text
  pub notice : Text

abbrev pub with_jobs :
    Catalog → (error notice : Text) → Option ProfileFields → Result (List Job) → Option Index
with_jobs cat error notice profile (err e) = none
with_jobs cat error notice profile (ok jobs) = some (record {
  profile = profile;
  jobs = jobs;
  models = cat.entries;
  error = error;
  notice = notice;
})

-- `handleIndex`, with the two values of the URL's query that it shows, and a link for
-- each of its two queries on the database.
unfoldable pub handle_index :
    (Text → Option Info)
    → Catalog
    → (error notice : Text) → (profile_link jobs_link : Link) → (visitor : Text) → Db
    → Option Index
unfolding get_profile list_jobs profile_to_form
handle_index decode cat error notice profile_link jobs_link visitor db =
    elim (get_profile profile_link visitor db) [
      | ok p ↦
          with_jobs cat error notice (some (profile_to_form decode p))
            (list_jobs jobs_link visitor (pos 20) db)
      | err not_found ↦ with_jobs cat error notice none (list_jobs jobs_link visitor (pos 20) db)
      | err broken ↦ none
    ]

abbrev pub optional : Text → Option Text
optional t = if is_empty t then none else some t

abbrev pub info_of : ProfileFields → Info
info_of f = record {
  name = trim_space f.name;
  email = trim_space f.email;
  phone = optional (trim_space f.phone);
  location_city = trim_space f.city;
  location_country = trim_space f.country;
  links = parse_links f.links;
}

module _ (encode : Info → Option Text) (jsonb : Text → Option Text) (link : Link) (now : ℕ)
    (fresh visitor : Text) where
  abbrev pub answer_saved : Result (Unit {0}) × Db → ℕ → Response × Db × ℕ
  answer_saved (err e, db) saved = (internal_error, db, saved)
  answer_saved (ok u, db) saved =
      (see_other (codes "/?notice=" ++ query_escape (codes "Profile saved.")), db, saved + 1)

  -- The column is of type jsonb, and a text that is none makes the statement fail.
  abbrev pub save_document : Text → Text → Option Text → Db → ℕ → Response × Db × ℕ
  save_document career json none db saved =
      answer_saved (upsert_profile refused now fresh visitor career json db) saved
  save_document career json (some document) db saved =
      answer_saved (upsert_profile link now fresh visitor career document db) saved

  abbrev pub save_encoded : Text → Option Text → Db → ℕ → Response × Db × ℕ
  save_encoded career none db saved = (internal_error, db, saved)
  save_encoded career (some json) db saved = save_document career json (jsonb json) db saved

  -- `handleProfileSave`; `encode` is `protojson.Marshal`, `jsonb` as in the codec, and the last number the count of saved
  -- profiles.
  unfoldable pub handle_profile_save : ProfileFields → Db → ℕ → Response × Db × ℕ
  unfolding trim_space parse_links upsert_profile redirect_with_error query_escape
  handle_profile_save f db saved =
      if is_empty (trim_space f.career_text)
      then (redirect_with_error (codes "Career history must not be empty."), db, saved)
      else if is_empty (trim_space f.name) || is_empty (trim_space f.email)
      then (redirect_with_error (codes "Name and email are required."), db, saved)
      else save_encoded (trim_space f.career_text) (encode (info_of f)) db saved
