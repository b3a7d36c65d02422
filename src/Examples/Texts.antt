-- ===== src/Examples/Texts.antt =====
-- Subjects, cookies, the catalog, limits and headers.
use corrupt_cv.Common.{
  ℕ, zero, suc, ◌<◌, ◌≤◌, ◌≡◌, ◌↔◌, refl, true, false, List, [], ◌∷◌, none, some, arith, Text,
  codes, text_eq, All, length, inl,
}
use mathlib.Core.List.{Memᴰ}
use corrupt_cv.Strings.{Lacks, byte_length, trim_space, is_space}
use corrupt_cv.Events.{JobRequested}
use corrupt_cv.Jetstream.Subject.{subject, parse_subject, parse_subject_iff}
use corrupt_cv.Telemetry.Carrier.{get, inject_nats, get-inject_nats}
use corrupt_cv.Session.{Crypto, Cookie, hex_decode, sign, verify, middleware}
use corrupt_cv.Session.Laws.{verify_iff, middleware_returning}
use corrupt_cv.Catalog.Load.{
  Provider, YamlEntry, ModelCatalogEntry, Catalog, Loaded, load, is_key_rune, provider_of,
}
use corrupt_cv.Catalog.Load.Complete.{IsValid, load_valid}
use corrupt_cv.Catalog.Load.Laws.{IsLoaded, load-IsLoaded}
use corrupt_cv.Catalog.Search.{search, is_subsequence, Occurs, nothing, here}
use corrupt_cv.Catalog.Search.Laws.{is_subsequence_iff, mem-search}
use corrupt_cv.Web.Limits.{job_description_too_long, validate_job_sizes, validate_job_sizes_iff}

parse_subject_iff_example :
    (parse_subject (codes "cv.7f-a.failed") ≡ some (codes "7f-a", codes "failed")) ↔ (
      (subject (codes "7f-a") (codes "failed") ≡ codes "cv.7f-a.failed")
      × Lacks b'.' (codes "7f-a")
      × Lacks b'.' (codes "failed"))
parse_subject_iff_example =
    parse_subject_iff (codes "cv.7f-a.failed") (codes "7f-a") (codes "failed")

abbrev event : JobRequested
event = record {
  job_id = codes "j";
  career_text = codes "c";
  job_description = codes "d";
  personal_info = [];
  model_key = codes "m";
  occurred_at = some 1;
}

abbrev trace : List (Text × Text)
trace = (codes "traceparent", codes "00") ∷ []

get-inject_nats_example :
    get
      (codes "Nats-Msg-Id")
      (inject_nats trace ((codes "Nats-Msg-Id", codes "j:requested" ∷ []) ∷ []))
    ≡ get (codes "Nats-Msg-Id") ((codes "Nats-Msg-Id", codes "j:requested" ∷ []) ∷ [])
get-inject_nats_example =
    get-inject_nats trace (codes "Nats-Msg-Id")
      ((codes "Nats-Msg-Id", codes "j:requested" ∷ []) ∷ []) (ground arith, tt)

-- A tag of two bytes, and one id.
abbrev pub crypto : Crypto
crypto = record {
  hmac = λ secret id. 18 ∷ 171 ∷ [];
  hmac_bytes = λ secret id. (omega arith, (omega arith, tt));
  is_uuid = text_eq (codes "u-1");
}

verify_iff_example : verify crypto (codes "s") (codes "u-1.12AB") ≡ some (codes "u-1")
unfolding hex_decode text_eq
verify_iff_example =
    (verify_iff crypto (codes "s") (codes "u-1.12AB") (codes "u-1")).1
      (codes "12AB", refl, refl, refl, ground arith, ground arith)

abbrev issued : Cookie
issued = record {
  name = codes "cv_visitor";
  value = codes "u-1.12ab";
  max_age = 31536000;
  path = codes "/";
  secure = true;
  http_only = true;
  same_site_lax = true;
}

middleware_returning_example :
    middleware crypto (codes "s") false (codes "u-2") (some (codes "u-1.12ab"))
    ≡ ((middleware crypto (codes "s") true (codes "u-1") none).0, none)
unfolding middleware sign text_eq
middleware_returning_example =
    middleware_returning crypto (codes "s") true false (codes "u-1") (codes "u-2") issued none refl
      (ground arith) (ground arith) refl

abbrev entries : List YamlEntry
entries =
    record {
      key = codes "m-1";
      provider = codes "OPENAI";
      model_id = codes "gpt";
      display_name = codes "GPT";
      description = none;
    }
    ∷ []

abbrev entry : ModelCatalogEntry
entry = record {
  key = codes "m-1";
  provider = Provider.openai;
  model_id = codes "gpt";
  display_name = codes "GPT";
  description = none;
}

abbrev cat : Catalog
cat = record { entries = entry ∷ []; by_key = (codes "m-1", entry) ∷ [] }

load-IsLoaded_example : IsLoaded cat entries
unfolding load text_eq
load-IsLoaded_example = load-IsLoaded (λ c. c) entries cat refl

is_subsequence_iff_example : is_subsequence (codes "gt") (codes "gpt") ≡ true
is_subsequence_iff_example =
    (is_subsequence_iff (codes "gt") (codes "gpt")).1
      (here b'g' (Occurs.later b'p' (here b't' (nothing []))))

mem-search_example : Memᴰ entry (search (λ c. c) cat (codes " m1 "))
unfolding trim_space is_space
mem-search_example =
    (mem-search (λ c. c) cat (codes " m1 ") entry).1
      (Memᴰ.head refl, inl (here b'm' (Occurs.later b'-' (here b'1' (nothing [])))))

validate_job_sizes_iff_example :
    ((validate_job_sizes (codes "Go") (codes "C") ≡ none)
      ↔ ((byte_length (codes "Go") ≤ 20000) × (byte_length (codes "C") ≤ 100000)))
    × ((validate_job_sizes (codes "Go") (codes "C") ≡ some job_description_too_long)
        ↔ (20000 < byte_length (codes "Go")))
validate_job_sizes_iff_example = validate_job_sizes_iff (codes "Go") (codes "C")

-- "é", so many times
repeat : ℕ → Text
repeat zero = []
repeat (suc n) = 233 ∷ repeat n

repeat_wide : (n : ℕ) → All (λ r. 0x7f < r) (repeat n)
unfolding repeat
repeat_wide zero = tt
repeat_wide (suc n) = (omega arith, repeat_wide n)

length-repeat : (n : ℕ) → length (repeat n) ≡ n
unfolding repeat
length-repeat zero = refl
length-repeat (suc n) = omega (arith, length-repeat n)

first-IsValid :
    IsValid
      (λ c. c)
      (record {
        key = codes "m-1";
        provider = codes "OPENAI";
        model_id = codes "gpt";
        display_name = codes "GPT";
        description = none;
      })
unfolding is_key_rune provider_of text_eq
first-IsValid = record {
  key = ground arith;
  model_id = ground arith;
  display_name = ground arith;
  charset = (refl, (refl, (refl, tt)));
  provider = Provider.openai;
  known = refl;
}

load_valid_example : (c : Catalog) × (load (λ c. c) (some entries) ≡ Loaded.ok c)
load_valid_example =
    load_valid (λ c. c)
      (record {
        key = codes "m-1";
        provider = codes "OPENAI";
        model_id = codes "gpt";
        display_name = codes "GPT";
        description = none;
      })
      [] (first-IsValid, tt) (tt, tt)
