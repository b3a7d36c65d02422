-- ===== src/Examples/Filters.antt =====
-- A stream that two jobs share.
use corrupt_cv.Common.{
  All, ℕ, ◌≡◌, ◌≢◌, refl, ap, ◌∙◌, Bool, true, false, not, ◌&&◌, List, [], ◌∷◌, ◌++◌, some, arith,
  Text, codes, text_eq, is_empty, ◌==◌, if◌then◌else◌,
}
use corrupt_cv.Strings.{split}
use corrupt_cv.Store.Rows.{pending}
use corrupt_cv.Jetstream.Subject.{parse_subject}
use corrupt_cv.Jetstream.Provision.{job_filter}
use corrupt_cv.Jobs.Runner.{Msg}
use corrupt_cv.Jobs.Fact.{structured, rendered, status_in}
use corrupt_cv.Jobs.Spec.{consume}
use corrupt_cv.Web.Sse.{handle_job_events}
use corrupt_cv.Web.Sse.Filtered.{IsFilter, IsSpelt, served, served-consume}
use corrupt_cv.Web.Sse.Order.{last_status}
use corrupt_cv.Web.Sse.Sync.{arriving, messages}
use corrupt_cv.Examples.Data.{codec, new_job, runner_with, structured_msg, rendered_msg}

-- A filter is a prefix, a dot and ">".
unfoldable is_selected : Text → Text → Bool
is_selected [] s = false
is_selected (c ∷ f) [] = false
is_selected (c ∷ f) (d ∷ s) =
    let rest = is_selected f s in
    c == d && (if text_eq f (codes ">") then not (is_empty s) else rest)

longer : (prefix : Text) → text_eq (prefix ++ codes ".>") (codes ">") ≡ false
unfolding text_eq
longer [] = refl
longer (c ∷ []) = ground arith
longer (c ∷ d ∷ prefix) = ground arith

matches_sound :
    (prefix s : Text)
    → is_selected (prefix ++ codes ".>") s ≡ true
    → (rest : Text) × (rest ≢ []) × (s ≡ prefix ++ b'.' ∷ rest)
unfolding is_selected text_eq
matches_sound [] [] h = absurd (ground arith)
matches_sound [] (d ∷ s) h = (s, ground arith, ground arith)
matches_sound (c ∷ prefix) [] h = absurd (ground arith)
matches_sound (c ∷ prefix) (d ∷ s) h =
    let here : c ≡ d = ground (arith, longer prefix) in
    let later : is_selected (prefix ++ codes ".>") s ≡ true = ground (arith, longer prefix) in
    let (rest, some_rest, e) = matches_sound prefix s later in (rest, some_rest, ground arith)

matches_complete :
    (prefix rest : Text)
    → rest ≢ []
    → is_selected (prefix ++ codes ".>") (prefix ++ b'.' ∷ rest) ≡ true
unfolding is_selected text_eq
matches_complete [] rest some_rest = ground arith
matches_complete (c ∷ prefix) rest some_rest =
    ground (arith, longer prefix, matches_complete prefix rest some_rest)

is_selected-IsFilter : IsFilter is_selected
is_selected-IsFilter prefix s star tail = (
  matches_sound prefix s,
  λ (rest, some_rest, e).
      ap (is_selected (prefix ++ codes ".>")) e ∙ matches_complete prefix rest some_rest,
)

abbrev other_msg : Msg
other_msg = record { subject = codes "cv.k.rendered"; payload = codes "k.pdf" }

abbrev shared : List (ℕ × Msg)
shared = (10, structured_msg) ∷ (15, other_msg) ∷ (20, rendered_msg) ∷ []

shared-IsSpelt : All (IsSpelt codec (codes "j")) (messages shared)
unfolding parse_subject split text_eq
shared-IsSpelt = (
  (λ name event parsed read. ground arith),
  ((λ name event parsed read. ground arith), ((λ name event parsed read. ground arith), tt)),
)

served-consume_example :
    status_in (codes "j") (consume codec shared (runner_with new_job)).db.jobs
    ≡ some (
        last_status pending
          (handle_job_events codec new_job true true
            (arriving (served is_selected (codes "j") (messages shared)))).frames)
unfolding text_eq split is_selected job_filter parse_subject
served-consume_example =
    served-consume codec is_selected new_job shared (runner_with new_job) is_selected-IsFilter
      (omega arith, tt) (omega arith, tt) shared-IsSpelt refl
      (
        structured,
        (codes "j", codes "structured", refl, refl, refl),
        (λ e. ground arith),
        (rendered, (codes "j", codes "rendered", refl, refl, refl), (λ e. ground arith), tt),
      )
