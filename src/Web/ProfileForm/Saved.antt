-- ===== src/Web/ProfileForm/Saved.antt =====
-- What a saved profile gives back.
use corrupt_cv.Common.{Bool, Text, text_eq}
use corrupt_cv.Store.Rows.{Profile}

abbrev is_of : Text → Profile → Bool
is_of visitor p = text_eq p.visitor_id visitor
