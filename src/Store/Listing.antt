-- ===== src/Store/Listing.antt =====
-- What `ListJobs` lists.
use mathlib.Core.List.{Perm}
use mathlib.Core.List.Perm
use corrupt_cv.Common.{
  ℕ, ◌≤◌, ◌≡◌, ◌⊎◌, refl, Bool, List, [], ◌∷◌, ◌++◌, arith, Text, All, select, take, drop, length,
  take-append-drop, length-take_bounds, text_eq, leb, inl, inr, Bool-cases,
}
use corrupt_cv.Common.Int.{ℤ}
use corrupt_cv.Store.Rows.{Job, Db}
use corrupt_cv.Store.Query.{up, ok, exec, insert_newest, newest_first, limit_or_default, list_jobs}

-- No row is newer than one before it.
abbrev pub IsNewestFirst : List Job → Type 0
IsNewestFirst [] = Unit
IsNewestFirst (j ∷ js) = All (λ (k : Job). k.created_at ≤ j.created_at) js × IsNewestFirst js

NotNewer-trans :
    (a b : ℕ) (js : List Job)
    → a ≤ b
    → All (λ (k : Job). k.created_at ≤ a) js
    → All (λ (k : Job). k.created_at ≤ b) js
NotNewer-trans a b [] le _ = tt
NotNewer-trans a b (j ∷ js) le (here, later) = (omega arith, NotNewer-trans a b js le later)

insert_newest-NotNewer :
    (t : ℕ) (j : Job) (js : List Job)
    → j.created_at ≤ t
    → All (λ (k : Job). k.created_at ≤ t) js
    → All (λ (k : Job). k.created_at ≤ t) (insert_newest j js)
unfolding insert_newest
insert_newest-NotNewer t j [] le _ = (le, tt)
insert_newest-NotNewer t j (k ∷ ks) le (here, later) =
    elim (Bool-cases (leb k.created_at j.created_at)) [
      | inl e ↦ rw e (le, (here, later))
      | inr e ↦ rw e (here, insert_newest-NotNewer t j ks le later)
    ]

insert_newest-IsNewestFirst :
    (j : Job) (js : List Job) → IsNewestFirst js → IsNewestFirst (insert_newest j js)
unfolding insert_newest
insert_newest-IsNewestFirst j [] _ = (tt, tt)
insert_newest-IsNewestFirst j (k ∷ ks) (below, ordered) =
    elim (Bool-cases (leb k.created_at j.created_at)) [
      | inl e ↦
          let le : k.created_at ≤ j.created_at = ground arith in
          rw e ((le, NotNewer-trans k.created_at j.created_at ks le below), (below, ordered))
      | inr e ↦ rw e (
        insert_newest-NotNewer k.created_at j ks (ground arith) below,
        insert_newest-IsNewestFirst j ks ordered,
      )
    ]

newest_first-IsNewestFirst : (js : List Job) → IsNewestFirst (newest_first js)
unfolding newest_first
newest_first-IsNewestFirst [] = tt
newest_first-IsNewestFirst (j ∷ js) =
    insert_newest-IsNewestFirst j (newest_first js) (newest_first-IsNewestFirst js)

insert_newest-perm : (j : Job) (js : List Job) → Perm (insert_newest j js) (j ∷ js)
unfolding insert_newest
insert_newest-perm j [] = Perm.rfl
insert_newest-perm j (k ∷ ks) = elim (Bool-cases (leb k.created_at j.created_at)) [
  | inl e ↦ rw e Perm.rfl
  | inr e ↦ rw e (Perm.trans (Perm.cons k (insert_newest-perm j ks)) (Perm.swap j k ks))
]

newest_first-perm : (js : List Job) → Perm (newest_first js) js
unfolding newest_first
newest_first-perm [] = Perm.rfl
newest_first-perm (j ∷ js) =
    Perm.trans (insert_newest-perm j (newest_first js)) (Perm.cons j (newest_first-perm js))

abbrev pub is_owned : Text → Job → Bool
is_owned visitor j = text_eq j.visitor_id visitor

-- What is listed, and what is left out behind it.
pub record IsListing (visitor : Text) (limit : ℕ) (rows listed rest : List Job) : Type 0 where
  pub all_owned : Perm (listed ++ rest) (select (is_owned visitor) rows)
  pub ordered : IsNewestFirst (listed ++ rest)
  pub within : length listed ≤ limit
  pub filled : (rest ≡ []) ⊎ (length listed ≡ limit)

-- The visitor's rows and no others are listed, newest first, up to the limit or the default of 20.
-- If a row of the visitor's is left out, the limit is reached, and no listed row is older.
pub list_jobs-IsListing :
    (visitor : Text) (limit : ℤ) (db : Db)
    → (listed : List Job) × (rest : List Job) × (list_jobs up visitor limit db ≡ ok listed)
      × IsListing visitor (limit_or_default limit) db.jobs listed rest
unfolding list_jobs exec
list_jobs-IsListing visitor limit db =
    let n = limit_or_default limit in
    let owned = select (is_owned visitor) db.jobs in
    let whole = take-append-drop n (newest_first owned) in
    let (within, filled) = length-take_bounds n (newest_first owned) in
    (
      take n (newest_first owned),
      drop n (newest_first owned),
      refl,
      record {
        all_owned = rw whole (newest_first-perm owned);
        ordered = rw whole (newest_first-IsNewestFirst owned);
        within = within;
        filled = filled;
      },
    )
