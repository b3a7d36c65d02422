-- ===== src/Store/Updates.antt =====
-- Lemmas on `UPDATE … WHERE`.
use corrupt_cv.Common.{
  ◌≡◌, refl, Bool, true, false, List, [], ◌∷◌, none, arith, All, find, inl, inr, Bool-cases,
  if◌then◌else◌,
}
use mathlib.Core.Option
use corrupt_cv.Store.Rows.{Db, Job}
use corrupt_cv.Store.Query.{Link, up, refused, lost, exec, update_where, update_returning}

module _ {ℓ} {A : Type ℓ} (guard : A → Bool) (change : A → A) where
  -- The row that an update leaves in the place of another.
  abbrev pub updated : A → A
  updated r = if guard r then change r else r

  -- An update that leaves a key alone commutes with the search by that key.
  pub find-update_where :
      (key : A → Bool) (rows : List A)
      → ((r : A) → key (change r) ≡ key r)
      → find key (update_where guard change rows) ≡ Option.map updated (find key rows)
  unfolding update_where
  find-update_where key [] keeps = refl
  find-update_where key (r ∷ rs) keeps = ground (arith, keeps r, find-update_where key rs keeps)

  pub All-update_where {κ} :
      (P : A → Type κ) (rows : List A)
      → ((r : A) → P r → guard r ≡ true → P (change r))
      → All P rows
      → All P (update_where guard change rows)
  unfolding update_where
  All-update_where P [] keep _ = tt
  All-update_where P (r ∷ rs) keep (here, later) = elim (Bool-cases (guard r)) [
    | inl passed ↦ rw passed (keep r here passed, All-update_where P rs keep later)
    | inr skipped ↦ rw skipped (here, All-update_where P rs keep later)
  ]

  -- An update whose guard no row passes changes nothing.
  pub update_where-none :
      (rows : List A) → All (λ r. guard r ≡ false) rows → update_where guard change rows ≡ rows
  unfolding update_where
  update_where-none [] _ = refl
  update_where-none (r ∷ rs) (here, later) = ground (arith, update_where-none rs later)

-- What a query leaves, it leaves whether or not its answer arrives.
pub exec_keeps {ℓ κ} :
    {A : Type ℓ} (P : Db → Type κ) (link : Link) (query : Db → A × Db) (db : Db)
    → P db
    → P (query db).1
    → P (exec link query db).1
unfolding exec
exec_keeps P up query db before after = after
exec_keeps P refused query db before after = before
exec_keeps P lost query db before after = after

module _ {ℓ} {A : Type ℓ} (guard : A → Bool) (change : A → A)
    (closes : (r : A) → guard r ≡ true → guard (change r) ≡ false) where
  -- No row passes the guard of an update that was made, if the change shuts it.
  pub update_where_closes :
      (rows : List A) → All (λ r. guard r ≡ false) (update_where guard change rows)
  unfolding update_where
  update_where_closes [] = tt
  update_where_closes (r ∷ rs) = elim (Bool-cases (guard r)) [
    | inl passed ↦ rw passed (closes r passed, update_where_closes rs)
    | inr skipped ↦ rw skipped (skipped, update_where_closes rs)
  ]

pub find-none {ℓ} :
    {A : Type ℓ} (p : A → Bool) (rows : List A) → All (λ r. p r ≡ false) rows → find p rows ≡ none
find-none p [] _ = refl
find-none p (r ∷ rs) (here, later) = ground (arith, find-none p rs later)

-- The same guarded update, made again at another time with another change, finds no row and
-- changes none.
pub update_returning_again :
    (guard : Job → Bool) (change again : Job → Job) (db : Db)
    → ((j : Job) → guard j ≡ true → guard (change j) ≡ false)
    → update_returning guard again (update_returning guard change db).1
      ≡ (none, (update_returning guard change db).1)
unfolding update_returning
update_returning_again guard change again db closes =
    let shut = update_where_closes guard change closes db.jobs in
    rw (find-none guard _ shut, update_where-none guard again _ shut) refl
