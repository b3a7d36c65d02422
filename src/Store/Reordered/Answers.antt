-- ===== src/Store/Reordered/Answers.antt =====
-- What a query answers does not depend on the order of the rows.
use corrupt_cv.Common.{
  ℕ, ◌≡◌, ◌≢◌, refl, sym, ap, ◌∙◌, Bool, List, [], ◌∷◌, arith, Text, All, find, select, take,
  text_eq_iff, inl, inr, Bool-cases,
}
use corrupt_cv.Common.Int.{ℤ}
use corrupt_cv.Store.Rows.{Job, Db}
use corrupt_cv.Store.Query.{
  Link, ok, up, refused, lost, exec, or_not_found, get_job, list_jobs, limit_or_default,
  insert_newest, newest_first, is_job_of,
}
use corrupt_cv.Store.Write.{Write, run}
use corrupt_cv.Store.Reordered.{Swap, head, tail, Reorder, same, next, run-Reorder}

-- Rows with ids and times of their own.
abbrev Differ : Job → Job → Type 0
Differ a b = (a.id ≢ b.id) × (a.created_at ≢ b.created_at)

abbrev pub AreApart : List Job → Type 0
AreApart [] = Unit
AreApart (j ∷ js) = All (Differ j) js × AreApart js

All-Swap {ℓ κ} : {A : Type ℓ} (P : A → Type κ) {l m : List A} → Swap l m → All P l → All P m
All-Swap P (head a b l) (pa, (pb, rest)) = (pb, (pa, rest))
All-Swap P (tail a s) (pa, rest) = (pa, All-Swap P s rest)

AreApart-Swap : {l m : List Job} → Swap l m → AreApart l → AreApart m
AreApart-Swap (head a b l) ((ab, al), (bl, rest)) =
    ((((λ e. ab.0 (sym e)), (λ e. ab.1 (sym e))), bl), (al, rest))
AreApart-Swap (tail a s) (al, rest) = (All-Swap (Differ a) s al, AreApart-Swap s rest)

-- A search for an id finds the same row.
find-Swap :
    (id visitor : Text) {l m : List Job}
    → Swap l m
    → AreApart l
    → find (is_job_of id visitor) l ≡ find (is_job_of id visitor) m
find-Swap id visitor (head a b l) ((ab, al), rest) =
    ground (arith, ab.0, text_eq_iff a.id id, text_eq_iff b.id id)
find-Swap id visitor (tail a s) (al, rest) = ground (arith, find-Swap id visitor s rest)

insert_newest_comm :
    (a b : Job) (l : List Job)
    → a.created_at ≢ b.created_at
    → insert_newest a (insert_newest b l) ≡ insert_newest b (insert_newest a l)
unfolding insert_newest
insert_newest_comm a b [] differ = ground arith
insert_newest_comm a b (c ∷ l) differ = ground (arith, insert_newest_comm a b l differ)

-- The newest rows of a visitor come in the same order.
newest_first-Swap :
    (p : Job → Bool) {l m : List Job}
    → Swap l m
    → AreApart l
    → newest_first (select p l) ≡ newest_first (select p m)
unfolding newest_first
newest_first-Swap p (head a b l) ((ab, al), rest) = elim (Bool-cases (p a)) [
  | inl ea ↦ elim (Bool-cases (p b)) [
    | inl eb ↦ rw (ea, eb) (insert_newest_comm a b (newest_first (select p l)) ab.1)
    | inr eb ↦ rw (ea, eb) refl
  ]
  | inr ea ↦ elim (Bool-cases (p b)) [ inl eb ↦ rw (ea, eb) refl | inr eb ↦ rw (ea, eb) refl ]
]
newest_first-Swap p (tail a s) (al, rest) = elim (Bool-cases (p a)) [
  | inl e ↦ rw e (ap (insert_newest a) (newest_first-Swap p s rest))
  | inr e ↦ rw e (newest_first-Swap p s rest)
]

AreApart-Reorder : {l m : List Job} → Reorder l m → AreApart l → AreApart m
AreApart-Reorder same h = h
AreApart-Reorder (next r s) h = AreApart-Swap s (AreApart-Reorder r h)

find-Reorder :
    (id visitor : Text) {l m : List Job}
    → Reorder l m
    → AreApart l
    → find (is_job_of id visitor) l ≡ find (is_job_of id visitor) m
find-Reorder id visitor same h = refl
find-Reorder id visitor (next r s) h =
    find-Reorder id visitor r h ∙ find-Swap id visitor s (AreApart-Reorder r h)

newest_first-Reorder :
    (p : Job → Bool) {l m : List Job}
    → Reorder l m
    → AreApart l
    → newest_first (select p l) ≡ newest_first (select p m)
newest_first-Reorder p same h = refl
newest_first-Reorder p (next r s) h =
    newest_first-Reorder p r h ∙ newest_first-Swap p s (AreApart-Reorder r h)

get_job-Reorder :
    (link : Link) (id visitor : Text) (x y : Db)
    → Reorder x.jobs y.jobs
    → AreApart x.jobs
    → get_job link id visitor x ≡ get_job link id visitor y
unfolding get_job exec
get_job-Reorder up id visitor x y r h = ap (λ o. or_not_found (ok o)) (find-Reorder id visitor r h)
get_job-Reorder refused id visitor x y r h = refl
get_job-Reorder lost id visitor x y r h = refl

list_jobs-Reorder :
    (link : Link) (visitor : Text) (limit : ℤ) (x y : Db)
    → Reorder x.jobs y.jobs
    → AreApart x.jobs
    → list_jobs link visitor limit x ≡ list_jobs link visitor limit y
unfolding list_jobs exec
list_jobs-Reorder up visitor limit x y r h =
    ap (λ js. ok (take (limit_or_default limit) js)) (newest_first-Reorder _ r h)
list_jobs-Reorder refused visitor limit x y r h = refl
list_jobs-Reorder lost visitor limit x y r h = refl

-- The order in which a table holds its rows never shows. After any writes, answered or not, to
-- tables that hold the same jobs in two orders, the lookup of a job and the listing of a visitor's
-- jobs answer the same on both, if the ids and the times of creation of the jobs that there
-- are then differ from one another.
pub run-Reorder_answers :
    (ws : List (Link × ℕ × Write)) (db : Db) (m : List Job) (link : Link) (id visitor : Text)
    (limit : ℤ)
    → Reorder db.jobs m
    → AreApart (run ws db).jobs
    → let moved = record db { jobs = m } in
      (get_job link id visitor (run ws db) ≡ get_job link id visitor (run ws moved))
      × (list_jobs link visitor limit (run ws db) ≡ list_jobs link visitor limit (run ws moved))
run-Reorder_answers ws db m link id visitor limit r h =
    let after = run-Reorder ws db r in
    (get_job-Reorder link id visitor _ _ after h, list_jobs-Reorder link visitor limit _ _ after h)
